-- ===== src/Cmd.antt =====
-- cmd/main.go: the commands run, reload and run-experimental. The disk, the network and the flags are
-- a state that only the operations of a Host look into; what is logged is left out.
pub mod Started
use ipojknm.Prelude.{
  Bool, true, false, not, ◌||◌, ℕ, Option, none, some, List, [], ◌∷◌, ◌++◌, if◌then◌else◌, ◌≡◌,
}
use ipojknm.Prelude.Text.{GoString, bytes_of, str_eq}
use ipojknm.Prelude.Table.{Table}
use ipojknm.Errors.{GoError, Outcome, ok, err, fault}
use ipojknm.Core.{ServerCatalog}
use ipojknm.Config.{ServerConfig}
use ipojknm.Config.Convert.{Outside}
use ipojknm.Config.Keys.{FileError, absent, failed}
use ipojknm.Config.Startup.{Json, ConfigFolder, read_ultraviolet_config}
use ipojknm.Config.Ultraviolet.{UltravioletConfig}
use ipojknm.Manager.Start.{Services, start_services}
use ipojknm.Root.ApiServer.{ApiServer}
use ipojknm.Root.Proxy.{reload_server_catalog}
use ipojknm.V2.Config.{BedrockServerConfig, JavaConfig}
use ipojknm.V2.Server.Run.{run}

-- What the commands use of Go's packages, of tableflip and of the build, and the readers of the
-- config folder that Config.Reader and V2.Config.Files are about.
pub record Host (S : Type 0) : Type 0 where
  pub folder : ConfigFolder S
  pub json : Json UltravioletConfig
  pub outside : Outside
  -- flags.Parse with its default: none where flag.ExitOnError ends the process
  pub parse_flags : GoString → List GoString → Option GoString
  -- runtime.GOOS == "windows", uvVersion, fmt.Sprint(os.Getpid())
  pub on_windows : Bool
  pub version : GoString
  pub pid : GoString
  -- net.Listen, tableflip.New with its PID file, Upgrader.Listen, Upgrader.Ready
  pub listen : GoString → S → Option GoError
  pub new_upgrader : GoString → S → Option GoError
  pub upgrader_listen : GoString → S → Option GoError
  pub upgrader_ready : S → Option GoError
  pub listen_packet : S → GoString → Bool
  -- http.Get and ioutil.ReadAll of its body: the status code and the text
  pub http_get : GoString → S → Outcome (ℕ × GoString)
  -- backendConfigFileReader.Read, ReadBedrockConfigs, ReadJavaConfigs
  pub read_servers : GoString → S → Outcome (List ServerConfig)
  pub read_bedrock : GoString → S → Outcome (List BedrockServerConfig)
  pub read_java : GoString → S → Outcome (List JavaConfig)

-- A listener: its address, the PID file where it can be handed to a new process, and whether it wants
-- the header of the PROXY protocol.
pub record Listener : Type 0 where
  pub address : GoString
  pub pid_file : Option GoString
  pub requires_proxy_protocol : Bool

-- core.NewProxyFunc: worker.NewProxy and the root package's NewProxy
pub data NewProxy : Type 0 where
  worker_proxy speedy_proxy : NewProxy

-- What Start leaves running.
pub data Running : Type 0 where
  workers : Services → Running
  speedy : Outcome (ServerCatalog ApiServer) → Running
  experimental : List GoString → Table GoString → Running

-- How Main ends: it returns, it returns behind a reload whose answer it has printed, the process ends
-- at once (log.Fatal, a panic, or the flags), or it waits while the proxy runs.
pub data Ending (S : Type 0) : Type 0 where
  returned : S → Ending S
  reloaded : GoString → S → Ending S
  aborted : Ending S
  serving : Option Listener → Running → S → Ending S

abbrev pub default_cfg_path : GoString
default_cfg_path = bytes_of "/etc/ultraviolet"

abbrev pub pid_file_name : GoString
pid_file_name = bytes_of "uv.pid"

module _ {S : Type 0} (host : Host S) where
  read_main : GoString → S → Outcome UltravioletConfig × S
  read_main path s = read_ultraviolet_config host.folder host.json path s

  -- The PID of this process is kept where there is no file yet; an error is not looked at.
  write_pid_file : GoString → S → Option FileError → S
  write_pid_file pid_file s none = s
  write_pid_file pid_file s (some (failed e)) = s
  write_pid_file pid_file s (some absent) = elim (host.folder.write_file pid_file host.pid s) [
    | none ↦ s
    | some s' ↦ s'
  ]

  -- tableflipListener: its first error is fatal, its second one in createListener.
  unfoldable pub tableflip_listener : GoString → GoString → S → Option GoError
  tableflip_listener pid_file address s = elim (host.new_upgrader pid_file s) [
    | none ↦ host.upgrader_listen address s
    | some e ↦ some e
  ]

  listening : Listener → S → Option GoError → Option (Listener × S)
  listening l s none = some (l, s)
  listening l s (some e) = none

  -- createListener: none where the process ends by log.Fatal.
  unfoldable pub create_listener : GoString → UltravioletConfig → Bool → S → Option (Listener × S)
  unfolding listening write_pid_file
  create_listener pid_file_path cfg true s =
      listening
        (record {
          address = cfg.listen_to;
          pid_file = none;
          requires_proxy_protocol = cfg.accept_proxy_protocol;
        })
        s (host.listen cfg.listen_to s)
  create_listener pid_file_path cfg false s =
      let pid_file = if str_eq cfg.pid_file [] then pid_file_path else cfg.pid_file in
      let s' = write_pid_file pid_file s (host.folder.stat pid_file s) in
      listening
        (record {
          address = cfg.listen_to;
          pid_file = some pid_file;
          requires_proxy_protocol = cfg.accept_proxy_protocol;
        })
        s' (tableflip_listener pid_file cfg.listen_to s')

  workers_of : Outcome Services → Outcome Running
  workers_of (ok services) = ok (workers services)
  workers_of (err e) = err e
  workers_of fault = fault

  -- proxy.Start: that of the workers reads the main config twice. The disk is followed here up to the
  -- server configs; the keys that they may generate are those of Config.Keys.
  start_read : GoString → Outcome UltravioletConfig × S → Outcome Running × S
  unfolding workers_of read_main
  start_read path (ok cfg, s) =
      let again = read_main path s in
      (
        workers_of (start_services host.outside (ok cfg) again.0 (host.read_servers path again.1)),
        again.1,
      )
  start_read path (err e, s) = (err e, s)
  start_read path (fault, s) = (fault, s)

  start_proxy : NewProxy → GoString → S → Outcome Running × S
  unfolding start_read read_main
  start_proxy worker_proxy path s = start_read path (read_main path s)
  start_proxy speedy_proxy path s =
      let uv = read_main path s in
      (ok (speedy (reload_server_catalog host.outside uv.0 (host.read_servers path uv.1))), uv.1)

  -- `select {}`, or upg.Ready and the wait for upg.Exit
  wait : Bool → Listener → Running → S → Ending S
  wait true l running s = serving (some l) running s
  wait false l running s = elim (host.upgrader_ready s) [
    | none ↦ serving (some l) running s
    | some e ↦ aborted
  ]

  after_start : Bool → Listener → Outcome Running × S → Ending S
  unfolding wait
  after_start plain l (ok running, s) = wait plain l running s
  after_start plain l (err e, s) = returned s
  after_start plain l (fault, s) = aborted

  with_listener : GoString → NewProxy → Bool → Option (Listener × S) → Ending S
  unfolding after_start start_proxy
  with_listener path new_proxy plain none = aborted
  with_listener path new_proxy plain (some (l, s)) =
      after_start plain l (start_proxy new_proxy path s)

  unfoldable pub not_use_hot_swap : UltravioletConfig → Bool
  not_use_hot_swap cfg =
      not cfg.use_tableflip || (host.on_windows || str_eq host.version (bytes_of "docker"))

  run_read : GoString → NewProxy → Outcome UltravioletConfig × S → Ending S
  unfolding with_listener not_use_hot_swap
  run_read path new_proxy (ok cfg, s) =
      with_listener path new_proxy (not_use_hot_swap cfg)
        (create_listener (host.folder.join path pid_file_name) cfg (not_use_hot_swap cfg) s)
  run_read path new_proxy (err e, s) = returned s
  run_read path new_proxy (fault, s) = aborted

  -- RunProxy; Main logs the error that it returns, and returns.
  unfoldable pub run_proxy_with : GoString → NewProxy → S → Ending S
  unfolding run_read read_main
  run_proxy_with path new_proxy s = run_read path new_proxy (read_main path s)

  unfoldable pub new_proxy_of : UltravioletConfig → NewProxy
  new_proxy_of cfg = if cfg.use_less_stable_mode then speedy_proxy else worker_proxy

  choose : GoString → Outcome UltravioletConfig × S → Ending S
  choose path (ok cfg, s) = run_proxy_with path (new_proxy_of cfg) s
  choose path (err e, s) = returned s
  choose path (fault, s) = aborted

  -- runProxy
  unfoldable pub run_proxy : GoString → S → Ending S
  unfolding choose read_main
  run_proxy path s = choose path (read_main path s)

  -- fmt.Sprintf("http://%s/reload", mainCfg.APIBind)
  unfoldable pub reload_url : UltravioletConfig → GoString
  reload_url cfg = bytes_of "http://" ++ (cfg.api_bind ++ bytes_of "/reload")

  call : UltravioletConfig → S → Outcome (ℕ × GoString) → Ending S
  call cfg s (ok (code, text)) = reloaded text s
  call cfg s (err e) = aborted
  call cfg s fault = aborted

  call_read : Outcome UltravioletConfig × S → Ending S
  unfolding call
  call_read (ok cfg, s) = call cfg s (host.http_get (reload_url cfg) s)
  call_read (err e, s) = aborted
  call_read (fault, s) = aborted

  -- callReloadAPI, with what Main does on its error
  unfoldable pub call_reload_api : GoString → S → Ending S
  unfolding call_read read_main
  call_reload_api path s = call_read (read_main path s)

  experimental_of : S → Outcome (List GoString × Table GoString) → Ending S
  experimental_of s (ok (addrs, servers)) = serving none (experimental addrs servers) s
  experimental_of s (err e) = aborted
  experimental_of s fault = aborted

  command : GoString → GoString → S → Ending S
  unfolding experimental_of
  command name path s =
      if str_eq name (bytes_of "run")
      then run_proxy path s
      else if str_eq name (bytes_of "reload")
      then call_reload_api path s
      else if str_eq name (bytes_of "run-experimental")
      then experimental_of s
          (run (host.listen_packet s) (host.read_bedrock path s) (host.read_java path s))
      else returned s

  with_flags : GoString → Option GoString → S → Ending S
  unfolding command
  with_flags name none s = aborted
  with_flags name (some path) s = command name path s

  -- Main, with os.Args
  unfoldable pub main : List GoString → S → Ending S
  unfolding with_flags
  main [] s = aborted
  main (program ∷ []) s = aborted
  main (program ∷ (name ∷ args)) s = with_flags name (host.parse_flags default_cfg_path args) s
