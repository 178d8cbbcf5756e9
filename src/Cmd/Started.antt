-- ===== src/Cmd/Started.antt =====
-- cmd/main.go: what the commands start, down to the routes of the workers, and what a reload returns.
use ipojknm.Prelude.{
  true, false, ℕ, none, some, ◌≡◌, refl, List, [], ◌∷◌, ◌++◌, All, length, map, ◌⊎◌, inl, inr,
  if◌then◌else◌,
}
use ipojknm.Prelude.Text.{GoString, bytes_of, str_eq}
use ipojknm.Prelude.Table.{lookup}
use ipojknm.Errors.{GoError, Outcome, ok, err, fault}
use ipojknm.Config.{ServerConfig}
use ipojknm.Config.Verify.{verify_configs}
use ipojknm.Config.Startup.{read_ultraviolet_config}
use ipojknm.Config.Startup.Again.{WritesFiles, read_ultraviolet_config_again}
use ipojknm.Config.Ultraviolet.{UltravioletConfig, default_ultraviolet_config}
use ipojknm.Manager.{BackendManager, update}
use ipojknm.Manager.Routes.{contains}
use ipojknm.Manager.Start.{Services, start, start_services, reload_handler, rounds, answered}
use ipojknm.Manager.Start.Routes.{start-routes, replicate}
use ipojknm.Manager.Spec.{finds}
use ipojknm.Cmd.{
  Host, Listener, worker_proxy, workers, reloaded, serving, default_cfg_path, read_main, listening,
  create_listener, workers_of, start_read, start_proxy, wait, after_start, with_listener,
  not_use_hot_swap, run_read, run_proxy_with, new_proxy_of, choose, run_proxy, reload_url, call,
  call_read, call_reload_api, command, with_flags, main,
}

-- The listener of a process that cannot hand it over.
abbrev pub plain_listener : UltravioletConfig → Listener
plain_listener cfg = record {
  address = cfg.listen_to;
  pid_file = none;
  requires_proxy_protocol = cfg.accept_proxy_protocol;
}

-- What the workers' Start leaves running.
abbrev pub services_of : UltravioletConfig → BackendManager → Services
services_of cfg m = record {
  manager = m;
  listeners = rounds cfg.number_of_listeners;
  prometheus = if cfg.use_prometheus then some cfg.prometheus_bind else none;
  api = cfg.api_bind;
}

module _ {S : Type 0} (host : Host S) (path : GoString) (cfg : UltravioletConfig) (s s' : S) where
  -- The main config reads the same each time.
  runs :
      (m : BackendManager)
      → read_main host path s' ≡ (ok cfg, s')
      → host.listen cfg.listen_to s' ≡ none
      → not_use_hot_swap host cfg ≡ true
      → start host.outside (ok cfg) (ok cfg) (host.read_servers path s') ≡ ok m
      → run_proxy_with host path worker_proxy s'
        ≡ serving (some (plain_listener cfg)) (workers (services_of cfg m)) s'
  unfolding run_proxy_with run_read create_listener listening with_listener start_proxy start_read
      workers_of start_services after_start wait
  runs m again listens plain e = simp (again, plain, listens, e) refl

-- On a disk that keeps what is written, and with a default config that survives JSON: the command
-- run, where its flags are accepted, and the main config is read (or written on a first run), asks for
-- no hand-over of the listener and not for the less stable mode, and its address can be listened on:
-- with server configs that VerifyConfigs accepts and that want no RealIP key, it ends in waiting for
-- the proxy that it has started, on that address and with the PROXY protocol as configured, with the
-- listeners, the metrics and the API that the main config names, and with as many workers as it names,
-- each of which has each domain of a server config routed to that config's backend.
pub main_run :
    {S : Type 0} (host : Host S) (program : GoString) (args : List GoString) (path : GoString)
    (cfg : UltravioletConfig) (s s' : S) (earlier : List ServerConfig) (server : ServerConfig)
    (later : List ServerConfig)
    → WritesFiles host.folder
    → ((bb : GoString)
        → host.json.marshal default_ultraviolet_config ≡ some bb
        → host.json.unmarshal bb default_ultraviolet_config ≡ ok default_ultraviolet_config)
    → host.parse_flags default_cfg_path args ≡ some path
    → read_ultraviolet_config host.folder host.json path s ≡ (ok cfg, s')
    → not_use_hot_swap host cfg ≡ true
    → cfg.use_less_stable_mode ≡ false
    → host.listen cfg.listen_to s' ≡ none
    → host.read_servers path s' ≡ ok (earlier ++ server ∷ later)
    → verify_configs (earlier ++ server ∷ later) ≡ []
    → All (λ c. c.new_real_ip ≡ false) (earlier ++ server ∷ later)
    → (m : BackendManager) × (main host (program ∷ (bytes_of "run" ∷ args)) s
        ≡ serving (some (plain_listener cfg)) (workers (services_of cfg m)) s')
      × ((d : GoString)
          → contains d server.domains ≡ true
          → (lookup d m.worker_manager.server_dict ≡ some (length earlier))
            × (map (finds d m.worker_manager) m.worker_manager.workers
                ≡ replicate (rounds cfg.number_of_workers) (some (length earlier))))
unfolding main with_flags command run_proxy choose new_proxy_of read_main str_eq
main_run host program args path cfg s s' earlier server later laws survives flags first plain stable
      listens servers verified plain_keys =
    let again : read_ultraviolet_config host.folder host.json path s' ≡ (ok cfg, s') =
      read_ultraviolet_config_again host.folder host.json path laws survives s cfg s' first in
    let routed =
      start-routes host.outside cfg (ok cfg) earlier server later (λ e. cc) verified plain_keys in
    (
      routed.0,
      simp (flags, first, stable)
          (runs host path cfg s s' routed.0 again listens plain (rw servers routed.1)),
      routed.2,
    )

answered-cases :
    (o : Outcome BackendManager) (m m' : BackendManager) (code : ℕ)
    → answered m o ≡ ok (code, m')
    → ((code ≡ 200) × (o ≡ ok m')) ⊎ ((code ≡ 500) × (e : GoError) × (o ≡ err e) × (m' ≡ m))
unfolding answered
answered-cases (ok n) m m' code h = inl (cc, cc)
answered-cases (err e) m m' code h = inr (cc, e, refl, cc)
answered-cases fault m m' code h = absurd cc

-- The command reload, where the flags and the main config can be read and the running process answers
-- with a code and a text, prints the text and ends in the same way whatever the code is: with 200, where
-- Update has succeeded, and with 500, where Update has failed and the manager is as before.
pub main_reload :
    {S : Type 0} (host : Host S) (program : GoString) (args : List GoString) (path : GoString)
    (cfg : UltravioletConfig) (s s' : S) (read : Outcome (List ServerConfig))
    (olds news : List ServerConfig) (m m' : BackendManager) (code : ℕ) (text : GoString)
    → host.parse_flags default_cfg_path args ≡ some path
    → read_ultraviolet_config host.folder host.json path s ≡ (ok cfg, s')
    → reload_handler host.outside read olds news m ≡ ok (code, m')
    → host.http_get (reload_url host cfg) s' ≡ ok (code, text)
    → (main host (program ∷ (bytes_of "reload" ∷ args)) s ≡ reloaded text s')
      × (((code ≡ 200) × (update host.outside read olds news m ≡ ok m'))
          ⊎ ((code ≡ 500)
              × (e : GoError) × (update host.outside read olds news m ≡ err e)
              × (m' ≡ m)))
unfolding main with_flags command call_reload_api call_read call read_main str_eq reload_handler
main_reload host program args path cfg s s' read olds news m m' code text flags first answer gets =
    (
      simp (flags, first, gets) refl,
      answered-cases (update host.outside read olds news m) m m' code answer,
    )
