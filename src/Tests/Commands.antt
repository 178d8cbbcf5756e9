-- ===== src/Tests/Commands.antt =====
-- The commands, the main config and the key files on a disk that is a table.
use ipojknm.Prelude.{
  true, false, ◌≡◌, ◌≢◌, refl, none, some, Option, [], ◌∷◌, ◌++◌, arith, ℕ, some_inj, map, ap,
  length, ◌⊎◌,
}
use ipojknm.Prelude.Text.{GoString, bytes_of, str_eq, str_eq_iff, str_eq_self}
use ipojknm.Prelude.Table.{Table, lookup, insert, lookup-insert}
use ipojknm.Errors.{GoError, eof, ok, err}
use ipojknm.Config.{ServerConfig, BackendWorkerConfig, PrivateKey, no_config}
use ipojknm.Config.Convert.{Outside, not_exist}
use ipojknm.Config.Verify.{verify_configs, verify_configs_iff}
use ipojknm.Config.Keys.{
  FileSystem, Crypto, FileError, absent, Content, found, missed, server_to_backend_config_on,
}
use ipojknm.Config.Keys.Kept.{
  KeepsFiles, private_path, public_path, server_to_backend_config_on-again,
}
use ipojknm.Config.Startup.{Json, ConfigFolder, read_ultraviolet_config, main_config_path}
use ipojknm.Config.Startup.Again.{WritesFiles, read_ultraviolet_config_again}
use ipojknm.Config.Ultraviolet.{UltravioletConfig, default_ultraviolet_config}
use ipojknm.Manager.{BackendManager, no_backends, update}
use ipojknm.Manager.Routes.{contains}
use ipojknm.Manager.Start.{reload_handler, answered, rounds}
use ipojknm.Manager.Start.Routes.{replicate}
use ipojknm.Manager.Spec.{finds}
use ipojknm.Cmd.{Host, workers, reloaded, serving, not_use_hot_swap, main}
use ipojknm.Cmd.Started.{plain_listener, services_of, main_run, main_reload}

abbrev stat_of : Option GoString → Option FileError
stat_of none = some absent
stat_of (some bb) = none

abbrev content_of : Option GoString → Content
content_of none = missed absent
content_of (some bb) = found bb

abbrev in_folder : GoString → GoString → GoString
in_folder folder name = folder ++ (b'/' ∷ name)

holds :
    (path bb : GoString) (t t' : Table GoString)
    → some (insert path bb t) ≡ some t'
    → lookup path t' ≡ some bb
holds path bb t t' e = rw (← some_inj e, lookup-insert path path bb t, str_eq_self path) refl

keeps :
    (path bb other : GoString) (t t' : Table GoString)
    → some (insert path bb t) ≡ some t'
    → other ≢ path
    → lookup other t' ≡ lookup other t
keeps path bb other t t' e apart =
    rw (← some_inj e) (ground (arith, lookup-insert path other bb t, str_eq_iff path other))

abbrev key_files : FileSystem (Table GoString)
key_files = record {
  stat = λ path t. stat_of (lookup path t);
  read_file = λ path t. content_of (lookup path t);
  create = λ path bb t. some (insert path bb t);
  dir = λ path. bytes_of "/etc";
  join = in_folder;
}

key_files-KeepsFiles : KeepsFiles key_files (λ path other. other ≢ path)
key_files-KeepsFiles = record {
  reads_back = λ path bb t t' e. rw (holds path bb t t' e) refl;
  is_there = λ path bb t t' e. rw (holds path bb t t' e) refl;
  others_stay = λ path bb other t t' e apart. rw (keeps path bb other t t' e apart) (refl, refl);
}

abbrev a_key : PrivateKey
a_key text = some text

abbrev crypto : Crypto
crypto = record {
  generate_key = some a_key;
  marshal_private_key = λ k. some (bytes_of "private");
  marshal_public_key = λ k. some (bytes_of "public");
  parse_private_key = λ bb. some a_key;
}

abbrev play : GoString
play = bytes_of "play.example.com"

abbrev server : ServerConfig
server = record no_config {
  domains = play ∷ [];
  proxy_to = bytes_of ":25566";
  new_real_ip = true;
  real_ip_key = bytes_of "/keys/mine";
}

private_differs : private_path key_files server play ≢ public_path key_files server play
private_differs e =
    let same : length (private_path key_files server play)
        ≡ length (public_path key_files server play) =
      ap length e in
    absurd (omega (arith, same))

abbrev outside : Outside
outside = record {
  parse_duration = λ s. none;
  json_marshal = λ r. [];
  read_private_key = λ path. not_exist;
  existing_key = λ cfg. ok none;
  generate_keys = λ cfg. ok none;
}

nothing_there : (path : GoString) → lookup {V = GoString} path [] ≡ none
unfolding lookup
nothing_there path = refl

server_to_backend_config_on-again_example :
    (w : BackendWorkerConfig) × (s' : Table GoString) × (server_to_backend_config_on key_files
        crypto outside server []
      ≡ ok (w, s'))
    × (w.real_ip_key ≡ some a_key)
    × (server_to_backend_config_on key_files
          (record crypto { generate_key = none })
          outside
          server
          s'
        ≡ ok (w, s'))
server_to_backend_config_on-again_example =
    server_to_backend_config_on-again key_files crypto none outside server play [] a_key
      (bytes_of "private") [] (insert (private_path key_files server play) (bytes_of "private") [])
      (λ path other. other ≢ path) key_files-KeepsFiles refl refl
      (rw (nothing_there (bytes_of "/keys/mine")) refl)
      (rw (nothing_there (private_path key_files server play)) refl) refl refl refl refl
      private_differs (λ e. cc) (λ e. cc)

abbrev config_folder : ConfigFolder (Table GoString)
config_folder = record {
  stat = λ path t. stat_of (lookup path t);
  read_file = λ path t. content_of (lookup path t);
  mkdir_all = λ path t. some t;
  write_file = λ path bb t. some (insert path bb t);
  join = in_folder;
}

config_folder-WritesFiles : WritesFiles config_folder
config_folder-WritesFiles = record {
  is_there = λ path bb t t' e. rw (holds path bb t t' e) refl;
  reads_back = λ path bb t t' e. rw (holds path bb t t' e) refl;
}

abbrev json : Json UltravioletConfig
json = record { marshal = λ cfg. some (bytes_of "{}"); unmarshal = λ bb cfg. ok cfg }

abbrev etc : GoString
etc = bytes_of "/etc"

abbrev after_first : Table GoString
after_first = insert (main_config_path config_folder etc) (bytes_of "{}") []

first_read :
    read_ultraviolet_config config_folder json etc [] ≡ (ok default_ultraviolet_config, after_first)
unfolding read_ultraviolet_config lookup
first_read = refl

read_ultraviolet_config_again_example :
    read_ultraviolet_config config_folder json etc after_first
    ≡ (ok default_ultraviolet_config, after_first)
read_ultraviolet_config_again_example =
    read_ultraviolet_config_again config_folder json etc config_folder-WritesFiles (λ bb e. refl) []
      default_ultraviolet_config after_first first_read

abbrev plain_server : ServerConfig
plain_server = record server { new_real_ip = false }

abbrev host : Host (Table GoString)
host = record {
  folder = config_folder;
  json = json;
  outside = outside;
  parse_flags = λ path args. some etc;
  on_windows = false;
  version = bytes_of "docker";
  pid = bytes_of "7";
  listen = λ addr t. none;
  new_upgrader = λ path t. none;
  upgrader_listen = λ addr t. none;
  upgrader_ready = λ t. none;
  listen_packet = λ t addr. true;
  http_get = λ url t. ok (500, bytes_of "no config files");
  read_servers = λ path t. ok (plain_server ∷ []);
  read_bedrock = λ path t. ok [];
  read_java = λ path t. ok [];
}

in_docker : not_use_hot_swap host default_ultraviolet_config ≡ true
unfolding not_use_hot_swap str_eq default_ultraviolet_config
in_docker = refl

stable : default_ultraviolet_config.use_less_stable_mode ≡ false
unfolding default_ultraviolet_config
stable = refl

verified : verify_configs (plain_server ∷ []) ≡ []
verified = (verify_configs_iff (plain_server ∷ [])).1 (((tt, tt)), (((λ e. cc), (λ e. cc)), tt))

main_run_example :
    (m : BackendManager) × (main host (bytes_of "uv" ∷ (bytes_of "run" ∷ [])) []
      ≡ serving
          (some (plain_listener default_ultraviolet_config))
          (workers (services_of default_ultraviolet_config m))
          after_first)
    × ((d : GoString)
        → contains d plain_server.domains ≡ true
        → (lookup d m.worker_manager.server_dict ≡ some 0)
          × (map (finds d m.worker_manager) m.worker_manager.workers
              ≡ replicate (rounds default_ultraviolet_config.number_of_workers) (some 0)))
main_run_example =
    main_run host (bytes_of "uv") [] etc default_ultraviolet_config [] after_first [] plain_server
      [] config_folder-WritesFiles (λ bb e. refl) refl first_read in_docker stable refl refl
      verified (refl, tt)

fails : reload_handler outside (err eof) [] [] no_backends ≡ ok (500, no_backends)
unfolding reload_handler answered update
fails = refl

main_reload_example :
    (main host (bytes_of "uv" ∷ (bytes_of "reload" ∷ [])) []
      ≡ reloaded (bytes_of "no config files") after_first)
    × (((◌≡◌ {A = ℕ} 500 200) × (update outside (err eof) [] [] no_backends ≡ ok no_backends))
        ⊎ ((◌≡◌ {A = ℕ} 500 500)
            × (e : GoError) × (update outside (err eof) [] [] no_backends ≡ err e)
            × (no_backends ≡ no_backends)))
main_reload_example =
    main_reload host (bytes_of "uv") [] etc default_ultraviolet_config [] after_first (err eof) []
      [] no_backends no_backends 500 (bytes_of "no config files") refl first_read fails refl
