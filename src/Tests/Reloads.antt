-- ===== src/Tests/Reloads.antt =====
-- Reloads of the configs at concrete files.
use ipojknm.Prelude.{true, false, ◌≡◌, ◌≢◌, refl, none, some, List, [], ◌∷◌, map, All}
use ipojknm.Prelude.Text.{GoString, bytes_of, str_eq, to_lower}
use ipojknm.Prelude.Table.{lookup, insert, delete}
use ipojknm.Errors.{ok}
use ipojknm.Limiter.{is_some}
use ipojknm.Config.{ServerConfig, id, no_config, default_server_config}
use ipojknm.Config.Convert.{Outside, not_exist, server_to_backend_config}
use ipojknm.Config.Verify.{verify_configs, verify_configs_iff, NoRepeat, all_domains, IsUsable}
use ipojknm.Config.Reader.{
  Disk, Visit, visit, walk, is_server_file, load_each, load_server_cfg_from_path,
  read_server_configs, read,
}
use ipojknm.Config.Reader.Accepted.{path_of, read_accepts}
use ipojknm.Manager.{
  BackendManager, no_backends, update_config, remove_config, count, update, add_each, add_config,
  knows_domain,
}
use ipojknm.Manager.Routes.{contains}
use ipojknm.Manager.Spec.{
  Call, adds, removes, registers, run, Routed, run_routed, finds, run-refines,
}
use ipojknm.Manager.Stale.{remove_config_stale}
use ipojknm.Manager.Start.{start}
use ipojknm.Manager.Start.Routes.{start-routes, worker_count, replicate}
use ipojknm.Config.Ultraviolet.{default_ultraviolet_config}
use ipojknm.Manager.Open.Reloads.{Reloaded, Reload, Reloaded-AllOpen}

abbrev play : GoString
play = bytes_of "play.example.com"

abbrev calls : List Call
calls =
    registers true
    ∷ registers false
    ∷ adds (play ∷ []) 3
    ∷ registers false
    ∷ removes (bytes_of "old.example.com" ∷ [])
    ∷ []

abbrev nothing : Routed
nothing = record { routing = λ d. none; views = [] }

run-refines_example :
    (lookup play (run calls no_backends.worker_manager).server_dict
      ≡ (run_routed calls nothing).routing play)
    × (map
          (finds play (run calls no_backends.worker_manager))
          (run calls no_backends.worker_manager).workers
        ≡ map (λ g. g play) (run_routed calls nothing).views)
    × (knows_domain play (run calls no_backends.worker_manager)
        ≡ is_some ((run_routed calls nothing).routing (to_lower play)))
run-refines_example =
    run-refines calls no_backends.worker_manager nothing (λ d. (unfold lookup in refl, refl)) play

abbrev lobby : ServerConfig
lobby = record no_config {
  file_path = bytes_of "lobby.json";
  domains = bytes_of "lobby.example.com" ∷ [];
  proxy_to = bytes_of ":25566";
}

abbrev grown : ServerConfig
grown = record lobby { domains = bytes_of "lobby.example.com" ∷ play ∷ [] }

abbrev loaded : BackendManager
loaded = record no_backends {
  cfgs = (id lobby, lobby) ∷ [];
  backends = (id lobby, 0) ∷ [];
  made = 1;
}

known : lookup (id grown) loaded.cfgs ≡ some lobby
unfolding lookup str_eq id
known = refl

has_backend : lookup (id grown) loaded.backends ≡ some 0
unfolding lookup str_eq id
has_backend = refl

same_id : id lobby ≡ id grown
unfolding id
same_id = refl

play_added : count play grown.domains ≡ 1
unfolding count str_eq
play_added = refl

play_new : contains play lobby.domains ≡ false
unfolding str_eq
play_new = refl

remove_config_stale_example :
    (m' : BackendManager) × (update_config grown loaded ≡ ok m')
    × (lookup (id grown) m'.cfgs ≡ some lobby)
    × (lookup play (remove_config lobby m').worker_manager.server_dict ≡ some 0)
    × ((remove_config lobby m').closed ≡ 0 ∷ [])
remove_config_stale_example =
    remove_config_stale lobby grown loaded play 0 known same_id has_backend play_added play_new

abbrev outside : Outside
outside = record {
  parse_duration = λ s. none;
  json_marshal = λ r. [];
  read_private_key = λ path. not_exist;
  existing_key = λ cfg. ok none;
  generate_keys = λ cfg. ok none;
}

abbrev first_load : Reload
first_load = record { read = ok (lobby ∷ []); olds = []; news = [] }

abbrev after_load : BackendManager
after_load = add_each (lobby ∷ []) no_backends

first_loads : update outside (ok (lobby ∷ [])) [] [] no_backends ≡ ok after_load
unfolding update server_to_backend_config
first_loads = refl

lobby_has : lookup (id lobby) after_load.backends ≡ some 0
unfolding add_each add_config lookup insert delete id str_eq
lobby_has = refl

Reloaded-AllOpen_example :
    All (λ c. c ≢ 0) after_load.closed
    × ((j : GoString) → lookup j after_load.backends ≡ some 0 → id lobby ≡ j)
Reloaded-AllOpen_example =
    Reloaded-AllOpen outside after_load (Reloaded.reload Reloaded.start first_load first_loads)
      (id lobby) 0 lobby_has

abbrev on_disk : ServerConfig
on_disk = record default_server_config { domains = play ∷ []; proxy_to = bytes_of ":25566" }

abbrev a_disk : Disk
a_disk = record {
  read_file = λ path. ok [];
  unmarshal = λ bb cfg. ok on_disk;
  ext = λ path. bytes_of ".json";
}

abbrev one_file : List Visit
one_file =
    visit (bytes_of "/etc") (bytes_of "etc") true
    ∷ visit (bytes_of "/etc/a.json") (bytes_of "a.json") false
    ∷ []

abbrev read_config : ServerConfig
read_config = record on_disk { file_path = bytes_of "/etc/a.json" }

verified : verify_configs (read_config ∷ []) ≡ []
unfolding default_server_config
verified = (verify_configs_iff (read_config ∷ [])).1 (((tt, tt)), (((λ e. cc), (λ e. cc)), tt))

one_read : read_server_configs a_disk one_file ≡ ok (read_config ∷ [])
unfolding read_server_configs walk is_server_file load_each load_server_cfg_from_path str_eq
one_read = refl

is_read : read a_disk one_file ≡ ok (read_config ∷ [])
unfolding read
is_read = rw (one_read, verified) refl

read_accepts_example :
    ((walk a_disk one_file []).1 ≡ none)
    × (map path_of (read_config ∷ []) ≡ (walk a_disk one_file []).0)
    × NoRepeat (all_domains (read_config ∷ []))
    × All IsUsable (read_config ∷ [])
read_accepts_example = read_accepts a_disk one_file (read_config ∷ []) is_read

both_verified : verify_configs (lobby ∷ read_config ∷ []) ≡ []
unfolding default_server_config
both_verified =
    (verify_configs_iff (lobby ∷ read_config ∷ [])).1
      (((λ e. cc, tt), (tt, tt)), ((λ e. cc, λ e. cc), ((λ e. cc, λ e. cc), tt)))

both_plain : All (λ c. c.new_real_ip ≡ false) (lobby ∷ read_config ∷ [])
unfolding default_server_config
both_plain = (refl, (refl, tt))

start-routes_example :
    (m : BackendManager) × (start outside
        (ok default_ultraviolet_config)
        (ok default_ultraviolet_config)
        (ok (lobby ∷ read_config ∷ []))
      ≡ ok m)
    × ((d : GoString)
        → contains d read_config.domains ≡ true
        → (lookup d m.worker_manager.server_dict ≡ some 1)
          × (map (finds d m.worker_manager) m.worker_manager.workers
              ≡ replicate (worker_count (ok default_ultraviolet_config)) (some 1)))
start-routes_example =
    start-routes outside default_ultraviolet_config (ok default_ultraviolet_config) (lobby ∷ [])
      read_config [] (λ e. cc) both_verified both_plain
