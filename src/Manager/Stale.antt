-- ===== src/Manager/Stale.antt =====
-- worker/backend_manager.go: a domain that an update has added, once its config is removed.
use ipojknm.Prelude.{
  true, false, ℕ, some, ◌≡◌, ◌≢◌, refl, ◌∙◌, ap, List, [], ◌∷◌, ◌++◌, if◌then◌else◌, ◌==◌, inl, inr,
  arith, Bool-cases,
}
use ipojknm.Prelude.Text.{GoString, str_eq_iff, str_eq_self}
use ipojknm.Prelude.Table.{lookup}
use ipojknm.Errors.{ok}
use ipojknm.Config.{ServerConfig, id}
use ipojknm.Manager.{
  BackendManager, update_config, change_or_keep, on_backend, change_config, old_config,
  remove_config, with_status, domain_status, count, keys_of, insert_each, delete_each, add_backend,
  remove_backend, ServerConfig-discrete,
}
use ipojknm.Manager.Routes.{contains, lookup-insert_each, lookup-delete_each}

contains-with_status :
    (v : ℕ) (cfg old : ServerConfig) (d : GoString) (keys : List GoString)
    → contains d (with_status v cfg old keys)
      ≡ (if domain_status cfg old d == v then contains d keys else false)
unfolding with_status
contains-with_status v cfg old d [] = ground arith
contains-with_status v cfg old d (k ∷ keys) =
    ground (arith, contains-with_status v cfg old d keys, str_eq_iff k d)

-- keys_of loses no name.
contains-keys_of :
    (d : GoString) (seen ds : List GoString)
    → contains d ds ≡ true
    → count d seen ≡ 0
    → contains d (keys_of seen ds) ≡ true
unfolding keys_of count
contains-keys_of d seen [] h fresh = h
contains-keys_of d seen (e ∷ ds) h fresh =
    ground (arith, str_eq_iff e d, str_eq_iff d e, contains-keys_of d (e ∷ seen) ds, str_eq_self d)

count_absent : (d : GoString) (ds : List GoString) → contains d ds ≡ false → count d ds ≡ 0
unfolding count
count_absent d [] h = refl
count_absent d (e ∷ ds) h = ground (arith, str_eq_iff d e, str_eq_self d, count_absent d ds)

contains_counted : (d : GoString) (ds : List GoString) → count d ds ≡ 1 → contains d ds ≡ true
contains_counted d ds h = elim (Bool-cases (contains d ds)) [
  | inl yes_there ↦ yes_there
  | inr absent ↦ absurd (let gone : count d ds ≡ 0 = count_absent d ds absent in omega arith)
]

contains-append :
    (d : GoString) (ds es : List GoString) → contains d ds ≡ true → contains d (ds ++ es) ≡ true
contains-append d [] es h = cc
contains-append d (e ∷ ds) es h = ground (arith, contains-append d ds es)

changed :
    (cfg old : ServerConfig) (same : Dec (cfg ≡ old)) (b : ℕ) (m : BackendManager)
    → cfg ≢ old
    → change_or_keep cfg old same (some b) m
      ≡ ok (change_config (keys_of [] (cfg.domains ++ old.domains)) cfg old b m)
unfolding change_or_keep on_backend
changed cfg old (yes p) b m differ = absurd (differ p)
changed cfg old (no n) b m differ = refl

module _ (old cfg : ServerConfig) (m : BackendManager) (d : GoString) (b : ℕ)
    (one : count d cfg.domains ≡ 1) (absent : contains d old.domains ≡ false) where
  abbrev keys : List GoString
  keys = keys_of [] (cfg.domains ++ old.domains)

  new_status : domain_status cfg old d ≡ 1
  unfolding domain_status
  new_status = omega (arith, one, count_absent d old.domains absent)

  is_added : contains d (with_status 1 cfg old keys) ≡ true
  is_added =
      contains-with_status 1 cfg old d keys
      ∙ rw new_status (
          contains-keys_of d [] (cfg.domains ++ old.domains)
            (contains-append d cfg.domains old.domains (contains_counted d cfg.domains one))
            (unfold count in refl))

  not_removed : contains d (with_status 2 cfg old keys) ≡ false
  not_removed = contains-with_status 2 cfg old d keys ∙ rw new_status refl

  configs_differ : cfg ≢ old
  configs_differ e =
      let gone : count d cfg.domains ≡ 0 = rw e (count_absent d old.domains absent) in
      omega (arith, one)

  routed_to : lookup d (change_config keys cfg old b m).worker_manager.server_dict ≡ some b
  unfolding change_config add_backend remove_backend
  routed_to =
      lookup-delete_each d (with_status 2 cfg old keys)
        (insert_each (with_status 1 cfg old keys) b m.worker_manager.server_dict)
      ∙ rw not_removed (
          lookup-insert_each d (with_status 1 cfg old keys) b m.worker_manager.server_dict
          ∙ rw is_added refl)

-- removeConfig of a config that has a backend.
removed :
    (cfg : ServerConfig) (m : BackendManager) (d : GoString) (b : ℕ)
    → lookup (id cfg) m.backends ≡ some b
    → ((remove_config cfg m).worker_manager.server_dict
        ≡ delete_each cfg.domains m.worker_manager.server_dict)
      × ((remove_config cfg m).closed ≡ b ∷ m.closed)
unfolding remove_config remove_backend
removed cfg m d b made = (rw (made, remove_config) refl, rw (made, remove_config) refl)

-- A domain that updateConfig has added is never taken back: the manager still holds the old config,
-- and where its file goes removeConfig takes away the domains of that one alone. The backend is then
-- closed, and the domain is routed to it still.
pub remove_config_stale :
    (old cfg : ServerConfig) (m : BackendManager) (d : GoString) (b : ℕ)
    → lookup (id cfg) m.cfgs ≡ some old
    → id old ≡ id cfg
    → lookup (id cfg) m.backends ≡ some b
    → count d cfg.domains ≡ 1
    → contains d old.domains ≡ false
    → (m' : BackendManager) × (update_config cfg m ≡ ok m')
      × (lookup (id cfg) m'.cfgs ≡ some old)
      × (lookup d (remove_config old m').worker_manager.server_dict ≡ some b)
      × ((remove_config old m').closed ≡ b ∷ m.closed)
unfolding update_config change_config
remove_config_stale old cfg m d b known same_id made one absent =
    let m' : BackendManager = change_config (keys_of [] (cfg.domains ++ old.domains)) cfg old b m in
    let there : lookup (id old) m'.backends ≡ some b = rw same_id made in
    let gone = removed old m' d b there in
    (
      m',
      updated,
      known,
      ap (lookup d) gone.0
          ∙ (lookup-delete_each d old.domains m'.worker_manager.server_dict
              ∙ rw absent (routed_to old cfg m d b one absent)),
      gone.1,
    )
  where
    updated :
        update_config cfg m
        ≡ ok (change_config (keys_of [] (cfg.domains ++ old.domains)) cfg old b m)
    updated =
        rw (update_config, known, made, old_config)
          (changed cfg old (ServerConfig-discrete cfg old) b m
            (configs_differ old cfg m d b one absent))
