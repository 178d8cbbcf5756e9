-- ===== src/Manager/Routes.antt =====
-- Where a domain is routed after AddBackend, RemoveBackend and the first load.
use ipojknm.Prelude.{
  ◌≢◌, Bool-cases, inl, inr, Bool, true, false, none, some, ◌+◌, ◌≡◌, refl, ◌∙◌, List, [], ◌∷◌,
  ◌++◌, if◌then◌else◌, ◌||◌, arith, All, length, ap,
}
use ipojknm.Prelude.Text.{GoString, to_lower, str_eq_iff, str_eq}
use ipojknm.Prelude.Table.{Table, lookup, insert, delete, lookup-insert, lookup-delete}
use ipojknm.Config.{ServerConfig}
use ipojknm.Manager.{insert_each, delete_each, BackendManager, add_config, add_each, add_backend}

abbrev pub contains : GoString → List GoString → Bool
contains k [] = false
contains k (d ∷ ds) = str_eq d k || contains k ds

module _ {ℓ} {V : Type ℓ} where
  pub lookup-insert_each :
      (k : GoString) (ds : List GoString) (v : V) (m : Table V)
      → lookup k (insert_each ds v m) ≡ (if contains k ds then some v else lookup k m)
  unfolding insert_each
  lookup-insert_each k [] v m = refl
  lookup-insert_each k (d ∷ ds) v m =
      ground (arith, lookup-insert_each k ds v (insert d v m), lookup-insert d k v m)

  pub lookup-delete_each :
      (k : GoString) (ds : List GoString) (m : Table V)
      → lookup k (delete_each ds m) ≡ (if contains k ds then none else lookup k m)
  unfolding delete_each
  lookup-delete_each k [] m = refl
  lookup-delete_each k (d ∷ ds) m =
      ground (arith, lookup-delete_each k ds (delete d m), lookup-delete d k m)

later_keep :
    (d : GoString) (cfgs : List ServerConfig) (m : BackendManager)
    → All (λ other. contains d other.domains ≡ false) cfgs
    → lookup d (add_each cfgs m).worker_manager.server_dict ≡ lookup d m.worker_manager.server_dict
unfolding add_each add_config add_backend
later_keep d [] m h = refl
later_keep d (cfg ∷ cfgs) m h =
    later_keep d cfgs (add_config cfg m) h.1
    ∙ (lookup-insert_each d cfg.domains m.made m.worker_manager.server_dict ∙ rw h.0)

-- The first load routes a domain to the backend of the last config that names it: where `cfg` names
-- d and no config after it does, d goes to the backend that was made for `cfg`, whose number is that
-- of the backends before it.
pub add_each-routes :
    (d : GoString) (earlier : List ServerConfig) (cfg : ServerConfig) (later : List ServerConfig)
    (m : BackendManager)
    → contains d cfg.domains ≡ true
    → All (λ other. contains d other.domains ≡ false) later
    → lookup d (add_each (earlier ++ cfg ∷ later) m).worker_manager.server_dict
      ≡ some (m.made + length earlier)
unfolding add_each add_config add_backend
add_each-routes d [] cfg later m h none_later =
    later_keep d later (add_config cfg m) none_later
    ∙ (lookup-insert_each d cfg.domains m.made m.worker_manager.server_dict
        ∙ rw h (ap some (omega arith)))
add_each-routes d (c ∷ earlier) cfg later m h none_later =
    add_each-routes d earlier cfg later (add_config c m) h none_later ∙ ap some (omega arith)

-- No key in lower case is among domains that have a letter in upper case.
pub contains_upper :
    (k : GoString) (ds : List GoString)
    → to_lower k ≡ k
    → All (λ d. to_lower d ≢ d) ds
    → contains k ds ≡ false
contains_upper k [] low h = refl
contains_upper k (d ∷ ds) low h = elim (Bool-cases (str_eq d k)) [
  | inl same ↦ absurd (h.0 (rw ((str_eq_iff d k).0 same) low))
  | inr other ↦ rw (other, contains_upper k ds low h.1)
]
