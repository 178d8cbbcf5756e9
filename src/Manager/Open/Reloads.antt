-- ===== src/Manager/Open/Reloads.antt =====
-- worker/backend_manager.go: the backends by their IDs over a row of reloads.
use mathlib.Core.Path.{subst}
use ipojknm.Prelude.{
  Bool, true, false, ℕ, Option, none, some, ◌≡◌, ◌≢◌, List, [], ◌∷◌, if◌then◌else◌, inl, inr,
  Bool-cases, Option-cases, All,
}
use ipojknm.Prelude.Text.{GoString}
use ipojknm.Prelude.Table.{Table, lookup}
use ipojknm.Limiter.{is_some}
use ipojknm.Errors.{Outcome, ok, err, fault, continue}
use ipojknm.Config.{ServerConfig, id}
use ipojknm.Config.Convert.{Outside}
use ipojknm.Manager.{
  BackendManager, add_config, remove_config, change_or_keep, on_backend, change_config,
  update_config, add_or_update, load_each, remove_gone, load_all_configs, add_each, convert_each,
  load, update, has_id, no_backends,
}
use ipojknm.Manager.Open.{AllOpen, insert-AllOpen, delete-AllOpen}

abbrev pub IsRunning : BackendManager → Type 0
IsRunning m = AllOpen m.backends m.made m.closed

-- The same for what a call gives, if it gives a manager.
abbrev RunningAfter : Outcome BackendManager → Type 0
RunningAfter (ok m) = IsRunning m
RunningAfter _ = Unit {0}

add_config-IsRunning :
    (cfg : ServerConfig) (m : BackendManager) → IsRunning m → IsRunning (add_config cfg m)
unfolding add_config
add_config-IsRunning cfg m s = insert-AllOpen (id cfg) m.backends m.made m.closed s

remove_config-IsRunning :
    (cfg : ServerConfig) (m : BackendManager) → IsRunning m → IsRunning (remove_config cfg m)
unfolding remove_config
remove_config-IsRunning cfg m s = elim (Option-cases (lookup (id cfg) m.backends)) [
  | inl e ↦ rw (e, remove_config) s
  | inr (v, e) ↦ rw (e, remove_config) (delete-AllOpen (id cfg) v m.backends m.made m.closed e s)
]

change_or_keep-RunningAfter :
    (cfg old : ServerConfig) (same : Dec (cfg ≡ old)) (b : Option ℕ) (m : BackendManager)
    → IsRunning m
    → RunningAfter (change_or_keep cfg old same b m)
unfolding change_or_keep on_backend change_config
change_or_keep-RunningAfter cfg old (yes p) b m s = s
change_or_keep-RunningAfter cfg old (no n) none m s = tt
change_or_keep-RunningAfter cfg old (no n) (some b) m s = s

add_or_update-RunningAfter :
    (cfg : ServerConfig) (m : BackendManager) → IsRunning m → RunningAfter (add_or_update cfg m)
unfolding add_or_update update_config
add_or_update-RunningAfter cfg m s = elim (Bool-cases (is_some (lookup (id cfg) m.cfgs))) [
  | inl e ↦ rw e (change_or_keep-RunningAfter cfg _ _ (lookup (id cfg) m.backends) m s)
  | inr e ↦ rw e (add_config-IsRunning cfg m s)
]

continue-RunningAfter :
    (o : Outcome BackendManager) (f : BackendManager → Outcome BackendManager)
    → RunningAfter o
    → ((m : BackendManager) → IsRunning m → RunningAfter (f m))
    → RunningAfter (continue o f)
continue-RunningAfter (ok m) f s h = h m s
continue-RunningAfter (err e) f s h = tt
continue-RunningAfter fault f s h = tt

load_each-RunningAfter :
    (cfgs : List ServerConfig) (m : BackendManager) → IsRunning m → RunningAfter (load_each cfgs m)
unfolding load_each
load_each-RunningAfter [] m s = s
load_each-RunningAfter (cfg ∷ cfgs) m s =
    continue-RunningAfter (add_or_update cfg m) (load_each cfgs)
      (add_or_update-RunningAfter cfg m s) (load_each-RunningAfter cfgs)

remove_gone-IsRunning :
    (olds news : List ServerConfig) (m : BackendManager)
    → IsRunning m
    → IsRunning (remove_gone olds news m)
unfolding remove_gone
remove_gone-IsRunning [] news m s = s
remove_gone-IsRunning (old ∷ olds) news m s =
    remove_gone-IsRunning olds news _ (kept_or_removed (has_id (id old) news))
  where
    kept_or_removed : (kept : Bool) → IsRunning (if kept then m else remove_config old m)
    kept_or_removed true = s
    kept_or_removed false = remove_config-IsRunning old m s

add_each-IsRunning :
    (cfgs : List ServerConfig) (m : BackendManager) → IsRunning m → IsRunning (add_each cfgs m)
unfolding add_each
add_each-IsRunning [] m s = s
add_each-IsRunning (cfg ∷ cfgs) m s =
    add_each-IsRunning cfgs (add_config cfg m) (add_config-IsRunning cfg m s)

load-RunningAfter :
    (t : Table ServerConfig) (cfgs olds news : List ServerConfig) (m : BackendManager)
    → IsRunning m
    → RunningAfter (load t cfgs olds news m)
unfolding load load_all_configs
load-RunningAfter [] cfgs olds news m s = add_each-IsRunning cfgs m s
load-RunningAfter (c ∷ cs) cfgs olds news m s =
    load_each-RunningAfter news (remove_gone olds news m) (remove_gone-IsRunning olds news m s)

update-RunningAfter :
    (out : Outside) (read : Outcome (List ServerConfig)) (olds news : List ServerConfig)
    (m : BackendManager)
    → IsRunning m
    → RunningAfter (update out read olds news m)
unfolding update
update-RunningAfter out (err e) olds news m s = tt
update-RunningAfter out fault olds news m s = tt
update-RunningAfter out (ok cfgs) olds news m s = converted (convert_each out cfgs)
  where
    converted :
        (o : Outcome (Unit {0})) → RunningAfter (continue o (λ _. load m.cfgs cfgs olds news m))
    converted (ok _) = load-RunningAfter m.cfgs cfgs olds news m s
    converted (err e) = tt
    converted fault = tt

-- One reload: what the reader gives, and the orders of the two walks.
pub record Reload : Type 0 where
  pub read : Outcome (List ServerConfig)
  pub olds : List ServerConfig
  pub news : List ServerConfig

-- A row of reloads, where one that gives an error leaves the manager as it was before it.
pub data Reloaded (out : Outside) (m : BackendManager) : BackendManager → Type 0 where
  start : Reloaded out m m
  reload :
      {m' m'' : BackendManager}
      → Reloaded out m m'
      → (r : Reload) → update out r.read r.olds r.news m' ≡ ok m''
      → Reloaded out m m''

Reloaded-IsRunning :
    (out : Outside) {m m' : BackendManager} → IsRunning m → Reloaded out m m' → IsRunning m'
Reloaded-IsRunning out s start = s
Reloaded-IsRunning out s (reload before r e) =
    subst RunningAfter e
      (update-RunningAfter out r.read r.olds r.news _ (Reloaded-IsRunning out s before))

no_backends-IsRunning : IsRunning no_backends
unfolding lookup
no_backends-IsRunning = record {
  was_made = λ k b e. cc;
  is_open = λ k b e. tt;
  own = λ k j b e e'. cc;
  past = tt;
}

-- After any row of reloads, whatever they read and in whatever order the maps are walked, the backend
-- that the manager holds under an ID has not been closed, and no other ID has it.
pub Reloaded-AllOpen :
    (out : Outside) (m : BackendManager)
    → Reloaded out no_backends m
    → (k : GoString) (b : ℕ) → lookup k m.backends ≡ some b
    → All (λ c. c ≢ b) m.closed × ((j : GoString) → lookup j m.backends ≡ some b → k ≡ j)
Reloaded-AllOpen out m r k b e =
    let s = Reloaded-IsRunning out no_backends-IsRunning r in
    (s.is_open k b e, λ j e'. s.own k j b e e')
