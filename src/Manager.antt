-- ===== src/Manager.antt =====
-- worker/worker_manager.go and worker/backend_manager.go: which backend each domain is routed to. A
-- backend is the number of its instance, in the order in which the factory made them; that number
-- stands also for the core.Server that sends to it. A map is walked in the order of a list that is
-- an argument, since Go leaves that order open.
pub mod Routes
pub mod Reload
pub mod Spec
pub mod Stale
pub mod Open
pub mod Start
pub mod Removal
pub mod Intake
use ipojknm.Prelude.{
  ℕ_discrete, ◌≡◌, ◌||◌, Bool, true, false, ℕ, Option, none, some, ◌+◌, ◌*◌, List, [], ◌∷◌, ◌++◌,
  if◌then◌else◌, ◌==◌,
}
use ipojknm.Prelude.Text.{GoString, str_eq, to_lower}
use ipojknm.Prelude.Table.{Table, lookup, insert, delete}
use ipojknm.Limiter.{is_some}
use ipojknm.Config.{ServerConfig, id, no_config}
use ipojknm.Config.Convert.{Outside, server_to_backend_config}
use ipojknm.Errors.{Outcome, ok, err, fault, continue}
use mathlib.Core.Logic.{ite}
use mathlib.Core.List.{foldl}

-- workerManager. The catalog's map is shared by reference with every worker that was given it:
-- `workers` says of each whether it was.
pub record WorkerManager : Type 0 where
  pub server_dict : Table ℕ
  pub workers : List Bool

-- `for _, domain := range domains { dict[domain] = server }`, and with delete
unfoldable pub insert_each {ℓ} : {V : Type ℓ} → List GoString → V → Table V → Table V
insert_each [] v m = m
insert_each (d ∷ ds) v m = insert_each ds v (insert d v m)

unfoldable pub delete_each {ℓ} : {V : Type ℓ} → List GoString → Table V → Table V
delete_each [] m = m
delete_each (d ∷ ds) m = delete_each ds (delete d m)

-- workerManager.update: every worker gets the catalog.
update_workers : List Bool → List Bool
update_workers [] = []
update_workers (w ∷ ws) = true ∷ update_workers ws

-- AddBackend, RemoveBackend, Register, KnowsDomain
unfoldable pub add_backend : List GoString → ℕ → WorkerManager → WorkerManager
unfolding update_workers
add_backend domains server m = record {
  server_dict = insert_each domains server m.server_dict;
  workers = update_workers m.workers;
}

unfoldable pub remove_backend : List GoString → WorkerManager → WorkerManager
unfolding update_workers
remove_backend domains m = record {
  server_dict = delete_each domains m.server_dict;
  workers = update_workers m.workers;
}

unfoldable pub register : Bool → WorkerManager → WorkerManager
register update m = record m { workers = m.workers ++ update ∷ [] }

unfoldable pub knows_domain : GoString → WorkerManager → Bool
knows_domain domain m = is_some (lookup (to_lower domain) m.server_dict)

-- BackendManager with the worker manager it calls, the number of backends made so far, those that
-- were closed, and the configs sent to running backends.
pub record BackendManager : Type 0 where
  pub backends : Table ℕ
  pub domains : Table GoString
  pub cfgs : Table ServerConfig
  pub worker_manager : WorkerManager
  pub made : ℕ
  pub closed : List ℕ
  pub updates : List (ℕ × ServerConfig)

-- addConfig
unfoldable pub add_config : ServerConfig → BackendManager → BackendManager
add_config cfg m = record m {
  cfgs = insert (id cfg) cfg m.cfgs;
  domains = insert_each cfg.domains (id cfg) m.domains;
  backends = insert (id cfg) m.made m.backends;
  made = m.made + 1;
  worker_manager = add_backend cfg.domains m.made m.worker_manager;
}

-- removeConfig
unfoldable pub remove_config : ServerConfig → BackendManager → BackendManager
remove_config cfg m = elim (lookup (id cfg) m.backends) [
  | none ↦ m
  | some server ↦ record m {
    cfgs = delete (id cfg) m.cfgs;
    domains = delete_each cfg.domains m.domains;
    worker_manager = remove_backend cfg.domains m.worker_manager;
    closed = server ∷ m.closed;
    backends = delete (id cfg) m.backends;
  }
]

unfoldable pub count : GoString → List GoString → ℕ
count d [] = 0
count d (e ∷ es) = let n = count d es in if str_eq d e then n + 1 else n

-- The value of `domainStatus[d]`: one for each time the new config names d, two for each time the
-- old one does.
unfoldable pub domain_status : ServerConfig → ServerConfig → GoString → ℕ
unfolding count
domain_status cfg old d = count d cfg.domains + 2 * count d old.domains

-- The keys whose status is `v`, in the order of the keys.
unfoldable pub with_status : ℕ → ServerConfig → ServerConfig → List GoString → List GoString
unfolding domain_status
with_status v cfg old [] = []
with_status v cfg old (d ∷ ds) =
    let rest = with_status v cfg old ds in if domain_status cfg old d == v then d ∷ rest else rest

-- What updateConfig does once the configs differ; `keys` are the keys of domainStatus, in the order
-- of the walk, and `b` is the backend, which a nil interface would make panic. The config that
-- `cfgs` holds stays the old one.
change_config : List GoString → ServerConfig → ServerConfig → ℕ → BackendManager → BackendManager
change_config keys cfg old b m =
    let added = with_status 1 cfg old keys in
    let removed = with_status 2 cfg old keys in
    record m {
      domains = delete_each removed (insert_each added (id cfg) m.domains);
      worker_manager = remove_backend removed (add_backend added b m.worker_manager);
      updates = (b, cfg) ∷ m.updates;
    }

-- The keys of domainStatus in one order: those of the new config, then those only the old one has.
keys_of : List GoString → List GoString → List GoString
keys_of seen [] = []
keys_of seen (d ∷ ds) =
    let rest = keys_of (d ∷ seen) ds in if count d seen == 0 then d ∷ rest else rest

-- reflect.DeepEqual on two configs
unfoldable pub ServerConfig-discrete : Discrete ServerConfig
ServerConfig-discrete = hlevel ℕ_discrete

-- The zero value that a map gives for a missing key.
abbrev old_config : Option ServerConfig → ServerConfig
old_config none = no_config
old_config (some cfg) = cfg

on_backend : (ℕ → BackendManager) → Option ℕ → Outcome BackendManager
on_backend f none = fault
on_backend f (some b) = ok (f b)

-- The early return of updateConfig, and the rest of it.
change_or_keep :
    (cfg old : ServerConfig) → Dec (cfg ≡ old) → Option ℕ → BackendManager → Outcome BackendManager
unfolding on_backend change_config keys_of
change_or_keep cfg old (yes same) b m = ok m
change_or_keep cfg old (no differ) b m =
    on_backend (λ server. change_config (keys_of [] (cfg.domains ++ old.domains)) cfg old server m)
      b

-- updateConfig
unfoldable pub update_config : ServerConfig → BackendManager → Outcome BackendManager
unfolding change_or_keep
update_config cfg m =
    let old = old_config (lookup (id cfg) m.cfgs) in
    change_or_keep cfg old (ServerConfig-discrete cfg old) (lookup (id cfg) m.backends) m

-- newCfgs[cfg.ID()] = cfg for each, and the test whether an ID is among the keys
unfoldable pub has_id : GoString → List ServerConfig → Bool
has_id i [] = false
has_id i (cfg ∷ cfgs) = str_eq (id cfg) i || has_id i cfgs

-- The first walk of loadAllConfigs, over the configs that were loaded: those that are gone.
unfoldable pub remove_gone : List ServerConfig → List ServerConfig → BackendManager → BackendManager
remove_gone olds news m =
    foldl (λ m' old. if has_id (id old) news then m' else remove_config old m') m olds

add_or_update : ServerConfig → BackendManager → Outcome BackendManager
add_or_update cfg m =
    if is_some (lookup (id cfg) m.cfgs) then update_config cfg m else ok (add_config cfg m)

-- The second walk, over the new configs.
unfoldable pub load_each : List ServerConfig → BackendManager → Outcome BackendManager
unfolding add_or_update
load_each [] m = ok m
load_each (cfg ∷ cfgs) m = continue (add_or_update cfg m) (load_each cfgs)

-- loadAllConfigs: `olds` are the entries of manager.cfgs and `news` those of newCfgs, each in the
-- order of its walk.
unfoldable pub load_all_configs :
    List ServerConfig → List ServerConfig → BackendManager → Outcome BackendManager
load_all_configs olds news m = load_each news (remove_gone olds news m)

-- The first load, where no config is there yet: the configs in the order of the reader.
unfoldable pub add_each : List ServerConfig → BackendManager → BackendManager
add_each [] m = m
add_each (cfg ∷ cfgs) m = add_each cfgs (add_config cfg m)

-- `for _, newCfg := range newCfgs { _, err := config.ServerToBackendConfig(newCfg) … }`
convert_each : Outside → List ServerConfig → Outcome (Unit {0})
convert_each out [] = ok tt
convert_each out (cfg ∷ cfgs) =
    continue (server_to_backend_config out cfg) (λ _. convert_each out cfgs)

-- `if len(manager.cfgs) == 0`
load :
    Table ServerConfig
    → List ServerConfig
    → List ServerConfig
    → List ServerConfig
    → BackendManager
    → Outcome BackendManager
load [] cfgs olds news m = ok (add_each cfgs m)
load (c ∷ cs) cfgs olds news m = load_all_configs olds news m

-- BackendManager.Update: `read` is what the config reader gives.
unfoldable pub update :
    Outside
    → Outcome (List ServerConfig)
    → List ServerConfig
    → List ServerConfig
    → BackendManager
    → Outcome BackendManager
unfolding convert_each load
update out read olds news m =
    continue read (λ cfgs. continue (convert_each out cfgs) (λ _. load m.cfgs cfgs olds news m))

-- NewWorkerManager: a catalog without servers, and no workers.
abbrev pub new_worker_manager : WorkerManager
new_worker_manager = record { server_dict = []; workers = [] }

-- NewBackendManager, before its first Update
abbrev pub no_backends : BackendManager
no_backends = record {
  backends = [];
  domains = [];
  cfgs = [];
  worker_manager = new_worker_manager;
  made = 0;
  closed = [];
  updates = [];
}
