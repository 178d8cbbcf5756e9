-- ===== src/Manager/Start.antt =====
-- worker/run.go and worker/api.go: how the manager is started and reloaded, and worker_manager.go's
-- Start. `uv` is what a call of the reader of the main config gives.
pub mod Routes
use ipojknm.Prelude.{
  Bool, true, false, ℕ, zero, suc, ◌^◌, Option, none, some, List, [], ◌∷◌, leb, if◌then◌else◌,
}
use ipojknm.Prelude.Text.{GoString}
use ipojknm.Prelude.Table.{Table}
use ipojknm.Errors.{GoError, Outcome, ok, err, fault, continue}
use ipojknm.Config.{ServerConfig}
use ipojknm.Config.Convert.{Outside}
use ipojknm.Config.Ultraviolet.{UltravioletConfig}
use ipojknm.Backend.{BackendWorker}
use ipojknm.Backend.Settings.{has_active_conn}
use ipojknm.Manager.{WorkerManager, BackendManager, register, update, no_backends}

-- The loop of Start: each worker is registered and gets the catalog.
unfoldable pub start_workers : ℕ → WorkerManager → WorkerManager
start_workers zero m = m
start_workers (suc n) m = start_workers n (register true m)

-- `for i := 0; i < n; i++` runs so often; n is the pattern of an int.
abbrev pub rounds : ℕ → ℕ
rounds n = if leb (2 ^ 63) n then 0 else n

-- workerManager.Start
unfoldable pub start_worker_manager :
    Outcome UltravioletConfig → WorkerManager → Outcome WorkerManager
start_worker_manager uv m = continue uv (λ cfg. ok (start_workers (rounds cfg.number_of_workers) m))

-- The error of Start is dropped, and no worker runs then; a fault ends the process.
unfoldable pub started : WorkerManager → Outcome WorkerManager → Outcome WorkerManager
started m (ok m') = ok m'
started m (err e) = ok m
started m fault = fault

-- WorkerProxy.Start up to its listeners: the reader of the main config is called twice.
unfoldable pub start :
    Outside
    → Outcome UltravioletConfig
    → Outcome UltravioletConfig
    → Outcome (List ServerConfig)
    → Outcome BackendManager
start out uv uv' read = continue uv (λ cfg.
    continue
      (started no_backends.worker_manager (start_worker_manager uv' no_backends.worker_manager))
      (λ workers. update out read [] [] (record no_backends { worker_manager = workers })))

-- What Start leaves running: the manager, its listeners, and the addresses of the metrics, if they
-- are wanted, and of the API.
pub record Services : Type 0 where
  pub manager : BackendManager
  pub listeners : ℕ
  pub prometheus : Option GoString
  pub api : GoString

-- WorkerProxy.Start
unfoldable pub start_services :
    Outside
    → Outcome UltravioletConfig
    → Outcome UltravioletConfig
    → Outcome (List ServerConfig)
    → Outcome Services
start_services out uv uv' read = continue uv (λ cfg. continue (start out uv uv' read) (λ m.
    ok (record {
      manager = m;
      listeners = rounds cfg.number_of_listeners;
      prometheus = if cfg.use_prometheus then some cfg.prometheus_bind else none;
      api = cfg.api_bind;
    })))

-- The status code of a reload, and the manager behind it.
unfoldable pub answered : BackendManager → Outcome BackendManager → Outcome (ℕ × BackendManager)
answered m (ok m') = ok (200, m')
answered m (err e) = ok (500, m)
answered m fault = fault

-- api.reloadHandler
unfoldable pub reload_handler :
    Outside
    → Outcome (List ServerConfig)
    → List ServerConfig
    → List ServerConfig
    → BackendManager
    → Outcome (ℕ × BackendManager)
reload_handler out read olds news m = answered m (update out read olds news m)

-- BackendManager.CheckActiveConnections: `workers` are the backends by their numbers.
unfoldable pub check_active_connections : (ℕ → BackendWorker) → Table ℕ → Bool
check_active_connections workers [] = false
check_active_connections workers ((id, b) ∷ backends) =
    let rest = check_active_connections workers backends in
    if has_active_conn (workers b) then true else rest
