-- ===== src/Ingress/Backends.antt =====
-- worker/worker.go's ProcessConnection to its end, in basic.go's ProcessServer, where the servers of
-- the catalog are the BackendServers of worker/backend.go: a server is the number of its backend, and
-- the workers behind them are the state.
pub mod Unconnected
use ipojknm.Prelude.{ℕ, Option, none, some, ◌==◌, if◌then◌else◌}
use ipojknm.Errors.{Outcome, ok, err, fault}
use ipojknm.Mc.Packet.{Packet}
use ipojknm.Core.{RequestData, ServerAction, ServerCatalog}
use ipojknm.Backend.{BackendWorker, Env}
use ipojknm.Backend.Server.{conn_action, server_status}
use ipojknm.Ingress.{process_connection}
use ipojknm.Root.Basic.{Ending, returned, crashed, process_server}
use ipojknm.Root.Client.{Client, receive}
use ipojknm.Root.Server.{Server}

abbrev pub Workers : Type 0
Workers = ℕ → BackendWorker

abbrev pub set : ℕ → BackendWorker → Workers → Workers
set b w workers j = if b == j then w else workers j

-- A panic in a worker ends the process; a call gives no error.
unfoldable pub with_worker :
    {A : Type 0} → ℕ → Workers → Outcome (A × BackendWorker) → Option (A × Workers)
with_worker b workers (ok (a, w)) = some (a, set b w workers)
with_worker b workers (err e) = none
with_worker b workers fault = none

-- The BackendServers; `env` is what the world gives to the request.
unfoldable pub backend_servers : Env → Server ℕ Workers
unfolding with_worker
backend_servers env = record {
  conn_action = λ b req workers. with_worker b workers (conn_action env req (workers b));
  status = λ b workers. with_worker b workers (server_status env (workers b));
}

process_read : Env → Workers → Outcome (ℕ × RequestData) × Client → Ending Workers
unfolding backend_servers
process_read env workers (ok (b, req), c) = process_server (backend_servers env) b req c workers
process_read env workers (err e, c) = returned (err e) c workers
process_read env workers (fault, c) = crashed

-- BasicWorker.ProcessConnection
unfoldable pub process : Env → ServerCatalog ℕ → Client → Workers → Ending Workers
unfolding process_read
process env catalog c workers =
    process_read env workers (receive (process_connection c.addr catalog) c)
