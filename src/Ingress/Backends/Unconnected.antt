-- ===== src/Ingress/Backends/Unconnected.antt =====
-- worker/worker.go and worker/backend.go: a login at a worker, from its bytes to the backend.
use ipojknm.Prelude.{
  true, ℕ, ◌+◌, ◌-◌, ◌<◌, ◌^◌, Option, some, List, ◌++◌, ◌≡◌, refl, ap, ◌∙◌, length, ==_self,
}
use ipojknm.Prelude.Text.{to_lower}
use ipojknm.Prelude.Table.{lookup}
use ipojknm.Errors.{GoError, no_server_conn, Outcome, ok, err}
use ipojknm.Mc.Packet.{marshal, concat}
use ipojknm.Mc.Handshake.{ServerBoundHandshake, login, marshal_handshake}
use ipojknm.Mc.Handshake.RoundTrip.{IsWire}
use ipojknm.Mc.Login.{ServerLoginStart, marshal_login_start}
use ipojknm.Mc.RealIp.{parse_server_address}
use ipojknm.Core.{RequestData, ServerAction, ServerCatalog}
use ipojknm.Agents.{Dial}
use ipojknm.Config.{BackendWorkerConfig}
use ipojknm.Backend.{BackendWorker, Env}
use ipojknm.Backend.Server.{conn_action, create_conn}
use ipojknm.Backend.Server.Cached.{HasCache, create_conn_cached}
use ipojknm.Backend.Settings.{new_backend_worker, new_backend_config, update_same_goroutine}
use ipojknm.Ingress.{process_connection}
use ipojknm.Ingress.Logins.{process_connection_login}
use ipojknm.Ingress.Backends.{Workers, set, with_worker, backend_servers, process_read, process}
use ipojknm.Root.Basic.{proxied, process_server, acted, respond}
use ipojknm.Root.Client.{Client, receive, consumed, unread}

-- A worker that is made from a config with cacheStatus, which is the default, has a cache.
pub new_backend_worker-HasCache :
    (now : ℕ) (cfg : BackendWorkerConfig)
    → cfg.cache_status ≡ true
    → HasCache (new_backend_worker now cfg)
unfolding new_backend_worker new_backend_config update_same_goroutine
new_backend_worker-HasCache now cfg on = rw on (_, refl)

-- ProcessServer of a server that says PROXY.
hands_over :
    (env : Env) (b : ℕ) (req : RequestData) (c : Client) (workers : Workers) (w' : BackendWorker)
    → conn_action env req (workers b) ≡ ok (ServerAction.proxy, w')
    → process_server (backend_servers env) b req c workers ≡ proxied req c (set b w' workers)
unfolding process_server acted respond backend_servers with_worker
hands_over env b req c workers w' e = rw e refl

-- A player who logs in with a handshake and a name that fit their frames, and a host that the catalog
-- has: where that backend caches its status, the
-- worker hands the open connection to a goroutine of ProxyConnection, whatever else the world gives;
-- and there CreateConn fails with ErrNoServerConn without a dial, so that nobody can play on the
-- server and the connection stays as it is.
pub process_unconnected :
    (env env' : Env) (dial : Dial) (header : Option GoError) (catalog : ServerCatalog ℕ) (b : ℕ)
    (hs : ServerBoundHandshake) (start : ServerLoginStart) (rest : List ℕ) (c : Client)
    (workers : Workers)
    → lookup (to_lower (parse_server_address hs)) catalog.server_dict ≡ some b
    → IsWire hs
    → hs.next_state ≡ 2
    → length (marshal_handshake hs).content + 1 < 2 ^ 31
    → length start.name < 2 ^ 31
    → length (marshal_login_start start).content + 1 < 2 ^ 31
    → concat c.incoming
      ≡ marshal (marshal_handshake hs) ++ (marshal (marshal_login_start start) ++ rest)
    → HasCache (workers b)
    → (req : RequestData) × (c' : Client) × (workers' : Workers) × (process env catalog c workers
        ≡ proxied req c' workers')
      × (req.username ≡ start.name)
      × (c'.closed ≡ c.closed)
      × (create_conn env' dial header req (workers' b) ≡ err no_server_conn)
unfolding process process_read receive consumed
process_unconnected env env' dial header catalog b hs start rest c workers known wire next small
      name small' sends cached =
    let req : RequestData = record {
      type = login;
      handshake = hs;
      server_addr = to_lower (parse_server_address hs);
      addr = c.addr;
      username = start.name;
    } in
    let read =
      process_connection_login c.addr catalog b hs start c.at_end rest known wire next small name
        small' in
    let (w', says, still) = (create_conn_cached env dial header req (workers b) cached).1 in
    let c' : Client = record c {
      incoming = unread (length (concat c.incoming) - length rest) c.incoming;
    } in
    let was_received : receive (process_connection c.addr catalog) c ≡ (ok (b, req), c') =
      ap (λ (o : Outcome ((ℕ × RequestData) × List ℕ)). consumed c o)
        (ap (process_connection c.addr catalog c.at_end) sends ∙ read) in
    (
      req,
      c',
      set b w' workers,
      ap (process_read env workers) (was_received) ∙ hands_over env b req c' workers w' says,
      refl,
      refl,
      rw (==_self b) (create_conn_cached env' dial header req w' still).0,
    )
