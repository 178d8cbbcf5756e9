-- ===== src/Backend/Server/Cached.antt =====
-- worker/backend.go: BackendServer in front of a worker that caches its status.
use ipojknm.Prelude.{true, Option, none, some, ◌≡◌, refl, arith}
use ipojknm.Errors.{GoError, no_server_conn, Outcome, ok, err, fault, continue, is_ok}
use ipojknm.Mc.Packet.{Packet}
use ipojknm.Mc.Handshake.{status}
use ipojknm.Core.{RequestData, ServerAction, ServerState, unknown, online, offline}
use ipojknm.Agents.{StateAgent, agent_state, StatusCache, Dial, cached_status}
use ipojknm.Agents.Cache.{cached_status-is_ok}
use ipojknm.Backend.{
  send_status, BackendWorker, Env, Handled, handle_request, answer_cached, answer_status,
  answer_offline, ask_agent, new_status_answer,
}
use ipojknm.Backend.Server.{
  named, work_request, status_request, server_handle, action_of, conn_action, connect, create_conn,
}

abbrev pub HasCache : BackendWorker → Type 0
HasCache w = (cache : StatusCache) × (w.status_cache ≡ some cache)

-- The call returned a status, and the worker has a cache.
abbrev SaysStatus : Handled → Type 0
SaysStatus (ok (ans, w)) = (ans.action ≡ send_status) × HasCache w
SaysStatus (err e) = ⊥
SaysStatus fault = ⊥

says_cached :
    (w : BackendWorker) (o : Outcome ((Packet × Option GoError) × StatusCache))
    → is_ok o ≡ true
    → SaysStatus (continue o (answer_cached w))
unfolding answer_cached new_status_answer
says_cached w (ok ((pk, none), cache)) e = (refl, (cache, refl))
says_cached w (ok ((pk, some x), cache)) e = (refl, (cache, refl))
says_cached w (err x) e = cc
says_cached w fault e = cc

answer_status-cached :
    (env : Env) (w : BackendWorker) (cache : StatusCache) (o : Option StatusCache)
    → o ≡ some cache
    → SaysStatus (answer_status env status_request w status o)
unfolding answer_status
answer_status-cached env w cache none c = cc
answer_status-cached env w cache (some cache') c =
    says_cached w (cached_status env.cache_clock env.exchange cache')
      (cached_status-is_ok env.cache_clock env.exchange cache')

answer_offline-cached :
    (env : Env) (w : BackendWorker) (cache : StatusCache) (s : ServerState)
    → w.status_cache ≡ some cache
    → SaysStatus (answer_offline env status_request w s status)
unfolding answer_offline
answer_offline-cached env w cache offline c = unfold new_status_answer in (refl, (cache, c))
answer_offline-cached env w cache online c = answer_status-cached env w cache w.status_cache c
answer_offline-cached env w cache unknown c = answer_status-cached env w cache w.status_cache c

-- A worker with a status cache answers every request that a BackendServer sends with a status.
ask_agent-cached :
    (env : Env) (w : BackendWorker) (cache : StatusCache) (o : Option StateAgent)
    → w.status_cache ≡ some cache
    → SaysStatus (ask_agent env status_request w o)
unfolding ask_agent
ask_agent-cached env w cache none c = answer_status-cached env w cache w.status_cache c
ask_agent-cached env w cache (some agent) c =
    let (s, agent') = agent_state env.agent_clock env.agent_dial agent in
    answer_offline-cached env (record w { server_state = some agent' }) cache s c

refused :
    (dial : Dial) (header : Option GoError) (h : Handled)
    → SaysStatus h
    → continue (continue h named) (λ p. connect dial header p.0.action p.0.server_conn_func)
      ≡ err no_server_conn
unfolding named connect
refused dial header (ok (ans, w)) e = ground (arith, e.0)
refused dial header (err x) e = absurd e
refused dial header fault e = absurd e

proxied :
    (h : Handled)
    → SaysStatus h
    → (w' : BackendWorker) × (continue {B = ServerAction × BackendWorker}
          (continue h named)
          (λ p. ok (action_of p.0.action, p.1))
        ≡ ok (ServerAction.proxy, w'))
      × HasCache w'
unfolding named action_of
proxied (ok (ans, w)) e = (w, ground (arith, e.0), e.1)
proxied (err x) e = absurd e
proxied fault e = absurd e

-- Through a BackendServer nobody is connected to a backend that caches its status: for every
-- request, login or not, CreateConn fails with ErrNoServerConn without a dial, while ConnAction
-- says that the connection is to be proxied, and the worker has a cache still.
pub create_conn_cached :
    (env : Env) (dial : Dial) (header : Option GoError) (req : RequestData) (w : BackendWorker)
    → HasCache w
    → (create_conn env dial header req w ≡ err no_server_conn)
      × ((w' : BackendWorker) × (conn_action env req w ≡ ok (ServerAction.proxy, w')) × HasCache w')
unfolding create_conn conn_action server_handle work_request handle_request
create_conn_cached env dial header req w (cache, c) =
    let h = ask_agent-cached env w cache w.server_state c in
    (
      refused dial header (ask_agent env status_request w w.server_state) h,
      proxied (ask_agent env status_request w w.server_state) h,
    )
