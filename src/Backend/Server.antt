-- ===== src/Backend/Server.antt =====
-- worker/backend.go: BackendServer, the face of a worker towards the connection handler, and the
-- request case of Work.
pub mod Cached
use ipojknm.Prelude.{true, Option, none, some, ◌≡◌, ◌≢◌, refl, [], arith}
use ipojknm.Prelude.Text.{GoString}
use ipojknm.Errors.{GoError, no_server_conn, Outcome, ok, err, fault, continue}
use ipojknm.Mc.Packet.{Packet, no_packet}
use ipojknm.Mc.Handshake.{status, no_handshake}
use ipojknm.Core.{RequestData, ServerAction, ServerState, unknown, online, offline}
use ipojknm.Agents.{HandshakeModifier, StateAgent, agent_state, StatusCache, Dial}
use ipojknm.Agents.Cache.{cached_status-is_ok}
use ipojknm.Limiter.{ConnLimiter, allow_conn}
use ipojknm.Backend.{
  BackendAction, error, proxy, disconnect, send_status, close, ConnFunc, run_conn_func,
  BackendAnswer, BackendWorker, Env, Handled, handle_request, answer_status, answer_offline,
  answer_limited, answer_proxy, ask_limiter, ask_agent, new_status_answer,
}
use ipojknm.Backend.Requests.{agent_says}

-- `case req := <-wrk.reqCh` of Work: the answer gets the worker's name.
unfoldable pub named : BackendAnswer × BackendWorker → Handled
named (ans, w) = ok (record ans { server_name = w.name }, w)

unfoldable pub work_request : Env → RequestData → BackendWorker → Handled
unfolding named
work_request env req w = continue (handle_request env req w) named

-- core.RequestData{Type: mc.Status}
abbrev pub status_request : RequestData
status_request = record {
  type = status;
  handshake = no_handshake;
  server_addr = [];
  addr = none;
  username = [];
}

-- The request that BackendServer.HandleRequest sends to the worker is a new one of type Status,
-- whatever request it was called with.
sent_request : RequestData → RequestData
sent_request req = status_request

-- BackendServer.HandleRequest
unfoldable pub server_handle : Env → RequestData → BackendWorker → Handled
unfolding sent_request
server_handle env req w = work_request env (sent_request req) w

-- The switch of ConnAction.
action_of : BackendAction → ServerAction
action_of disconnect = ServerAction.disconnect
action_of proxy = ServerAction.proxy
action_of close = ServerAction.close
action_of error = ServerAction.close
action_of send_status = ServerAction.proxy

-- BackendServer.ConnAction
unfoldable pub conn_action :
    Env → RequestData → BackendWorker → Outcome (ServerAction × BackendWorker)
unfolding action_of
conn_action env req w = continue (server_handle env req w) (λ p. ok (action_of p.0.action, p.1))

-- `return ans.serverConnFunc()`, which panics where there is no such function; `dial` and `header`
-- are what the two calls of it give.
call_conn_func : Dial → Option GoError → Option ConnFunc → Outcome (Option GoString)
call_conn_func dial header none = fault
call_conn_func dial header (some f) = run_conn_func dial header f

connect : Dial → Option GoError → BackendAction → Option ConnFunc → Outcome (Option GoString)
unfolding call_conn_func
connect dial header proxy f = call_conn_func dial header f
connect dial header _ f = err no_server_conn

-- BackendServer.CreateConn
unfoldable pub create_conn :
    Env → Dial → Option GoError → RequestData → BackendWorker → Outcome (Option GoString)
unfolding connect
create_conn env dial header req w =
    continue (server_handle env req w) (λ p. connect dial header p.0.action p.0.server_conn_func)

response_to : BackendAction → Packet → Packet
response_to send_status pk = pk
response_to _ pk = no_packet

-- BackendServer.Status
unfoldable pub server_status : Env → BackendWorker → Outcome (Packet × BackendWorker)
unfolding response_to
server_status env w =
    continue (server_handle env status_request w)
      (λ p. ok (response_to p.0.action p.0.first_packet, p.1))

module _ (env : Env) (m : HandshakeModifier) (target : GoString) (limiter limiter' : ConnLimiter)
    (lets : allow_conn env.limiter_clock status_request limiter ≡ ok (true, limiter')) where
  answer_limited_panics :
      (w : BackendWorker) (o : Option ConnLimiter)
      → o ≡ some limiter
      → w.hs_modifier ≡ some m
      → w.conn_creator ≡ some target
      → ask_limiter env status_request w o ≡ fault
  unfolding ask_limiter answer_proxy
  answer_limited_panics w o e em et = rw (e, ask_limiter, lets) (ground arith)

  answer_status_panics :
      (w : BackendWorker) (s : ServerState) (o : Option StatusCache)
      → s ≢ offline
      → o ≡ none
      → w.conn_limiter ≡ some limiter
      → w.hs_modifier ≡ some m
      → w.conn_creator ≡ some target
      → answer_status env status_request w status o ≡ fault
  unfolding answer_status answer_limited
  answer_status_panics w s (some cache) on ec e em et = cc
  answer_status_panics w s none on ec e em et = answer_limited_panics w w.conn_limiter e em et

  online_panics :
      (w : BackendWorker) (s : ServerState)
      → s ≢ offline
      → w.status_cache ≡ none
      → w.conn_limiter ≡ some limiter
      → w.hs_modifier ≡ some m
      → w.conn_creator ≡ some target
      → answer_offline env status_request w s status ≡ fault
  unfolding answer_offline
  online_panics w offline on ec e em et = absurd (on refl)
  online_panics w online on ec e em et = answer_status_panics w online w.status_cache on ec e em et
  online_panics w unknown on ec e em et =
      answer_status_panics w unknown w.status_cache on ec e em et

  ask_agent_panics :
      (w : BackendWorker) (o : Option StateAgent)
      → agent_says env o ≢ offline
      → w.status_cache ≡ none
      → w.conn_limiter ≡ some limiter
      → w.hs_modifier ≡ some m
      → w.conn_creator ≡ some target
      → ask_agent env status_request w o ≡ fault
  unfolding ask_agent
  ask_agent_panics w none on ec e em et =
      answer_status_panics w unknown w.status_cache on ec e em et
  ask_agent_panics w (some agent) on ec e em et =
      let (s, agent') = agent_state env.agent_clock env.agent_dial agent in
      online_panics (record w { server_state = some agent' }) s on ec e em et

-- A backend that rewrites handshakes for RealIP and caches no status: unless it is offline, or its
-- limiter refuses status requests, every request of a BackendServer makes the worker panic, since
-- the request it is sent has no address.
pub server_handle_panics :
    (env : Env) (req : RequestData) (w : BackendWorker) (m : HandshakeModifier) (target : GoString)
    (limiter limiter' : ConnLimiter)
    → allow_conn env.limiter_clock status_request limiter ≡ ok (true, limiter')
    → agent_says env w.server_state ≢ offline
    → w.status_cache ≡ none
    → w.conn_limiter ≡ some limiter
    → w.hs_modifier ≡ some m
    → w.conn_creator ≡ some target
    → server_handle env req w ≡ fault
unfolding server_handle work_request handle_request
server_handle_panics env req w m target limiter limiter' lets on ec e em et =
    rw (ask_agent_panics env m target limiter limiter' lets w w.server_state on ec e em et)
