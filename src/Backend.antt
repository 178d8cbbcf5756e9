-- ===== src/Backend.antt =====
-- worker/backend.go and worker/type.go: the worker that answers for one backend.
pub mod Requests
pub mod Server
pub mod Settings
pub mod Life
use ipojknm.Prelude.{
  Bool, true, false, ℕ, Option, none, some, ◌+◌, ◌-◌, ◌^◌, ◌%◌, ◌*◌, List, [], ◌∷◌, ltb, leb,
  if◌then◌else◌, ◌&&◌, length, not,
}
use ipojknm.Prelude.Text.{GoString}
use ipojknm.Errors.{GoError, Outcome, ok, err, fault, continue}
use ipojknm.Mc.Packet.{Packet, no_packet}
use ipojknm.Mc.Handshake.{
  HandshakeState, unknown_state, status, login, ServerBoundHandshake, marshal_handshake,
}
use ipojknm.Mc.Login.{marshal_request, marshal_login_start}
use ipojknm.Core.{RequestData, ServerState, online, offline}
use ipojknm.Limiter.{ConnLimiter, allow_conn, is_some}
use ipojknm.Agents.{
  StateAgent, agent_state, Dial, Exchange, StatusCache, cached_status, HandshakeModifier, modify,
}

-- BackendAction
pub data BackendAction : Type 0 where
  error proxy disconnect send_status close : BackendAction

-- ProxyAction
pub data ProxyAction : Type 0 where
  proxy_open proxy_close : ProxyAction

-- The connFunc of an answer: a dial, or a dial followed by a PROXY header for the client's address.
pub data ConnFunc : Type 0 where
  plain : ConnFunc
  with_header : Option GoString → ConnFunc

-- Running it: the address announced to the server, if one is. `header` is what header.WriteTo
-- returns; the error of either call is returned.
unfoldable pub run_conn_func : Dial → Option GoError → ConnFunc → Outcome (Option GoString)
run_conn_func (some e) header f = err e
run_conn_func none header plain = ok none
run_conn_func none none (with_header addr) = ok addr
run_conn_func none (some e) (with_header addr) = err e

-- BackendAnswer, without the channel that every proxy answer of a worker shares
pub record BackendAnswer : Type 0 where
  pub server_name : GoString
  pub server_conn_func : Option ConnFunc
  pub action : BackendAction
  pub first_packet : Packet
  pub second_packet : Packet

-- BackendAnswer{}
abbrev pub no_answer : BackendAnswer
no_answer = record {
  server_name = [];
  server_conn_func = none;
  action = error;
  first_packet = no_packet;
  second_packet = no_packet;
}

unfoldable pub new_disconnect_answer : Packet → BackendAnswer
new_disconnect_answer p = record no_answer { action = disconnect; first_packet = p }

unfoldable pub new_status_answer : Packet → BackendAnswer
new_status_answer p = record no_answer { action = send_status; first_packet = p }

unfoldable pub new_proxy_answer : Packet → Packet → ConnFunc → BackendAnswer
new_proxy_answer p1 p2 f = record no_answer {
  action = proxy;
  server_conn_func = some f;
  first_packet = p1;
  second_packet = p2;
}

unfoldable pub new_close_answer : BackendAnswer
new_close_answer = record no_answer { action = close }

-- BackendWorker, without its channels; `none` is a nil interface. The connection creator is the
-- address that it dials. `active_conns` is the 64-bit pattern of an int.
pub record BackendWorker : Type 0 where
  pub active_conns : ℕ
  pub name : GoString
  pub send_proxy_protocol : Bool
  pub offline_status_packet : Packet
  pub disconnect_packet : Packet
  pub hs_modifier : Option HandshakeModifier
  pub conn_creator : Option GoString
  pub conn_limiter : Option ConnLimiter
  pub server_state : Option StateAgent
  pub status_cache : Option StatusCache

-- NewEmptyBackendWorker
abbrev pub new_empty_backend_worker : BackendWorker
new_empty_backend_worker = record {
  active_conns = 0;
  name = [];
  send_proxy_protocol = false;
  offline_status_packet = no_packet;
  disconnect_packet = no_packet;
  hs_modifier = none;
  conn_creator = none;
  conn_limiter = none;
  server_state = none;
  status_cache = none;
}

-- What the outside gives to one call of HandleRequest: the clocks of the three modules that read
-- it, the dial of the state agent, the exchange of the status cache, and the Unix time.
pub record Env : Type 0 where
  pub agent_clock : ℕ → ℕ
  pub agent_dial : Dial
  pub cache_clock : ℕ → ℕ
  pub exchange : Exchange
  pub limiter_clock : ℕ → ℕ
  pub stamp : ℕ

abbrev pub Handled : Type 0
Handled = Outcome (BackendAnswer × BackendWorker)

-- `wrk.HsModifier.Modify(&hs, addr.String())`: nothing where there is no modifier, a panic where
-- there is one and the address is nil, or where it has to sign with a nil key.
modified :
    ℕ
    → Option HandshakeModifier
    → Option GoString
    → ServerBoundHandshake
    → Outcome ServerBoundHandshake
modified stamp none addr hs = ok hs
modified stamp (some m) none hs = fault
modified stamp (some m) (some addr) hs = modify m addr stamp hs

-- The second packet of a proxy answer.
second_packet : RequestData → HandshakeState → Packet
second_packet req status = marshal_request
second_packet req login = marshal_login_start (record { name = req.username })
second_packet req unknown_state = no_packet

-- The last part of HandleRequest. A nil connection creator panics.
unfoldable pub answer_proxy : Env → RequestData → BackendWorker → Handled
unfolding modified second_packet
answer_proxy env req w = elim w.conn_creator [
  | none ↦ fault
  | some target ↦ continue (modified env.stamp w.hs_modifier req.addr req.handshake) (λ hs. ok (
    new_proxy_answer (marshal_handshake hs) (second_packet req req.type)
        (if w.send_proxy_protocol then with_header req.addr else plain),
    w,
  ))
]

-- `if !wrk.ConnLimiter.Allow(req.ReqData) { return BackendAnswer{} }`
limited : Env → RequestData → BackendWorker → Bool × ConnLimiter → Handled
limited env req w (true, limiter) = answer_proxy env req (record w { conn_limiter = some limiter })
limited env req w (false, limiter) = ok (no_answer, record w { conn_limiter = some limiter })

ask_limiter : Env → RequestData → BackendWorker → Option ConnLimiter → Handled
unfolding limited
ask_limiter env req w none = answer_proxy env req w
ask_limiter env req w (some limiter) =
    continue (allow_conn env.limiter_clock req limiter) (limited env req w)

unfoldable pub answer_limited : Env → RequestData → BackendWorker → Handled
unfolding ask_limiter
answer_limited env req w = ask_limiter env req w w.conn_limiter

-- The status cache answers a status request; where it has an error, the offline packet does.
answer_cached : BackendWorker → (Packet × Option GoError) × StatusCache → Handled
answer_cached w ((pk, none), cache) =
    ok (new_status_answer pk, record w { status_cache = some cache })
answer_cached w ((pk, some e), cache) =
    ok (new_status_answer w.offline_status_packet, record w { status_cache = some cache })

unfoldable pub answer_status :
    Env → RequestData → BackendWorker → HandshakeState → Option StatusCache → Handled
unfolding answer_cached
answer_status env req w status (some cache) =
    continue (cached_status env.cache_clock env.exchange cache) (answer_cached w)
answer_status env req w _ _ = answer_limited env req w

-- The first part: a server that is offline.
unfoldable pub answer_offline :
    Env → RequestData → BackendWorker → ServerState → HandshakeState → Handled
answer_offline env req w offline status = ok (new_status_answer w.offline_status_packet, w)
answer_offline env req w offline login = ok (new_disconnect_answer w.disconnect_packet, w)
answer_offline env req w _ type = answer_status env req w type w.status_cache

-- `wrk.ServerState != nil && wrk.ServerState.State() == core.Offline`
ask_agent : Env → RequestData → BackendWorker → Option StateAgent → Handled
ask_agent env req w none = answer_status env req w req.type w.status_cache
ask_agent env req w (some agent) =
    let (s, agent') = agent_state env.agent_clock env.agent_dial agent in
    answer_offline env req (record w { server_state = some agent' }) s req.type

-- BackendWorker.HandleRequest
unfoldable pub handle_request : Env → RequestData → BackendWorker → Handled
unfolding ask_agent
handle_request env req w = ask_agent env req w w.server_state
