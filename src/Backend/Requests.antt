-- ===== src/Backend/Requests.antt =====
-- What a worker answers, on every branch of HandleRequest.
use ipojknm.Prelude.{
  Bool, true, false, ℕ, Option, Option-cases, none, some, ◌≡◌, ◌≢◌, ◌⊎◌, inl, inr, refl, arith,
}
use ipojknm.Prelude.Text.{GoString}
use ipojknm.Errors.{Outcome, ok, err, fault, continue, is_ok}
use ipojknm.Mc.Handshake.{
  HandshakeState, unknown_state, status, login, ServerBoundHandshake, marshal_handshake,
}
use ipojknm.Mc.Login.{marshal_login_start}
use ipojknm.Mc.RealIp.{upgrade_to_old_real_ip, upgrade_to_new_real_ip}
use ipojknm.Core.{RequestData, ServerState, unknown, online, offline}
use ipojknm.Limiter.{ConnLimiter, always_allow, absolute, bot_filter, allow_conn}
use ipojknm.Agents.{
  HandshakeModifier, real_ip_2_4, real_ip_2_5, modify, StateAgent, agent_state, StatusCache,
}
use ipojknm.Agents.Cache.{cached_status-is_ok}
use ipojknm.Backend.{
  proxy, disconnect, send_status, BackendWorker, Env, Handled, new_disconnect_answer,
  new_status_answer, new_proxy_answer, answer_proxy, answer_limited, answer_status, answer_offline,
  handle_request, modified, limited, ask_limiter, ask_agent,
}

-- What the worker's state agent says at this call; a worker without one counts as unknown.
abbrev pub agent_says : Env → Option StateAgent → ServerState
agent_says env none = unknown
agent_says env (some agent) = (agent_state env.agent_clock env.agent_dial agent).0

-- While the server is offline, a status request gets the offline status and a login the disconnect
-- packet; the limiter and the cache are not touched.
pub handle_request_offline :
    (env : Env) (req : RequestData) (w : BackendWorker) (agent : StateAgent)
    → w.server_state ≡ some agent
    → agent_says env (some agent) ≡ offline
    → let w' = record w {
      server_state = some (agent_state env.agent_clock env.agent_dial agent).1;
    } in
      (req.type ≡ status
        → handle_request env req w ≡ ok (new_status_answer w.offline_status_packet, w'))
      × (req.type ≡ login
          → handle_request env req w ≡ ok (new_disconnect_answer w.disconnect_packet, w'))
unfolding handle_request answer_offline
handle_request_offline env req w agent e off = (λ t. rw (e, off, t), λ t. rw (e, off, t))

-- A modifier that signs has a key.
abbrev pub HasKey : Option HandshakeModifier → Type 0
HasKey none = Unit {0}
HasKey (some real_ip_2_4) = Unit {0}
HasKey (some (real_ip_2_5 none)) = ⊥
HasKey (some (real_ip_2_5 (some sign))) = Unit {0}

-- The request has an address and the modifier a key where it needs one; or the request is one for the
-- status, with an address or without, and there is no modifier.
abbrev pub IsAnswerable : RequestData → Option HandshakeModifier → Type 0
IsAnswerable req m =
    ((a : GoString) × (req.addr ≡ some a) × HasKey m) ⊎ ((req.type ≡ status) × (m ≡ none))

allow_conn-is_ok :
    (clock : ℕ → ℕ) (req : RequestData) (limiter : ConnLimiter) (m : Option HandshakeModifier)
    → IsAnswerable req m
    → is_ok (allow_conn clock req limiter) ≡ true
unfolding allow_conn
allow_conn-is_ok clock req always_allow m h = refl
allow_conn-is_ok clock req (absolute r) m h = refl
allow_conn-is_ok clock req (bot_filter l) m (inl (a, has_addr, key)) = ground arith
allow_conn-is_ok clock req (bot_filter l) m (inr (is, no_modifier)) = elim (Option-cases req.addr) [
  | inl no_addr ↦ rw (no_addr, is) refl
  | inr (a, has_addr) ↦ rw has_addr refl
]

modified-cases :
    (stamp : ℕ) (req : RequestData) (m : Option HandshakeModifier)
    → IsAnswerable req m
    → (hs : ServerBoundHandshake) × (modified stamp m req.addr req.handshake ≡ ok hs)
      × (m ≡ none → hs ≡ req.handshake)
unfolding modified modify
modified-cases stamp req none h = (req.handshake, refl, λ e. refl)
modified-cases stamp req (some m) (inr (is, no_modifier)) = absurd cc
modified-cases stamp req (some real_ip_2_4) (inl (a, has_addr, key)) =
    (upgrade_to_old_real_ip a stamp req.handshake, rw has_addr refl, λ e. absurd cc)
modified-cases stamp req (some (real_ip_2_5 none)) (inl (a, has_addr, key)) = absurd key
modified-cases stamp req (some (real_ip_2_5 (some sign))) (inl (a, has_addr, key)) =
    (upgrade_to_new_real_ip sign a stamp req.handshake, rw has_addr refl, λ e. absurd cc)

-- The settings of a worker and its count of connections.
pub record SameSettings (w w' : BackendWorker) : Type 0 where
  pub active_conns : w'.active_conns ≡ w.active_conns
  pub name : w'.name ≡ w.name
  pub send_proxy_protocol : w'.send_proxy_protocol ≡ w.send_proxy_protocol
  pub offline_status_packet : w'.offline_status_packet ≡ w.offline_status_packet
  pub disconnect_packet : w'.disconnect_packet ≡ w.disconnect_packet
  pub hs_modifier : w'.hs_modifier ≡ w.hs_modifier
  pub conn_creator : w'.conn_creator ≡ w.conn_creator

-- A call that returned an answer: the settings are those of before, the answer is meant for the
-- request's type, a login has not touched the cache, and a proxy answer carries the request.
abbrev pub Answered : BackendWorker → RequestData → Handled → Type 0
Answered w req (ok (ans, w')) =
    SameSettings w w'
    × (req.type ≡ login → ans.action ≢ send_status)
    × (req.type ≡ status → ans.action ≢ disconnect)
    × (req.type ≡ login → w'.status_cache ≡ w.status_cache)
    × (ans.action ≡ proxy
        → req.type ≡ login
        → ans.second_packet ≡ marshal_login_start (record { name = req.username }))
    × (ans.action ≡ proxy
        → w.hs_modifier ≡ none
        → ans.first_packet ≡ marshal_handshake req.handshake)
Answered w req (err e) = ⊥
Answered w req fault = ⊥

module _ (env : Env) (req : RequestData) (w0 : BackendWorker) (target : GoString)
    (answerable : IsAnswerable req w0.hs_modifier)
    (has_target : w0.conn_creator ≡ some target) where
  answer_proxy-Answered :
      (w : BackendWorker)
      → SameSettings w0 w
      → w.status_cache ≡ w0.status_cache
      → Answered w0 req (answer_proxy env req w)
  unfolding answer_proxy new_proxy_answer
  answer_proxy-Answered w same c =
      let (hs, gives, plain) = modified-cases env.stamp req w0.hs_modifier answerable in
      let here : modified env.stamp w.hs_modifier req.addr req.handshake ≡ ok hs =
        rw same.hs_modifier gives in
      ground (arith, has_target, here, plain)

  limited-Answered :
      (w : BackendWorker) (r : Outcome (Bool × ConnLimiter))
      → is_ok r ≡ true
      → SameSettings w0 w
      → w.status_cache ≡ w0.status_cache
      → Answered w0 req (continue r (limited env req w))
  unfolding limited
  limited-Answered w (ok (true, limiter)) h same c =
      answer_proxy-Answered (record w { conn_limiter = some limiter })
        (record {
          active_conns = same.active_conns;
          name = same.name;
          send_proxy_protocol = same.send_proxy_protocol;
          offline_status_packet = same.offline_status_packet;
          disconnect_packet = same.disconnect_packet;
          hs_modifier = same.hs_modifier;
          conn_creator = same.conn_creator;
        })
        c
  limited-Answered w (ok (false, limiter)) h same c = ground arith
  limited-Answered w (err e) h same c = cc
  limited-Answered w fault h same c = cc

  ask_limiter-Answered :
      (w : BackendWorker) (o : Option ConnLimiter)
      → SameSettings w0 w
      → w.status_cache ≡ w0.status_cache
      → Answered w0 req (ask_limiter env req w o)
  unfolding ask_limiter
  ask_limiter-Answered w none same c = answer_proxy-Answered w same c
  ask_limiter-Answered w (some limiter) same c =
      (limited-Answered w (allow_conn env.limiter_clock req limiter)
        (allow_conn-is_ok env.limiter_clock req limiter w0.hs_modifier answerable) same c)

  answer_status-Answered :
      (w : BackendWorker) (t : HandshakeState) (o : Option StatusCache)
      → req.type ≡ t
      → SameSettings w0 w
      → w.status_cache ≡ w0.status_cache
      → Answered w0 req (answer_status env req w t o)
  unfolding answer_status new_status_answer answer_limited
  answer_status-Answered w status (some cache) e same c =
      ground (arith, cached_status-is_ok env.cache_clock env.exchange cache)
  answer_status-Answered w status none e same c = ask_limiter-Answered w w.conn_limiter same c
  answer_status-Answered w login o e same c = ask_limiter-Answered w w.conn_limiter same c
  answer_status-Answered w unknown_state o e same c = ask_limiter-Answered w w.conn_limiter same c

  answer_offline-Answered :
      (w : BackendWorker) (s : ServerState) (t : HandshakeState)
      → req.type ≡ t
      → SameSettings w0 w
      → w.status_cache ≡ w0.status_cache
      → Answered w0 req (answer_offline env req w s t)
  unfolding answer_offline new_status_answer new_disconnect_answer
  answer_offline-Answered w offline status e same c = ground arith
  answer_offline-Answered w offline login e same c = ground arith
  answer_offline-Answered w offline unknown_state e same c =
      answer_status-Answered w unknown_state w.status_cache e same c
  answer_offline-Answered w online t e same c = answer_status-Answered w t w.status_cache e same c
  answer_offline-Answered w unknown t e same c = answer_status-Answered w t w.status_cache e same c

  ask_agent-Answered : (o : Option StateAgent) → Answered w0 req (ask_agent env req w0 o)
  unfolding ask_agent
  ask_agent-Answered none =
      answer_status-Answered w0 req.type w0.status_cache refl (ground arith) refl
  ask_agent-Answered (some agent) =
      let (s, agent') = agent_state env.agent_clock env.agent_dial agent in
      answer_offline-Answered (record w0 { server_state = some agent' }) s req.type refl
        (ground arith) refl

-- A request to a worker with a server to dial, where the request has an address and the worker's
-- handshake modifier, if it signs, a key, or where it is a status request, as BackendServer sends them
-- without an address, to a worker without a modifier: HandleRequest returns an answer (no branch of it
-- panics) and keeps the worker's settings and its count of connections; a login is never sent a status
-- and leaves the status cache alone, and a status request is never sent a disconnect packet. A proxy
-- answer to a login carries a login start with the request's username, and where there is no handshake
-- modifier any proxy answer carries the request's handshake.
pub handle_request-Answered :
    (env : Env) (req : RequestData) (w : BackendWorker) (target : GoString)
    → ((a : GoString) × (req.addr ≡ some a) × HasKey w.hs_modifier)
      ⊎ ((req.type ≡ status) × (w.hs_modifier ≡ none))
    → w.conn_creator ≡ some target
    → Answered w req (handle_request env req w)
unfolding handle_request
handle_request-Answered env req w target answerable has_target =
    ask_agent-Answered env req w target answerable has_target w.server_state
