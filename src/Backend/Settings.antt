-- ===== src/Backend/Settings.antt =====
-- worker/backend.go: the settings of a worker, their update, and its life as a row of events.
use ipojknm.Prelude.{
  Bool, true, ℕ, Option, none, some, ◌+◌, ◌-◌, ◌*◌, ◌%◌, ◌^◌, List, [], ◌∷◌, if◌then◌else◌, ◌&&◌,
  ltb,
}
use ipojknm.Prelude.Text.{GoString}
use ipojknm.Errors.{Outcome, ok, continue}
use ipojknm.Mc.Packet.{Packet}
use ipojknm.Core.{RequestData}
use ipojknm.Limiter.{ConnLimiter, always_allow, bot_filter, new_bot_filter}
use ipojknm.Agents.{
  StateAgent, mc_server, new_mc_server_state, StatusCache, new_status_cache, HandshakeModifier,
  real_ip_2_4, real_ip_2_5,
}
use ipojknm.Config.{BackendWorkerConfig, StateOptions, is_positive}
use ipojknm.Backend.{
  BackendWorker, Env, ProxyAction, proxy_open, proxy_close, new_empty_backend_worker,
}
use ipojknm.Backend.Server.{work_request}

-- BackendConfig; `none` is a nil interface.
pub record BackendConfig : Type 0 where
  pub name : GoString
  pub update_proxy_protocol : Bool
  pub send_proxy_protocol : Bool
  pub disconnect_packet : Packet
  pub offline_status_packet : Packet
  pub hs_modifier : Option HandshakeModifier
  pub conn_creator : Option GoString
  pub conn_limiter : Option ConnLimiter
  pub server_state : Option StateAgent
  pub status_cache : Option StatusCache

agent_of : StateOptions → ℕ → StateAgent
agent_of StateOptions.always_online cooldown = StateAgent.always_online
agent_of StateOptions.always_offline cooldown = StateAgent.always_offline
agent_of StateOptions.cache cooldown = mc_server (new_mc_server_state cooldown)

-- The limiter of NewBackendConfig: the parameters of NewBotFilterConnLimiter are the limit, the
-- window, the clear time of the black list and the cooldown of the verification, in this order.
limiter_of : ℕ → BackendWorkerConfig → ConnLimiter
limiter_of now cfg =
    if is_positive cfg.rate_limit
    then bot_filter (
        new_bot_filter now cfg.rate_limit cfg.rate_limit_duration (10 * cfg.rate_limit_duration)
          cfg.rate_ban_list_cooldown cfg.rate_discon_pk)
    else always_allow

modifier_of : BackendWorkerConfig → Option HandshakeModifier
modifier_of cfg =
    if cfg.old_real_ip
    then some real_ip_2_4
    else if cfg.new_real_ip
    then some (real_ip_2_5 cfg.real_ip_key)
    else none

-- NewBackendConfig
unfoldable pub new_backend_config : ℕ → BackendWorkerConfig → BackendConfig
unfolding agent_of limiter_of modifier_of
new_backend_config now cfg = record {
  name = cfg.name;
  update_proxy_protocol = true;
  send_proxy_protocol = cfg.send_proxy_protocol;
  disconnect_packet = cfg.disconnect_packet;
  offline_status_packet = cfg.offline_status;
  hs_modifier = modifier_of cfg;
  conn_creator = some cfg.proxy_to;
  conn_limiter = some (limiter_of now cfg);
  server_state = some (agent_of cfg.state_option cfg.state_update_cooldown);
  status_cache =
      if cfg.cache_status
      then some (new_status_cache cfg.valid_protocol cfg.cache_update_cooldown)
      else none;
}

-- `if x != nil { w.X = x }`
abbrev pub or_old {ℓ} : {A : Type ℓ} → Option A → Option A → Option A
or_old none old = old
or_old (some a) old = some a

-- The same for a name and for a packet with data.
abbrev pub name_or : GoString → GoString → GoString
name_or [] old = old
name_or (c ∷ s) old = c ∷ s

abbrev pick_packet : List ℕ → Packet → Packet → Packet
pick_packet [] pk old = old
pick_packet (b ∷ bs) pk old = pk

abbrev pub packet_or : Packet → Packet → Packet
packet_or pk old = pick_packet pk.content pk old

-- UpdateSameGoroutine, without the gauge that it moves to the new name
unfoldable pub update_same_goroutine : BackendConfig → BackendWorker → BackendWorker
update_same_goroutine cfg w = record w {
  name = name_or cfg.name w.name;
  send_proxy_protocol =
      if cfg.update_proxy_protocol then cfg.send_proxy_protocol else w.send_proxy_protocol;
  disconnect_packet = packet_or cfg.disconnect_packet w.disconnect_packet;
  offline_status_packet = packet_or cfg.offline_status_packet w.offline_status_packet;
  hs_modifier = or_old cfg.hs_modifier w.hs_modifier;
  conn_creator = or_old cfg.conn_creator w.conn_creator;
  conn_limiter = or_old cfg.conn_limiter w.conn_limiter;
  server_state = or_old cfg.server_state w.server_state;
  status_cache = or_old cfg.status_cache w.status_cache;
}

-- NewBackendWorker
unfoldable pub new_backend_worker : ℕ → BackendWorkerConfig → BackendWorker
new_backend_worker now cfg =
    update_same_goroutine (record (new_backend_config now cfg) { update_proxy_protocol = true })
      new_empty_backend_worker

-- proxyRequest, without the gauge
unfoldable pub proxy_request : ProxyAction → BackendWorker → BackendWorker
proxy_request proxy_open w = record w { active_conns = (w.active_conns + 1) % 2 ^ 64 }
proxy_request proxy_close w = record w { active_conns = (w.active_conns + (2 ^ 64 - 1)) % 2 ^ 64 }

-- `wrk.activeConns > 0`, what HasActiveConn is told
unfoldable pub has_active_conn : BackendWorker → Bool
has_active_conn w = ltb 0 w.active_conns && ltb w.active_conns (2 ^ 63)

-- The messages that Work selects among.
pub data Event : Type 0 where
  request : Env → RequestData → Event
  proxied : ProxyAction → Event
  check : Event
  update : BackendConfig → Event

-- One round of the loop of Work; what the other end of the message is answered is left out.
unfoldable pub work_step : Event → BackendWorker → Outcome BackendWorker
work_step (request env req) w = continue (work_request env req w) (λ p. ok p.1)
work_step (proxied a) w = ok (proxy_request a w)
work_step check w = ok w
work_step (update cfg) w = ok (update_same_goroutine cfg w)

-- The worker after a row of messages, up to the one on closeCh.
unfoldable pub work : List Event → BackendWorker → Outcome BackendWorker
work [] w = ok w
work (e ∷ es) w = continue (work_step e w) (work es)
