-- ===== src/Root/ApiServer.antt =====
-- server.go: the core.Server of the root package. The bot limiter is one for all servers.
pub mod Actions
use ipojknm.Prelude.{Bool, true, false, ℕ, Option, none, some, List, [], ◌*◌, if◌then◌else◌, ◌&&◌}
use ipojknm.Prelude.Text.{GoString}
use ipojknm.Errors.{GoError, Outcome, ok, err, fault}
use ipojknm.Mc.Packet.{Packet, no_packet}
use ipojknm.Mc.Handshake.{HandshakeState, unknown_state, status, login}
use ipojknm.Mc.Login.{marshal_disconnect, marshal_status}
use ipojknm.Core.{RequestData, ServerState, ServerAction}
use ipojknm.Limiter.{BotFilter, new_bot_filter, is_status, allow}
use ipojknm.Config.{ApiServerConfig}
use ipojknm.Config.Convert.{Outside, duration_or, second}
use ipojknm.Root.Server.{Server}

-- var botLimiter
unfoldable pub bot_limiter : ℕ → BotFilter
bot_limiter now = new_bot_filter now 5 (60 * second) (3600 * second) (5 * second) no_packet

-- APIServer; the dialer is its timeout and its local address.
pub record ApiServer : Type 0 where
  pub send_proxy_protocol : Bool
  pub disconnect_packet : Packet
  pub dial_timeout : ℕ
  pub local_addr : GoString
  pub proxy_to : GoString
  pub use_bot_limiter : Bool
  pub use_status_cache : Bool
  pub server_status_pk : Packet
  pub server_status : ServerState

-- NewAPIServer, which does not set proxyTo
unfoldable pub new_api_server : Outside → ApiServerConfig → ApiServer
new_api_server out cfg = record {
  send_proxy_protocol = cfg.send_proxy_protocol;
  disconnect_packet = marshal_disconnect (record { reason = cfg.disconnect_message });
  dial_timeout = duration_or out.parse_duration cfg.dial_timeout second;
  local_addr = cfg.proxy_bind;
  proxy_to = [];
  use_bot_limiter = cfg.limit_bots;
  use_status_cache = cfg.use_status_cache;
  server_status_pk = marshal_status out.json_marshal cfg.cached_status;
  server_status = if cfg.is_online then ServerState.online else ServerState.offline;
}

-- serverOffline, serverOnline
server_offline : HandshakeState → ServerAction
server_offline status = ServerAction.send_status
server_offline _ = ServerAction.close

server_online : ApiServer → HandshakeState → ServerAction
server_online server login = ServerAction.proxy
server_online server status =
    if server.use_status_cache then ServerAction.send_status else ServerAction.proxy
server_online server unknown_state = ServerAction.close

-- The switch of ConnAction.
by_state : ApiServer → HandshakeState → ServerState → ServerAction
unfolding server_offline server_online
by_state server type ServerState.offline = server_offline type
by_state server type ServerState.online = server_online server type
by_state server type ServerState.unknown = ServerAction.close

-- `botLimiter.Allow(req)`; a request that is no status request needs an address.
ask_bot_limiter : (ℕ → ℕ) → RequestData → Option GoString → BotFilter → Option (Bool × BotFilter)
ask_bot_limiter clock req (some addr) l = some (allow clock req addr l)
ask_bot_limiter clock req none l = if is_status req.type then some (true, l) else none

limited_action :
    ApiServer → HandshakeState → Option (Bool × BotFilter) → Option (ServerAction × BotFilter)
unfolding by_state
limited_action server type none = none
limited_action server type (some (true, l)) = some (by_state server type server.server_status, l)
limited_action server type (some (false, l)) = some (ServerAction.verify_conn, l)

-- APIServer.ConnAction
unfoldable pub api_conn_action :
    (ℕ → ℕ) → ApiServer → RequestData → BotFilter → Option (ServerAction × BotFilter)
unfolding limited_action ask_bot_limiter
api_conn_action clock server req l =
    limited_action server req.type
      (if server.use_bot_limiter then ask_bot_limiter clock req req.addr l else some (true, l))

-- What a dial gives: its error, or the local address of the connection.
abbrev pub DialTo : Type 0
DialTo = GoString → Outcome GoString

announced : Bool → Option GoError → Outcome GoString → Outcome (Option GoString)
announced true none (ok local_addr) = ok (some local_addr)
announced true (some e) (ok local_addr) = err e
announced false header (ok local_addr) = ok none
announced _ header (err e) = err e
announced _ header fault = fault

-- APIServer.CreateConn: the address that the PROXY header announces as the source, if one is sent.
-- `header` is what header.WriteTo returns.
unfoldable pub api_create_conn : DialTo → Option GoError → ApiServer → Outcome (Option GoString)
unfolding announced
api_create_conn dial header server =
    announced server.send_proxy_protocol header (dial server.proxy_to)

-- APIServer.Status
unfoldable pub api_status : ApiServer → BotFilter → Option (Packet × BotFilter)
api_status server l = some (server.server_status_pk, l)

-- APIServer as a core.Server
abbrev pub api_server : (ℕ → ℕ) → Server ApiServer BotFilter
api_server clock = record {
  conn_action = λ server req l. api_conn_action clock server req l;
  status = λ server l. api_status server l;
}

-- ProxyAllServer.ConnAction, ProxyAllServer.Status
unfoldable pub proxy_all_conn_action : RequestData → ServerAction
proxy_all_conn_action req = ServerAction.proxy

unfoldable pub proxy_all_status : Packet
proxy_all_status = no_packet
