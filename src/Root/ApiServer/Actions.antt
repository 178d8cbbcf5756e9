-- ===== src/Root/ApiServer/Actions.antt =====
-- What an APIServer answers.
use ipojknm.Prelude.{Bool, true, false, ℕ, Option, none, some, ap, ◌∙◌, ◌≡◌, ◌≢◌, refl, [], arith}
use ipojknm.Prelude.Text.{GoString}
use ipojknm.Errors.{GoError, err}
use ipojknm.Mc.Handshake.{HandshakeState, unknown_state, status, login}
use ipojknm.Core.{RequestData, ServerAction, ServerState}
use ipojknm.Limiter.{BotFilter}
use ipojknm.Root.ApiServer.{
  ApiServer, api_conn_action, limited_action, by_state, server_online, announced, api_create_conn,
  DialTo,
}

-- A server that is online, with no limiter, no cached status and no address.
pub record IsBare (server : ApiServer) : Type 0 where
  pub unlimited : server.use_bot_limiter ≡ false
  pub uncached : server.use_status_cache ≡ false
  pub is_online : server.server_status ≡ ServerState.online
  pub nowhere : server.proxy_to ≡ []

by_type :
    (server : ApiServer) (t : HandshakeState)
    → IsBare server
    → t ≢ unknown_state
    → by_state server t server.server_status ≡ ServerAction.proxy
unfolding by_state server_online
by_type server unknown_state bare known = absurd (known refl)
by_type server status bare known = ground (arith, bare.uncached, bare.is_online)
by_type server login bare known = ground (arith, bare.is_online)

pub bare_action :
    (clock : ℕ → ℕ) (server : ApiServer) (req : RequestData) (l : BotFilter)
    → IsBare server
    → req.type ≢ unknown_state
    → api_conn_action clock server req l ≡ some (ServerAction.proxy, l)
unfolding api_conn_action limited_action
bare_action clock server req l bare known =
    ground (arith, bare.unlimited, by_type server req.type bare known)

announced_err :
    (flag : Bool) (header : Option GoError) (e : GoError) → announced flag header (err e) ≡ err e
unfolding announced
announced_err true none e = refl
announced_err true (some x) e = refl
announced_err false none e = refl
announced_err false (some x) e = refl

pub bare_dial :
    (dial : DialTo) (header : Option GoError) (server : ApiServer) (e : GoError)
    → IsBare server
    → dial [] ≡ err e
    → api_create_conn dial header server ≡ err e
unfolding api_create_conn
bare_dial dial header server e bare fails =
    ap (λ (a : GoString). announced server.send_proxy_protocol header (dial a)) bare.nowhere
    ∙ (ap (announced server.send_proxy_protocol header) fails
        ∙ announced_err server.send_proxy_protocol header e)
