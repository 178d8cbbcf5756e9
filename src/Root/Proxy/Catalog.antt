-- ===== src/Root/Proxy/Catalog.antt =====
-- The servers of the catalog that ReloadServerCatalog builds.
use ipojknm.Prelude.{
  some_inj, ℕ, Option, some, ◌≡◌, ◌≢◌, refl, sym, ap, ◌∙◌, List, [], ◌∷◌, Bool-cases, inl, inr, All,
}
use ipojknm.Prelude.Text.{GoString, to_lower, to_lower_idem}
use ipojknm.Prelude.Table.{Table, lookup}
use ipojknm.Errors.{ok_inj, GoError, no_server_found, ok, err}
use ipojknm.Mc.Handshake.{unknown_state}
use ipojknm.Core.{
  RequestData, ServerCatalog, ServerAction, find, find-ok, find-none, new_server_catalog,
}
use ipojknm.Limiter.{BotFilter}
use ipojknm.Config.{ServerConfig, server_to_api_config}
use ipojknm.Config.Convert.{Outside}
use ipojknm.Config.Ultraviolet.{UltravioletConfig, default_status_pk, verify_connection_pk}
use ipojknm.Manager.{insert_each}
use ipojknm.Manager.Routes.{contains, lookup-insert_each, contains_upper}
use ipojknm.Root.ApiServer.{ApiServer, DialTo, new_api_server, api_conn_action, api_create_conn}
use mathlib.Core.Path.{subst}
use ipojknm.Root.ApiServer.Actions.{IsBare, bare_action, bare_dial}
use ipojknm.Root.Proxy.{add_servers, reload_server_catalog}

new_api_server-IsBare :
    (out : Outside) (cfg : ServerConfig) → IsBare (new_api_server out (server_to_api_config cfg))
unfolding new_api_server server_to_api_config
new_api_server-IsBare out cfg = record {
  unlimited = refl;
  uncached = refl;
  is_online = refl;
  nowhere = refl;
}

-- All servers of the map are bare.
abbrev AllBare : Table ApiServer → Type 0
AllBare servers =
    (k : GoString) (server : ApiServer) → lookup k servers ≡ some server → IsBare server

insert_each-AllBare :
    (ds : List GoString) (new : ApiServer) (servers : Table ApiServer)
    → IsBare new
    → AllBare servers
    → AllBare (insert_each ds new servers)
insert_each-AllBare ds new servers bare all k server e =
    let e' = sym (lookup-insert_each k ds new servers) ∙ e in
    elim (Bool-cases (contains k ds)) [
      | inl named ↦ subst IsBare (some_inj (rw named at e')) bare
      | inr other ↦ all k server (rw other at e')
    ]

add_servers-AllBare :
    (out : Outside) (cfgs : List ServerConfig) (servers : Table ApiServer)
    → AllBare servers
    → AllBare (add_servers out cfgs servers)
unfolding add_servers
add_servers-AllBare out [] servers all = all
add_servers-AllBare out (cfg ∷ cfgs) servers all =
    let new = new_api_server out (server_to_api_config cfg) in
    add_servers-AllBare out cfgs (insert_each cfg.domains new servers)
      (insert_each-AllBare cfg.domains new servers (new_api_server-IsBare out cfg) all)

empty-AllBare : AllBare []
unfolding lookup
empty-AllBare k server e = cc

known_server :
    (out : Outside) (uv : UltravioletConfig) (cfgs : List ServerConfig) (addr : GoString)
    (server : ApiServer)
    → find addr (
        new_server_catalog
          (add_servers out cfgs [])
          (default_status_pk out uv)
          (verify_connection_pk uv))
      ≡ ok server
    → IsBare server
unfolding new_server_catalog
known_server out uv cfgs addr server e =
    add_servers-AllBare out cfgs [] empty-AllBare (to_lower addr) server (find-ok addr _ server e)

-- Every server that the catalog of a reload gives sends every login and every status request to the
-- proxy, and there dials the empty address, whatever the config says where the server is.
pub reload_proxies_to_nowhere :
    (out : Outside) (uv : UltravioletConfig) (cfgs : List ServerConfig)
    (catalog : ServerCatalog ApiServer) (addr : GoString) (server : ApiServer) (clock : ℕ → ℕ)
    (req : RequestData) (l : BotFilter) (dial : DialTo) (header : Option GoError) (e : GoError)
    → reload_server_catalog out (ok uv) (ok cfgs) ≡ ok catalog
    → find addr catalog ≡ ok server
    → req.type ≢ unknown_state
    → dial [] ≡ err e
    → (api_conn_action clock server req l ≡ some (ServerAction.proxy, l))
      × (api_create_conn dial header server ≡ err e)
unfolding reload_server_catalog new_server_catalog lookup
reload_proxies_to_nowhere out uv cfgs catalog addr server clock req l dial header e loads finds
      known fails =
    let bare = known_server out uv cfgs addr server (ap (find addr) (ok_inj loads) ∙ finds) in
    (bare_action clock server req l bare known, bare_dial dial header server e bare fails)

add_servers_upper :
    (out : Outside) (k : GoString) (cfgs : List ServerConfig) (servers : Table ApiServer)
    → to_lower k ≡ k
    → All (λ cfg. All (λ d. to_lower d ≢ d) cfg.domains) cfgs
    → lookup k (add_servers out cfgs servers) ≡ lookup k servers
unfolding add_servers
add_servers_upper out k [] servers low h = refl
add_servers_upper out k (cfg ∷ cfgs) servers low h =
    let new = new_api_server out (server_to_api_config cfg) in
    add_servers_upper out k cfgs (insert_each cfg.domains new servers) low h.1
    ∙ (lookup-insert_each k cfg.domains new servers
        ∙ rw (contains_upper k cfg.domains low h.0) refl)

-- A domain that the config spells with a capital letter is never served: where all domains are such,
-- the catalog gives no server for any address, not even for the domain as it is spelled.
pub reload_upper_not_found :
    (out : Outside) (uv : UltravioletConfig) (cfgs : List ServerConfig)
    (catalog : ServerCatalog ApiServer) (addr : GoString)
    → reload_server_catalog out (ok uv) (ok cfgs) ≡ ok catalog
    → All (λ cfg. All (λ d. to_lower d ≢ d) cfg.domains) cfgs
    → find addr catalog ≡ err no_server_found
unfolding reload_server_catalog new_server_catalog lookup
reload_upper_not_found out uv cfgs catalog addr loads upper =
    let none_found = add_servers_upper out (to_lower addr) cfgs [] (to_lower_idem addr) upper in
    ap (find addr) (sym (ok_inj loads)) ∙ find-none addr _ none_found
