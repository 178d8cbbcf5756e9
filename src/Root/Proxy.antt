-- ===== src/Root/Proxy.antt =====
-- proxy.go: the listener's loop, and the catalog that it gives to each connection.
pub mod Catalog
pub mod Pool
use ipojknm.Prelude.{Bool, true, false, ℕ, Option, none, some, List, [], ◌∷◌, if◌then◌else◌}
use ipojknm.Prelude.Text.{GoString}
use ipojknm.Prelude.Table.{Table}
use ipojknm.Errors.{GoError, Outcome, ok, err, fault, continue}
use ipojknm.Mc.Packet.{Packet}
use ipojknm.Core.{ServerCatalog, new_server_catalog}
use ipojknm.Config.{ServerConfig, server_to_api_config}
use ipojknm.Config.Convert.{Outside}
use ipojknm.Config.Ultraviolet.{UltravioletConfig, default_status_pk, verify_connection_pk}
use ipojknm.Manager.{insert_each}
use ipojknm.Root.ApiServer.{ApiServer, new_api_server}

-- The loop of ReloadServerCatalog over the configs; the later of two configs with a domain has it.
unfoldable pub add_servers : Outside → List ServerConfig → Table ApiServer → Table ApiServer
add_servers out [] servers = servers
add_servers out (cfg ∷ cfgs) servers =
    add_servers out cfgs
      (insert_each cfg.domains (new_api_server out (server_to_api_config cfg)) servers)

-- SpeedyProxy.ReloadServerCatalog: what the two readers give, and the catalog so far. An error keeps
-- that catalog.
unfoldable pub reload_server_catalog :
    Outside
    → Outcome UltravioletConfig
    → Outcome (List ServerConfig)
    → Outcome (ServerCatalog ApiServer)
reload_server_catalog out uv cfgs = continue uv (λ cfg. continue cfgs (λ new_cfgs. ok (
    new_server_catalog (add_servers out new_cfgs []) (default_status_pk out cfg)
      (verify_connection_pk cfg))))
