-- ===== src/Tests/Serving.antt =====
-- The root package at concrete clients and configs.
use ipojknm.Prelude.{
  ◌||◌, false, ◌+◌, ◌^◌, ◌<◌, ◌≡◌, ◌≢◌, refl, none, some, [], ◌∷◌, ◌++◌, length, arith,
}
use ipojknm.Prelude.Text.{bytes_of, to_lower, str_eq}
use ipojknm.Prelude.Table.{lookup, insert, delete}
use ipojknm.Errors.{deadline_exceeded, other, ok, err}
use ipojknm.Mc.VarInt.{int_of_int32, encode}
use ipojknm.Mc.Field.{encode_string, encode_short}
use ipojknm.Mc.Packet.{Packet, no_packet, marshal, marshal_packet, concat}
use ipojknm.Mc.Handshake.{ServerBoundHandshake, marshal_handshake, login, no_handshake}
use ipojknm.Mc.Handshake.RoundTrip.{IsWire}
use ipojknm.Mc.RealIp.{parse_server_address}
use ipojknm.Core.{RequestData, ServerCatalog, ServerAction, new_server_catalog, find}
use ipojknm.Config.{ServerConfig, no_config, server_to_api_config}
use ipojknm.Config.Convert.{Outside, not_exist}
use ipojknm.Config.Ultraviolet.{default_ultraviolet_config, default_status_pk, verify_connection_pk}
use ipojknm.Manager.{insert_each}
use ipojknm.Backend.{new_disconnect_answer, BackendAction}
use ipojknm.Ingress.Answers.{process_answer}
use ipojknm.Ingress.Answers.Replies.{LeftClosed, process_answer_closes}
use ipojknm.Root.Client.{Client, receive}
use ipojknm.Root.Basic.{returned, full_run, read_stuff}
use ipojknm.Root.Basic.Closing.{leaves_open, wants_default, wants_proxy, leaves_open-full_run}
use ipojknm.Root.Basic.Runs.{sending, frames, full_run_default_status}
use ipojknm.Root.ApiServer.{
  ApiServer, api_server, bot_limiter, new_api_server, api_conn_action, api_create_conn,
}
use ipojknm.Root.Proxy.{add_servers, reload_server_catalog}
use ipojknm.Root.Proxy.Catalog.{reload_proxies_to_nowhere}
use ipojknm.Root.Proxy.Pool.{Phase, Pool, Step, Reach, start, IsSound, Reach-IsSound}

abbrev a_client : Client
a_client = record {
  addr = some (bytes_of "10.0.0.7:40000");
  incoming = [];
  at_end = deadline_exceeded;
  write_error = none;
  written = [];
  closed = false;
}

abbrev default_packet : Packet
default_packet = record { id = 0; content = 2 ∷ b'{' ∷ b'}' ∷ [] }

abbrev no_servers : ServerCatalog ApiServer
no_servers = new_server_catalog [] default_packet no_packet

leaves_open-full_run_example :
    leaves_open (full_run (api_server (λ k. 5)) no_servers a_client (bot_limiter 1)) ≡ (
      wants_default no_servers (receive (read_stuff a_client.addr) a_client).0
      || wants_proxy
          (api_server (λ k. 5))
          no_servers
          (bot_limiter 1)
          (receive (read_stuff a_client.addr) a_client).0)
leaves_open-full_run_example =
    leaves_open-full_run (api_server (λ k. 5)) no_servers a_client (bot_limiter 1) refl

abbrev asks : ServerBoundHandshake
asks = record {
  protocol_version = 755;
  server_address = bytes_of "mc.example.com";
  server_port = 25565;
  next_state = 1;
}

asks-IsWire : IsWire asks
unfolding int_of_int32
asks-IsWire = record {
  version = refl;
  address = omega arith;
  port = omega arith;
  next = omega arith;
}

asks-small : length (marshal_handshake asks).content + 1 < 2 ^ 31
unfolding marshal_handshake marshal_packet encode encode_string encode_short
asks-small = omega arith

abbrev status_request : Packet
status_request = no_packet

abbrev a_ping : Packet
a_ping = record { id = 1; content = 1 ∷ 2 ∷ 3 ∷ 4 ∷ 5 ∷ 6 ∷ 7 ∷ 8 ∷ [] }

serves_nothing : lookup (to_lower (parse_server_address asks)) no_servers.server_dict ≡ none
unfolding lookup new_server_catalog
serves_nothing = refl

ping_later : concat (marshal a_ping ∷ []) ≡ marshal a_ping ++ []
ping_later = refl

full_run_default_status_example :
    (c' : Client) × (full_run
        (api_server (λ k. 5))
        no_servers
        (sending a_client (frames asks status_request []) (marshal a_ping ∷ []))
        (bot_limiter 1)
      ≡ returned (ok tt) c' (bot_limiter 1))
    × (c'.written ≡ ([] ++ marshal no_servers.default_status_pk ∷ []) ++ marshal a_ping ∷ [])
full_run_default_status_example =
    full_run_default_status (api_server (λ k. 5)) no_servers a_client asks status_request []
      (bot_limiter 1) asks-IsWire refl asks-small (omega arith) refl serves_nothing a_ping []
      (marshal a_ping ∷ []) (omega arith) ping_later

abbrev outside : Outside
outside = record {
  parse_duration = λ s. none;
  json_marshal = λ r. [];
  read_private_key = λ path. not_exist;
  existing_key = λ cfg. ok none;
  generate_keys = λ cfg. ok none;
}

abbrev lobby : ServerConfig
lobby = record no_config {
  file_path = bytes_of "lobby.json";
  domains = bytes_of "mc.example.com" ∷ [];
  proxy_to = bytes_of "192.168.0.2:25566";
}

abbrev lobby_server : ApiServer
lobby_server = new_api_server outside (server_to_api_config lobby)

abbrev lobby_catalog : ServerCatalog ApiServer
lobby_catalog =
    new_server_catalog (add_servers outside (lobby ∷ []) [])
      (default_status_pk outside default_ultraviolet_config)
      (verify_connection_pk default_ultraviolet_config)

lobby_loads :
    reload_server_catalog outside (ok default_ultraviolet_config) (ok (lobby ∷ []))
    ≡ ok lobby_catalog
unfolding reload_server_catalog
lobby_loads = refl

lobby_found : find (bytes_of "mc.example.com") lobby_catalog ≡ ok lobby_server
unfolding find new_server_catalog add_servers insert_each insert delete lookup str_eq to_lower
lobby_found = refl

abbrev a_login : RequestData
a_login = record {
  type = login;
  handshake = no_handshake;
  server_addr = bytes_of "mc.example.com";
  addr = some (bytes_of "10.0.0.7:40000");
  username = bytes_of "Steve";
}

reload_proxies_to_nowhere_example :
    (api_conn_action (λ k. 5) lobby_server a_login (bot_limiter 1)
      ≡ some (ServerAction.proxy, bot_limiter 1))
    × (api_create_conn (λ addr. err (other 1)) none lobby_server ≡ err (other 1))
reload_proxies_to_nowhere_example =
    reload_proxies_to_nowhere outside default_ultraviolet_config (lobby ∷ []) lobby_catalog
      (bytes_of "mc.example.com") lobby_server (λ k. 5) a_login (bot_limiter 1)
      (λ addr. err (other 1)) none (other 1) lobby_loads lobby_found (λ e. cc) refl

abbrev one_waits : Pool
one_waits = record { phase = Phase.claiming; running = 0; accepted = 1; done = 0 }

one_comes : Reach start one_waits
one_comes = Reach.moved Reach.unmoved (Step.accept refl refl)

Reach-IsSound_example : IsSound one_waits
Reach-IsSound_example = Reach-IsSound one_waits one_comes

is_disconnect : (new_disconnect_answer no_packet).action ≢ BackendAction.error
unfolding new_disconnect_answer
is_disconnect e = cc

process_answer_closes_example :
    LeftClosed (process_answer none none a_client (new_disconnect_answer no_packet))
process_answer_closes_example =
    process_answer_closes none none a_client (new_disconnect_answer no_packet) is_disconnect
