-- ===== src/Tests/Wire.antt =====
-- Packages mc's codecs at concrete packets.
use mathlib.Core.List.{append-nil}
use ipojknm.Prelude.{none, true, false}
use ipojknm.Errors.{err, no_server_conn}
use ipojknm.Agents.{Exchange}
use ipojknm.Config.{BackendWorkerConfig, default_server_config}
use ipojknm.Config.Convert.{Outside, not_exist, converted}
use ipojknm.Core.{RequestData}
use ipojknm.Backend.{Env}
use ipojknm.Backend.Server.{create_conn}
use ipojknm.Backend.Settings.{new_backend_worker}
use ipojknm.Ingress.Backends.{Workers, process}
use ipojknm.Ingress.Backends.Unconnected.{new_backend_worker-HasCache, process_unconnected}
use ipojknm.Root.Basic.{proxied}
use ipojknm.Root.Client.{Client}
use ipojknm.Prelude.{some, List}
use ipojknm.Mc.VarInt.{read_var_int, decode_loop}
use ipojknm.Mc.Packet.{scan, read_full, packet_of}
use ipojknm.Mc.Field.{decode_string, decode_short, read_n_bytes, read_loop, short_of}
use ipojknm.Mc.Handshake.{scan_handshake}
use ipojknm.Mc.Handshake.Ranges.{read_packet-unmarshal_handshake_again}
use ipojknm.Prelude.Text.{to_lower, str_eq_self}
use ipojknm.Prelude.Table.{lookup}
use ipojknm.Mc.Packet.{no_packet}
use ipojknm.Mc.Handshake.{login}
use ipojknm.Core.{ServerCatalog, new_server_catalog}
use ipojknm.Ingress.{process_connection}
use ipojknm.Ingress.Logins.{process_connection_login}
use ipojknm.Prelude.{ℕ, ◌+◌, ◌^◌, ◌<◌, ◌≡◌, refl, [], ◌∷◌, ◌++◌, length, arith}
use ipojknm.Prelude.Text.{GoString, bytes_of}
use ipojknm.Prelude.Split.{before, cut, starts_with}
use ipojknm.Errors.{eof, ok, fault}
use ipojknm.Mc.VarInt.{int_of_int32, encode, decode}
use ipojknm.Mc.VarInt.RoundTrip.{decode-encode}
use ipojknm.Mc.Field.{encode_string, encode_short}
use ipojknm.Mc.Packet.{Packet, marshal, marshal_packet, read_packet}
use ipojknm.Mc.Packet.RoundTrip.{read_packet-marshal}
use ipojknm.Mc.Handshake.{ServerBoundHandshake, marshal_handshake, unmarshal_handshake}
use ipojknm.Mc.Handshake.RoundTrip.{IsWire, unmarshal_handshake-marshal_handshake}
use ipojknm.Mc.Handshake.Panics.{unmarshal_handshake_panics}
use ipojknm.Mc.Login.{ServerLoginStart, marshal_login_start}
use ipojknm.Mc.RealIp.{forge_separator, parse_server_address, upgrade_to_old_real_ip}
use ipojknm.Mc.RealIp.Upgrade.{Lacks, parse_server_address-upgrade}

decode-encode_example : decode eof (encode 25565 ++ 7 ∷ []) ≡ ok (25565, 7 ∷ [])
decode-encode_example = decode-encode 25565 eof (7 ∷ []) (omega arith)

abbrev host : GoString
host = bytes_of "mc.example.com"

abbrev a_packet : Packet
a_packet = record { id = 0x0E; content = 1 ∷ 2 ∷ 3 ∷ [] }

read_packet-marshal_example : read_packet eof (marshal a_packet ++ 4 ∷ []) ≡ ok (a_packet, 4 ∷ [])
read_packet-marshal_example = read_packet-marshal a_packet eof (4 ∷ []) (omega arith)

abbrev a_handshake : ServerBoundHandshake
a_handshake = record {
  protocol_version = 755;
  server_address = host;
  server_port = 25565;
  next_state = 2;
}

a_handshake-IsWire : IsWire a_handshake
unfolding int_of_int32
a_handshake-IsWire = record {
  version = refl;
  address = omega arith;
  port = omega arith;
  next = omega arith;
}

unmarshal_handshake-marshal_handshake_example :
    unmarshal_handshake (marshal_handshake a_handshake) ≡ ok a_handshake
unmarshal_handshake-marshal_handshake_example =
    unmarshal_handshake-marshal_handshake a_handshake a_handshake-IsWire

a_handshake-small : length (marshal_handshake a_handshake).content + 1 < 2 ^ 31
unfolding marshal_handshake marshal_packet encode encode_string encode_short
a_handshake-small = omega arith

unmarshal_handshake_panics_example :
    unmarshal_handshake (record { id = 0; content = encode 755 ++ (encode 4294967295 ++ 1 ∷ []) })
    ≡ fault
unmarshal_handshake_panics_example =
    unmarshal_handshake_panics 755 4294967295 (1 ∷ []) (omega arith) (omega arith) (omega arith)

abbrev a_login : ServerLoginStart
a_login = record { name = bytes_of "Steve" }

abbrev client : GoString
client = bytes_of "10.0.0.7:40000"

client-Lacks : Lacks 0 client
client-Lacks = omega arith

host_plain : Lacks b'/' (before forge_separator a_handshake.server_address)
unfolding before cut starts_with
host_plain = omega arith

parse_server_address-upgrade_example :
    parse_server_address (upgrade_to_old_real_ip client 1625000000 a_handshake)
    ≡ parse_server_address a_handshake
parse_server_address-upgrade_example =
    parse_server_address-upgrade client 1625000000 a_handshake client-Lacks host_plain

login_handshake-small : length (marshal_login_start a_login).content + 1 < 2 ^ 31
unfolding marshal_login_start marshal_packet encode encode_string
login_handshake-small = omega arith

abbrev a_catalog : ServerCatalog ℕ
a_catalog =
    new_server_catalog ((to_lower (parse_server_address a_handshake), 7) ∷ []) no_packet no_packet

a_catalog-knows :
    lookup (to_lower (parse_server_address a_handshake)) a_catalog.server_dict ≡ some 7
unfolding new_server_catalog lookup
a_catalog-knows = rw (str_eq_self (to_lower (parse_server_address a_handshake)))

process_connection_login_example :
    process_connection
      (some client)
      a_catalog
      eof
      (marshal (marshal_handshake a_handshake) ++ (marshal (marshal_login_start a_login) ++ 1 ∷ []))
    ≡ ok (
      (
        7,
        record {
          type = login;
          handshake = a_handshake;
          server_addr = to_lower (parse_server_address a_handshake);
          addr = some client;
          username = a_login.name;
        },
      ),
      1 ∷ [],
    )
process_connection_login_example =
    process_connection_login (some client) a_catalog 7 a_handshake a_login eof (1 ∷ [])
      a_catalog-knows a_handshake-IsWire refl a_handshake-small (omega arith) login_handshake-small

abbrev outside : Outside
outside = record {
  parse_duration = λ s. none;
  json_marshal = λ r. [];
  read_private_key = λ path. not_exist;
  existing_key = λ cfg. ok none;
  generate_keys = λ cfg. ok none;
}

abbrev quiet : Exchange
quiet = record {
  dial = none;
  write_handshake = none;
  write_request = none;
  answer = [];
  at_end = eof;
}

abbrev env : Env
env = record {
  agent_clock = λ k. 100;
  agent_dial = none;
  cache_clock = λ k. 100;
  exchange = quiet;
  limiter_clock = λ k. 100;
  stamp = 1625000000;
}

-- The defaults of a server's config.
abbrev backend : BackendWorkerConfig
backend = converted outside default_server_config host none

backend_caches : backend.cache_status ≡ true
unfolding converted default_server_config
backend_caches = refl

abbrev workers : Workers
workers b = new_backend_worker 0 backend

abbrev player : Client
player = record {
  addr = some client;
  incoming =
      (marshal (marshal_handshake a_handshake) ++ (marshal (marshal_login_start a_login) ++ []))
      ∷ [];
  at_end = eof;
  write_error = none;
  written = [];
  closed = false;
}

process_unconnected_example :
    (req : RequestData) × (c' : Client) × (workers' : Workers) × (process env a_catalog player
        workers
      ≡ proxied req c' workers')
    × (req.username ≡ a_login.name)
    × (c'.closed ≡ player.closed)
    × (create_conn env none none req (workers' 7) ≡ err no_server_conn)
process_unconnected_example =
    process_unconnected env env none none a_catalog 7 a_handshake a_login [] player workers
      a_catalog-knows a_handshake-IsWire refl a_handshake-small (omega arith) login_handshake-small
      (append-nil _) (new_backend_worker-HasCache 0 backend backend_caches)

abbrev small_frame : List ℕ
small_frame = 7 ∷ 0 ∷ 47 ∷ 1 ∷ b'a' ∷ 99 ∷ 221 ∷ 1 ∷ []

abbrev small_packet : Packet
small_packet = record { id = 0; content = 47 ∷ 1 ∷ b'a' ∷ 99 ∷ 221 ∷ 1 ∷ [] }

abbrev small_handshake : ServerBoundHandshake
small_handshake = record {
  protocol_version = 47;
  server_address = b'a' ∷ [];
  server_port = 25565;
  next_state = 1;
}

small_read : read_packet eof small_frame ≡ ok (small_packet, [])
unfolding read_packet read_var_int decode_loop read_full packet_of
small_read = refl

small_parsed : unmarshal_handshake small_packet ≡ ok small_handshake
unfolding unmarshal_handshake scan scan_handshake decode decode_loop decode_string decode_short
    read_n_bytes read_loop short_of int_of_int32
small_parsed = refl

read_packet-unmarshal_handshake_again_example :
    unmarshal_handshake (marshal_handshake small_handshake) ≡ ok small_handshake
read_packet-unmarshal_handshake_again_example =
    read_packet-unmarshal_handshake_again eof small_frame [] small_packet small_handshake
      (omega arith) small_read small_parsed
