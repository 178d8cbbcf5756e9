-- ===== src/Tests/Second.antt =====
-- The second version at concrete packets and datagrams.
use ipojknm.Prelude.{ℕ, ◌≡◌, refl, none, some, [], ◌∷◌, ◌++◌, arith}
use ipojknm.Prelude.Text.{GoString, bytes_of, str_eq}
use ipojknm.Prelude.Table.{Table, lookup}
use ipojknm.Errors.{eof, other, Outcome, ok, err, fault}
use ipojknm.Mc.VarInt.{encode}
use ipojknm.Mc.Field.{encode_string, encode_short}
use ipojknm.Mc.Packet.{marshal, marshal_packet}
use ipojknm.Mc.Handshake.{ServerBoundHandshake, marshal_handshake}
use ipojknm.V2.Source.{}
use ipojknm.V2.VarInt.{}
use ipojknm.V2.VarInt.RoundTrip.{}
use ipojknm.V2.Packet.{write_to}
use ipojknm.V2.Packet.Frames.{packet_of, Fits, write_to-marshal}
use ipojknm.V2.Config.{
  BedrockServerConfig, default_bedrock_server_config, status, string_to_bedrock_status,
}
use ipojknm.V2.Config.StatusText.{IsPlain, string_to_bedrock_status-status}
use ipojknm.V2.Raknet.{UnconnectedPing}
use ipojknm.V2.Server.{process_connection}
use ipojknm.V2.Server.Java.{process_connection_unknown}
use ipojknm.Prelude.{true, false}
use ipojknm.V2.Server.Run.{runs, refused, accept_each}
use ipojknm.V2.Server.Run.InTurn.{Caller, call_of, joined_of, IsServed, accept_each-in_turn}

abbrev hello : ServerBoundHandshake
hello = record {
  protocol_version = 755;
  server_address = bytes_of "mc.example.com";
  server_port = 25565;
  next_state = 2;
}

hello-Fits : Fits hello
unfolding marshal_handshake marshal_packet encode encode_string encode_short
hello-Fits = record {
  version = omega arith;
  address = omega arith;
  port = omega arith;
  next = omega arith;
  frame = omega arith;
}

write_to-marshal_example : write_to (packet_of hello) ≡ some (marshal (marshal_handshake hello))
write_to-marshal_example = write_to-marshal hello hello-Fits

abbrev bedrock : BedrockServerConfig
bedrock = default_bedrock_server_config 77

bedrock-IsPlain : IsPlain bedrock.server_status
unfolding default_bedrock_server_config
bedrock-IsPlain = record {
  edition = omega arith;
  text = omega arith;
  text_2 = tt;
  name = omega arith;
  mode = omega arith;
  protocol = omega arith;
  online = omega arith;
  max = omega arith;
  mode_id = omega arith;
  ipv4 = omega arith;
  ipv6 = omega arith;
}

string_to_bedrock_status-status_example :
    string_to_bedrock_status (status bedrock) ≡ ok bedrock.server_status
string_to_bedrock_status-status_example = string_to_bedrock_status-status bedrock bedrock-IsPlain

abbrev a_ping : UnconnectedPing
a_ping = record { send_timestamp = 1625000000; magic = []; client_guid = 99 }

abbrev dial : GoString → Outcome ℕ
dial [] = err (other 1)
dial (c ∷ addr) = ok 8

abbrev servers : Table GoString
servers = (bytes_of "mc.example.com", bytes_of ":25566") ∷ []

hello_known : lookup hello.server_address servers ≡ some (bytes_of ":25566")
unfolding lookup str_eq
hello_known = refl

abbrev a_caller : Caller
a_caller = record {
  handshake = hello;
  addr = bytes_of ":25566";
  conn = 8;
  extra = 9 ∷ [];
  later = [];
  last_error = eof;
}

a_caller-IsServed : IsServed dial servers a_caller
a_caller-IsServed = record { fits = hello-Fits; known = hello_known; dials = refl }

accept_each-in_turn_example :
    accept_each dial servers (call_of a_caller true ∷ (call_of a_caller false ∷ (refused ∷ []))) []
    ≡ (joined_of a_caller ∷ (joined_of a_caller ∷ []), runs)
accept_each-in_turn_example =
    accept_each-in_turn dial servers (a_caller ∷ []) a_caller (refused ∷ []) (a_caller-IsServed, tt)
      a_caller-IsServed

abbrev no_domains : Table GoString
no_domains = []

hello_unknown : lookup hello.server_address no_domains ≡ none
unfolding lookup
hello_unknown = refl

process_connection_unknown_example :
    process_connection dial no_domains eof (marshal (marshal_handshake hello) ++ 9 ∷ [], [])
    ≡ some fault
process_connection_unknown_example =
    process_connection_unknown dial no_domains hello (other 1) (9 ∷ []) eof [] hello-Fits
      hello_unknown refl
