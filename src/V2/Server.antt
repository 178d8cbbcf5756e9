-- ===== src/V2/Server.antt =====
-- src/server.go: the listeners of the second version, for Bedrock datagrams and for Java connections.
pub mod Bedrock
pub mod Java
pub mod Run
use ipojknm.Prelude.{ℕ, Option, none, some, List, [], ◌∷◌, ◌++◌, ◌==◌, ◌||◌, if◌then◌else◌}
use ipojknm.Prelude.Text.{GoString}
use ipojknm.Prelude.Table.{Table, lookup, insert}
use ipojknm.Errors.{GoError, no_server_found, other, eof, Outcome, ok, err, fault, continue}
use ipojknm.Manager.{insert_each}
use ipojknm.V2.Source.{Source}
use ipojknm.V2.Writer.{◌>>=◌}
use ipojknm.V2.Config.{BedrockServerConfig, JavaConfig, status}
use ipojknm.V2.Raknet.{
  UnconnectedPing, UnconnectedPong, empty_ping, read_ping, write_pong, id_unconnected_ping,
  id_unconnected_ping_open_connections,
}
use ipojknm.V2.Packet.{HandshakePacket, write_to, read_handshake, read_packet_data}

-- The connections to Bedrock servers by the client's IP; none is the nil of a Dial that has failed.
abbrev pub Connections : Type 0
Connections = Table (Option ℕ)

-- What `serve` does besides its map: a datagram to the client, the goroutine that copies a server's
-- datagrams to the client, and a datagram to a server.
pub data Effect : Type 0 where
  answered : List ℕ → Effect
  copying : ℕ → Effect
  sent : ℕ → List ℕ → Effect

abbrev pub Served : Type 0
Served = List Effect × Connections

-- `fmt.Errorf("error reading unconnected ping: %v", err)`
abbrev pub bad_ping : GoError
bad_ping = other 5

-- The end of handleUnconnectedPing behind its Read.
answer : BedrockServerConfig → Connections → UnconnectedPing × Option GoError → Outcome Served
answer cfg connections (pk, some e) = err bad_ping
answer cfg connections (pk, none) =
    let pong : UnconnectedPong = record {
      send_timestamp = pk.send_timestamp;
      magic = [];
      server_guid = cfg.id;
      text = status cfg;
    } in
    ok (answered (write_pong pong) ∷ [], connections)

-- handleUnconnectedPing
unfoldable pub handle_unconnected_ping : BedrockServerConfig → Connections → List ℕ → Outcome Served
unfolding answer
handle_unconnected_ping cfg connections b = answer cfg connections (read_ping empty_ping b)

-- The Write to a connection; on nil it panics.
send : List Effect → Connections → Option ℕ → List ℕ → Outcome Served
send effects connections none bb = fault
send effects connections (some conn) bb = ok (effects ++ sent conn bb ∷ [], connections)

started : Option ℕ → List Effect
started none = []
started (some conn) = copying conn ∷ []

-- The rest of `default:`, by what the map holds and what net.Dial gives.
forward : Connections → Option (Option ℕ) → GoString → Option ℕ → List ℕ → Outcome Served
unfolding send started
forward connections (some conn) ip dialed bb = send [] connections conn bb
forward connections none ip dialed bb =
    send (started dialed) (insert ip dialed connections) dialed bb

-- serve: `ip` is the client's, `dialed` what net.Dial gives for cfg.ProxyTo if it is called.
unfoldable pub serve :
    BedrockServerConfig → GoString → Option ℕ → List ℕ → Connections → Outcome Served
unfolding forward
serve cfg ip dialed [] connections = forward connections (lookup ip connections) ip dialed []
serve cfg ip dialed (packet_id ∷ b) connections =
    if packet_id == id_unconnected_ping || packet_id == id_unconnected_ping_open_connections
    then handle_unconnected_ping cfg connections b
    else forward connections (lookup ip connections) ip dialed (packet_id ∷ b)

-- A datagram of a listener: who sent it, what a Dial for it gives, and its bytes.
pub record Datagram : Type 0 where
  pub ip : GoString
  pub dialed : Option ℕ
  pub bytes : List ℕ

-- The map behind one `serve`; an error leaves it, and behind a panic there is no other datagram.
behind : Outcome Served → Connections → Connections
behind (ok served) connections = served.1
behind (err e) connections = connections
behind fault connections = connections

-- The loop of StartBedrockServer, with each goroutine run to its end before the next: the code does
-- not guard the map, so other orders are races.
unfoldable pub start_bedrock_server :
    BedrockServerConfig → List Datagram → Connections → Connections
unfolding behind
start_bedrock_server cfg [] connections = connections
start_bedrock_server cfg (d ∷ ds) connections =
    start_bedrock_server cfg ds (behind (serve cfg d.ip d.dialed d.bytes connections) connections)

-- The map Servers behind the loop of Run over the Java configs.
unfoldable pub register : List JavaConfig → Table GoString → Table GoString
register [] servers = servers
register (cfg ∷ cfgs) servers = register cfgs (insert_each cfg.domains cfg.base.listen_to servers)

address_or_error : Option GoString → Outcome GoString
address_or_error none = err no_server_found
address_or_error (some addr) = ok addr

-- ServerAddress
unfoldable pub server_address : Table GoString → HandshakePacket → Outcome GoString
unfolding address_or_error
server_address servers pk = address_or_error (lookup pk.server_address servers)

-- `addr, _ := ServerAddress(pk)`
unfoldable pub value_or_empty : Outcome GoString → GoString
value_or_empty (ok addr) = addr
value_or_empty (err e) = []
value_or_empty fault = []

-- The server's connection and what was written to it.
abbrev pub Connected : Type 0
Connected = ℕ × List ℕ

write_handshake : Outcome ℕ → HandshakePacket → Option (Option Connected)
write_handshake (ok server) pk = do bb ← write_to pk; some (some (server, bb))
write_handshake _ pk = some none

-- ConnectToServer: the outer none where the loop of a VarInt does not end, the inner one for the nil
-- connection. `dial` is net.Dial to a TCP address.
unfoldable pub connect_to_server :
    (GoString → Outcome ℕ) → Table GoString → HandshakePacket → Option (Option Connected)
unfolding write_handshake
connect_to_server dial servers pk =
    write_handshake (dial (value_or_empty (server_address servers pk))) pk

-- What ProxyConnection is called with: the server, what it was sent, and what is left to read from
-- the client. It reads from nil where there is no server, which panics.
abbrev pub Joined : Type 0
Joined = ℕ × List ℕ × Source

proxied : Source → Option Connected → Outcome Joined
proxied client none = fault
proxied client (some (server, bb)) = ok (server, bb, client)

join_server :
    (GoString → Outcome ℕ)
    → Table GoString
    → Source
    → Outcome (HandshakePacket × Option GoError)
    → Option (Outcome Joined)
unfolding proxied
join_server dial servers client (ok (pk, e)) = do
  c ← connect_to_server dial servers pk
  some (proxied client c)
join_server dial servers client (err e) = some (err e)
join_server dial servers client fault = some fault

handle_data :
    (GoString → Outcome ℕ) → Table GoString → Outcome (List ℕ × Source) → Option (Outcome Joined)
unfolding join_server
handle_data dial servers (ok (data', client)) =
    join_server dial servers client (read_handshake eof (data', []))
handle_data dial servers (err e) = some (err e)
handle_data dial servers fault = some fault

-- ProcessConnection up to ProxyConnection: none where it does not end. `e` is the error behind the
-- client's last segment.
unfoldable pub process_connection :
    (GoString → Outcome ℕ) → Table GoString → GoError → Source → Option (Outcome Joined)
unfolding handle_data
process_connection dial servers e client = handle_data dial servers (read_packet_data e client)
