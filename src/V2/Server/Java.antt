-- ===== src/V2/Server/Java.antt =====
-- Java connections of the second version: from the first segment to the server's connection.
use ipojknm.Prelude.{ℕ, none, some, true, false, ◌≡◌, refl, ◌∙◌, List, [], ◌∷◌, ◌++◌, All}
use ipojknm.Prelude.Text.{GoString}
use ipojknm.Prelude.Table.{Table, lookup}
use ipojknm.Errors.{GoError, eof, Outcome, ok, err, fault}
use ipojknm.Mc.Packet.{marshal}
use ipojknm.Mc.Handshake.{ServerBoundHandshake, marshal_handshake}
use ipojknm.Manager.{insert_each}
use ipojknm.Manager.Routes.{contains, lookup-insert_each}
use ipojknm.V2.Source.{}
use ipojknm.V2.VarInt.{}
use ipojknm.V2.VarInt.RoundTrip.{}
use ipojknm.V2.Packet.{}
use ipojknm.V2.Packet.Frames.{Fits, write_to-marshal, read_packet_data-marshal}
use ipojknm.V2.Packet.Handshakes.{read_handshake-marshal}
use ipojknm.V2.Config.{JavaConfig}
use ipojknm.V2.Server.{
  register, server_address, address_or_error, value_or_empty, connect_to_server, write_handshake,
  proxied, join_server, handle_data, process_connection,
}

registered_before :
    (d : GoString) (cfgs : List JavaConfig) (servers : Table GoString)
    → All (λ other. contains d other.domains ≡ false) cfgs
    → lookup d (register cfgs servers) ≡ lookup d servers
unfolding register
registered_before d [] servers h = refl
registered_before d (cfg ∷ cfgs) servers h =
    registered_before d cfgs (insert_each cfg.domains cfg.base.listen_to servers) h.1
    ∙ (lookup-insert_each d cfg.domains cfg.base.listen_to servers ∙ rw h.0)

-- Run maps a domain to the address that the last config with it listens to, not to the one it is a
-- proxy for.
pub register_listens :
    (d : GoString) (earlier : List JavaConfig) (cfg : JavaConfig) (later : List JavaConfig)
    (servers : Table GoString)
    → contains d cfg.domains ≡ true
    → All (λ other. contains d other.domains ≡ false) later
    → lookup d (register (earlier ++ cfg ∷ later) servers) ≡ some cfg.base.listen_to
unfolding register
register_listens d [] cfg later servers h none_later =
    registered_before d later (insert_each cfg.domains cfg.base.listen_to servers) none_later
    ∙ (lookup-insert_each d cfg.domains cfg.base.listen_to servers ∙ rw h)
register_listens d (c ∷ earlier) cfg later servers h none_later =
    register_listens d earlier cfg later (insert_each c.domains c.base.listen_to servers) h
      none_later

-- Where one segment holds the whole handshake and the server can be dialed, the server gets the same
-- bytes, and the client's connection is handed on with what stands behind the handshake.
pub process_connection-marshal :
    (dial : GoString → Outcome ℕ) (servers : Table GoString) (hs : ServerBoundHandshake)
    (addr : GoString) (conn : ℕ) (extra : List ℕ) (e : GoError) (ss : List (List ℕ))
    → Fits hs
    → lookup hs.server_address servers ≡ some addr
    → dial addr ≡ ok conn
    → process_connection dial servers e (marshal (marshal_handshake hs) ++ extra, ss)
      ≡ some (ok (conn, marshal (marshal_handshake hs), (extra, ss)))
unfolding process_connection handle_data join_server connect_to_server write_handshake
    server_address address_or_error value_or_empty proxied
process_connection-marshal dial servers hs addr conn extra e ss f known dialed =
    rw
      (
        read_packet_data-marshal (marshal_handshake hs) extra e ss f.frame,
        read_handshake-marshal hs eof f,
        known,
        dialed,
        write_to-marshal hs f,
      )
      refl

-- A handshake for a domain that no config names makes the process panic, as a Dial to the empty
-- address fails and its error is passed over.
pub process_connection_unknown :
    (dial : GoString → Outcome ℕ) (servers : Table GoString) (hs : ServerBoundHandshake)
    (x : GoError) (extra : List ℕ) (e : GoError) (ss : List (List ℕ))
    → Fits hs
    → lookup hs.server_address servers ≡ none
    → dial [] ≡ err x
    → process_connection dial servers e (marshal (marshal_handshake hs) ++ extra, ss) ≡ some fault
unfolding process_connection handle_data join_server connect_to_server write_handshake
    server_address address_or_error value_or_empty proxied
process_connection_unknown dial servers hs x extra e ss f unknown refused =
    rw
      (
        read_packet_data-marshal (marshal_handshake hs) extra e ss f.frame,
        read_handshake-marshal hs eof f,
        unknown,
        refused,
      )
      refl
