-- ===== src/V2/Packet.antt =====
-- src/type.go and src/packet.go: strings, shorts, the handshake and its frame.
pub mod Frames
pub mod Handshakes
use ipojknm.Prelude.{
  Bool, true, false, ℕ, zero, suc, ◌+◌, ◌*◌, ◌%◌, ◌^◌, bit_or, Option, none, some, List, [], ◌∷◌,
  ◌++◌, length, ltb, leb, ◌==◌, ◌||◌, if◌then◌else◌,
}
use ipojknm.V2.Writer.{◌>>=◌}
use ipojknm.Prelude.Text.{GoString}
use ipojknm.Errors.{GoError, eof, other, Outcome, ok, err, fault, continue}
use ipojknm.Mc.VarInt.{is_negative}
use ipojknm.Mc.Field.{encode_short, short_of}
use ipojknm.V2.Source.{Source, read_byte, read_into, read_exactly}
use ipojknm.V2.VarInt.{read_var_int, write_var_int}

-- The rest of ReadString behind its length; a negative length makes `make` panic.
read_text : GoError → ℕ → Source → Outcome (GoString × Source)
read_text e n src = if is_negative n then fault else read_into n e src

-- ReadString
unfoldable pub read_string : GoError → Source → Outcome (GoString × Source)
unfolding read_text
read_string e src = let (n, src') = read_var_int src in read_text e n src'

-- WriteString
unfoldable pub write_string : GoString → Option (List ℕ)
write_string s = do m ← write_var_int (length s); some (m ++ s)

-- ReadShort, WriteShort: two bytes, the high one first
unfoldable pub read_short : GoError → Source → Outcome (ℕ × Source)
read_short e src = continue (read_exactly 2 e src) (λ p. continue (short_of p.0) (λ n. ok (n, p.1)))

unfoldable pub write_short : ℕ → List ℕ
write_short n = encode_short n

-- ServerBoundHandshakePacket
pub record HandshakePacket : Type 0 where
  pub packet_id : ℕ
  pub protocol_version : ℕ
  pub server_address : GoString
  pub server_port : ℕ
  pub next_state : ℕ

-- The buffer that WriteTo fills; none where a VarInt does not end.
unfoldable pub body_of : HandshakePacket → Option (List ℕ)
body_of pk = do
  version ← write_var_int pk.protocol_version
  address ← write_string pk.server_address
  state ← write_var_int pk.next_state
  some (pk.packet_id ∷ version ++ (address ++ (write_short pk.server_port ++ state)))

-- ServerBoundHandshakePacket.WriteTo: the length and the buffer.
unfoldable pub write_to : HandshakePacket → Option (List ℕ)
write_to pk = do buf ← body_of pk; m ← write_var_int (length buf); some (m ++ buf)

-- The result of ReadServerBoundHandshake: the fields that were read, and the error.
abbrev pub Parsed : Type 0
Parsed = HandshakePacket × Option GoError

read_rest : GoError → HandshakePacket → Outcome (ℕ × Source) → Outcome Parsed
read_rest e pk (ok (port, src)) =
    ok (record pk { server_port = port; next_state = (read_var_int src).0 }, none)
read_rest e pk (err x) = ok (pk, some x)
read_rest e pk fault = fault

read_address : GoError → HandshakePacket → Outcome (GoString × Source) → Outcome Parsed
unfolding read_rest
read_address e pk (ok (address, src)) =
    read_rest e (record pk { server_address = address }) (read_short e src)
read_address e pk (err x) = ok (pk, some x)
read_address e pk fault = fault

-- ReadServerBoundHandshake
unfoldable pub read_handshake : GoError → Source → Outcome Parsed
unfolding read_address
read_handshake e src =
    let (id, src1) = read_byte src in
    let (version, src2) = read_var_int src1 in
    read_address e
      (record {
        packet_id = id;
        protocol_version = version;
        server_address = [];
        server_port = 0;
        next_state = 0;
      })
      (read_string e src2)

-- A length below 1: zero or negative.
abbrev pub below_one : ℕ → Bool
below_one n = n == 0 || is_negative n

-- ReadPacketData, in src/server.go: one Read for the whole frame.
unfoldable pub read_packet_data : GoError → Source → Outcome (List ℕ × Source)
read_packet_data e src =
    let (n, src') = read_var_int src in if below_one n then ok ([], src') else read_into n e src'
