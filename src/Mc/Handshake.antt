-- ===== src/Mc/Handshake.antt =====
-- mc/packet_login.go: the handshake packet. `protocol_version` is the 64-bit pattern of an int,
-- `server_port` the 16-bit pattern of an int16, `next_state` a byte.
pub mod RoundTrip
pub mod ByteReader
pub mod Panics
pub mod Ranges
use ipojknm.Prelude.{
  Bool, true, false, ℕ, zero, suc, ◌+◌, ◌%◌, ◌^◌, List, [], ◌∷◌, ◌++◌, length, ltb, leb, ◌==◌,
  if◌then◌else◌,
}
use ipojknm.Prelude.Text.{GoString, bytes_of, decimal}
use ipojknm.Prelude.Split.{split, split_n, first}
use ipojknm.Errors.{
  GoError, eof, invalid_packet_id, packet_too_short, Outcome, ok, err, fault, continue,
}
use ipojknm.Mc.Reader.{Decoder, pure, raise, lift, ◌>>=◌, read_byte}
use ipojknm.Mc.VarInt.{to_u32, int_of_int32, encode, decode, read_var_int_byte_reader}
use ipojknm.Mc.Field.{
  encode_string, decode_string, encode_short, decode_short, read_string_byte_reader,
  read_short_byte_reader,
}
use ipojknm.Mc.Packet.{Packet, marshal_packet, scan}

-- HandshakeState
pub data HandshakeState : Type 0 where
  unknown_state status login : HandshakeState

-- RequestState
unfoldable pub request_state : ℕ → HandshakeState
request_state n = if n == 1 then status else if n == 2 then login else unknown_state

pub record ServerBoundHandshake : Type 0 where
  pub protocol_version : ℕ
  pub server_address : GoString
  pub server_port : ℕ
  pub next_state : ℕ

-- The zero value of the struct.
abbrev pub no_handshake : ServerBoundHandshake
no_handshake = record { protocol_version = 0; server_address = []; server_port = 0; next_state = 0 }

-- McTypesHandshake
pub record McTypesHandshake : Type 0 where
  pub protocol_version : ℕ
  pub server_address : GoString
  pub server_port : ℕ
  pub next_state : ℕ

abbrev pub server_bound_handshake_packet_id : ℕ
server_bound_handshake_packet_id = 0x00

-- ServerBoundHandshake.Marshal
unfoldable pub marshal_handshake : ServerBoundHandshake → Packet
marshal_handshake pk = marshal_packet server_bound_handshake_packet_id (
    encode (to_u32 pk.protocol_version)
    ∷ encode_string pk.server_address
    ∷ encode_short (pk.server_port % 2 ^ 16)
    ∷ encode (to_u32 pk.next_state)
    ∷ [])

-- The fields that UnmarshalServerBoundHandshake scans.
unfoldable pub scan_handshake : Decoder McTypesHandshake
scan_handshake = do
  version ← decode
  address ← decode_string
  port ← decode_short
  state ← decode
  pure (record {
    protocol_version = version;
    server_address = address;
    server_port = port;
    next_state = state;
  })

-- UnmarshalServerBoundHandshake
unfoldable pub unmarshal_handshake : Packet → Outcome ServerBoundHandshake
unmarshal_handshake packet =
    if packet.id == server_bound_handshake_packet_id
    then continue (scan packet scan_handshake) (λ pk. ok (record {
      protocol_version = int_of_int32 pk.protocol_version;
      server_address = pk.server_address;
      server_port = pk.server_port;
      next_state = pk.next_state % 2 ^ 8;
    }))
    else err invalid_packet_id

-- The four reads from a byte reader that three functions share.
unfoldable pub read_handshake_fields : Decoder ServerBoundHandshake
read_handshake_fields = do
  version ← read_var_int_byte_reader
  address ← read_string_byte_reader
  port ← read_short_byte_reader
  state ← read_var_int_byte_reader
  pure (record {
    protocol_version = version;
    server_address = address;
    server_port = port;
    next_state = state % 2 ^ 8;
  })

-- UnmarshalServerBoundHandshake2
unfoldable pub unmarshal_handshake2 : Packet → Outcome ServerBoundHandshake
unmarshal_handshake2 packet =
    if packet.id == server_bound_handshake_packet_id
    then scan packet read_handshake_fields
    else err invalid_packet_id

-- UnmarshalServerBoundHandshake_ByteReader
unfoldable pub unmarshal_handshake_byte_reader : Decoder ServerBoundHandshake
unmarshal_handshake_byte_reader = do
  packet_id ← read_byte
  if packet_id == server_bound_handshake_packet_id
      then read_handshake_fields
      else raise invalid_packet_id

-- ReadPacket3_Handshake: the frame's length is read and only tested; the ID is read as a VarInt.
unfoldable pub read_packet3_handshake : Decoder ServerBoundHandshake
read_packet3_handshake = do
  packet_length ← read_var_int_byte_reader
  if ltb packet_length 1 then raise packet_too_short else do
    packet_id ← read_var_int_byte_reader
    if packet_id == 0 then read_handshake_fields else raise invalid_packet_id

-- ServerBoundHandshake.State
unfoldable pub state : ServerBoundHandshake → HandshakeState
state hs =
    if hs.next_state == 1 then status else if hs.next_state == 2 then login else unknown_state

-- IsStatusRequest, IsLoginRequest
unfoldable pub is_status_request : ServerBoundHandshake → Bool
is_status_request hs = hs.next_state == 1

unfoldable pub is_login_request : ServerBoundHandshake → Bool
is_login_request hs = hs.next_state == 2
