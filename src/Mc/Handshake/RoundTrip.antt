-- ===== src/Mc/Handshake/RoundTrip.antt =====
-- Handshakes: what was marshalled is unmarshalled.
use ipojknm.Prelude.{◌%◌, ◌^◌, ◌<◌, ◌≡◌, [], ◌++◌, length, arith}
use ipojknm.Errors.{eof, ok}
use ipojknm.Mc.VarInt.{to_u32, int_of_int32, encode}
use ipojknm.Mc.VarInt.RoundTrip.{decode-encode}
use ipojknm.Mc.Field.{encode_string, encode_short}
use ipojknm.Mc.Field.Shorts.{decode_short-encode_short}
use ipojknm.Mc.Field.RoundTrip.{decode_string-encode_string}
use ipojknm.Mc.Packet.{marshal_packet, scan}
use ipojknm.Mc.Handshake.{
  ServerBoundHandshake, marshal_handshake, unmarshal_handshake, scan_handshake,
}

-- What the Go types and the wire format allow: an int that an int32 holds, a string below 2 GiB, an
-- int16 and a byte.
pub record IsWire (hs : ServerBoundHandshake) : Type 0 where
  pub version : int_of_int32 (to_u32 hs.protocol_version) ≡ hs.protocol_version
  pub address : length hs.server_address < 2 ^ 31
  pub port : hs.server_port < 2 ^ 16
  pub next : hs.next_state < 2 ^ 8

-- A handshake is read back from its packet.
pub unmarshal_handshake-marshal_handshake :
    (hs : ServerBoundHandshake) → IsWire hs → unmarshal_handshake (marshal_handshake hs) ≡ ok hs
unfolding unmarshal_handshake marshal_handshake marshal_packet scan scan_handshake
unmarshal_handshake-marshal_handshake hs w =
    rw
      (
        decode-encode (to_u32 hs.protocol_version) eof
            (encode_string hs.server_address
              ++ (encode_short (hs.server_port % 2 ^ 16) ++ (encode (to_u32 hs.next_state) ++ [])))
            (omega arith),
        decode_string-encode_string hs.server_address eof
            (encode_short (hs.server_port % 2 ^ 16) ++ (encode (to_u32 hs.next_state) ++ []))
            w.address,
        decode_short-encode_short (hs.server_port % 2 ^ 16) eof
            (encode (to_u32 hs.next_state) ++ []) (omega arith),
        decode-encode (to_u32 hs.next_state) eof [] (omega arith),
        w.version,
      )
      (ground arith)
