-- ===== src/Mc/Handshake/ByteReader.antt =====
-- The parsers over a byte reader against `marshal_handshake`: they read the version as a uint32.
use mathlib.Core.List.{append_assoc, append-nil}
use ipojknm.Prelude.{
  ℕ, suc, ◌+◌, ◌%◌, ◌^◌, ◌<◌, ◌≡◌, refl, ◌∙◌, List, [], ◌∷◌, ◌++◌, length, arith, le→ltb,
}
use native.Mathlib.Numerals.{add-one}
use ipojknm.Errors.{GoError, eof, ok}
use ipojknm.Mc.VarInt.{to_u32, encode, read_var_int_byte_reader}
use ipojknm.Mc.VarInt.RoundTrip.{read_var_int_byte_reader-encode}
use ipojknm.Mc.Field.{encode_string, encode_short, decode_short, read_short_byte_reader}
use ipojknm.Mc.Field.Shorts.{decode_short-encode_short}
use ipojknm.Mc.Field.RoundTrip.{read_string_byte_reader-encode_string}
use ipojknm.Mc.Reader.{read_byte}
use ipojknm.Mc.Packet.{marshal, marshal_packet, scan}
use ipojknm.Mc.Handshake.{
  ServerBoundHandshake, marshal_handshake, read_handshake_fields, unmarshal_handshake2,
  unmarshal_handshake_byte_reader, read_packet3_handshake,
}
use ipojknm.Mc.Handshake.RoundTrip.{IsWire}

-- The handshake with its version as the uint32 that the wire carries.
abbrev pub unsigned_version : ServerBoundHandshake → ServerBoundHandshake
unsigned_version hs = record hs { protocol_version = to_u32 hs.protocol_version }

read_short-encode_short :
    (n : ℕ) (e : GoError) (rest : List ℕ)
    → n < 2 ^ 16
    → read_short_byte_reader e (encode_short n ++ rest) ≡ ok (n, rest)
unfolding read_short_byte_reader decode_short
read_short-encode_short = decode_short-encode_short

abbrev wire : ServerBoundHandshake → List ℕ → List ℕ
wire hs rest =
    encode (to_u32 hs.protocol_version)
    ++ (encode_string hs.server_address
        ++ (encode_short (hs.server_port % 2 ^ 16) ++ (encode (to_u32 hs.next_state) ++ rest)))

fields-wire :
    (hs : ServerBoundHandshake) (e : GoError) (rest : List ℕ)
    → IsWire hs
    → read_handshake_fields e (wire hs rest) ≡ ok (unsigned_version hs, rest)
unfolding read_handshake_fields
fields-wire hs e rest w =
    rw
      (
        read_var_int_byte_reader-encode (to_u32 hs.protocol_version) e
            (encode_string hs.server_address
              ++ (encode_short (hs.server_port % 2 ^ 16)
                  ++ (encode (to_u32 hs.next_state) ++ rest)))
            (omega arith),
        read_string_byte_reader-encode_string hs.server_address e
            (encode_short (hs.server_port % 2 ^ 16) ++ (encode (to_u32 hs.next_state) ++ rest))
            w.address,
        read_short-encode_short (hs.server_port % 2 ^ 16) e (encode (to_u32 hs.next_state) ++ rest)
            (omega arith),
        read_var_int_byte_reader-encode (to_u32 hs.next_state) e rest (omega arith),
      )
      (ground arith)

-- UnmarshalServerBoundHandshake2 reads the handshake back, with the version as a uint32: a negative
-- version comes out as a large positive number.
pub unmarshal_handshake2-marshal_handshake :
    (hs : ServerBoundHandshake)
    → IsWire hs
    → unmarshal_handshake2 (marshal_handshake hs) ≡ ok (unsigned_version hs)
unfolding unmarshal_handshake2 marshal_handshake marshal_packet scan
unmarshal_handshake2-marshal_handshake hs w = rw (fields-wire hs eof [] w)

content-wire :
    (hs : ServerBoundHandshake) (rest : List ℕ)
    → (marshal_handshake hs).content ++ rest ≡ wire hs rest
unfolding marshal_handshake marshal_packet
content-wire hs rest = simp (append_assoc, append-nil)

-- UnmarshalServerBoundHandshake_ByteReader does so from the packet's ID and data, and leaves what
-- follows them.
pub unmarshal_handshake_byte_reader-marshal_handshake :
    (hs : ServerBoundHandshake) (e : GoError) (rest : List ℕ)
    → IsWire hs
    → let pk = marshal_handshake hs in
      unmarshal_handshake_byte_reader e ((pk.id ∷ pk.content) ++ rest)
      ≡ ok (unsigned_version hs, rest)
unfolding unmarshal_handshake_byte_reader read_byte
unmarshal_handshake_byte_reader-marshal_handshake hs e rest w =
    rw (content-wire hs rest)
      (unfold marshal_handshake marshal_packet in rw (fields-wire hs e rest w))

zero_id : (e : GoError) (bs : List ℕ) → read_var_int_byte_reader e (0 ∷ bs) ≡ ok (0, bs)
unfolding read_var_int_byte_reader
zero_id e bs = refl

frame-wire :
    (hs : ServerBoundHandshake) (rest : List ℕ)
    → let pk = marshal_handshake hs in
      marshal pk ++ rest ≡ encode (to_u32 (length pk.content + 1)) ++ (0 ∷ wire hs rest)
unfolding marshal
frame-wire hs rest =
    let pk = marshal_handshake hs in
    append_assoc (encode (to_u32 (suc (length pk.content)))) (pk.id ∷ pk.content) rest
    ∙ rw (content-wire hs rest, add-one) (unfold marshal_handshake marshal_packet in refl)

-- ReadPacket3_Handshake reads the handshake back from its frame.
pub read_packet3_handshake-marshal_handshake :
    (hs : ServerBoundHandshake) (e : GoError) (rest : List ℕ)
    → IsWire hs
    → length (marshal_handshake hs).content + 1 < 2 ^ 31
    → read_packet3_handshake e (marshal (marshal_handshake hs) ++ rest)
      ≡ ok (unsigned_version hs, rest)
unfolding read_packet3_handshake
read_packet3_handshake-marshal_handshake hs e rest w h =
    let k : ℕ = length (marshal_handshake hs).content + 1 in
    rw (
      frame-wire hs rest,
      read_var_int_byte_reader-encode (to_u32 k) e (0 ∷ wire hs rest) (omega arith),
      le→ltb (to_u32 k) 1 (omega arith),
      zero_id e (wire hs rest),
      fields-wire hs e rest w,
    )
