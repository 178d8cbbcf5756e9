-- ===== src/Mc/Packet.antt =====
-- mc/packet.go: packets and the frames that carry them.
pub mod RoundTrip
pub mod Failures
use ipojknm.Prelude.{
  Bool, false, ℕ, zero, suc, ◌+◌, ◌%◌, ◌^◌, bit_or, List, [], ◌∷◌, ◌++◌, length, take, drop, ltb,
  leb, ◌==◌, ◌||◌, if◌then◌else◌,
}
use ipojknm.Errors.{
  GoError, eof, packet_too_short, read_content_failed, Outcome, ok, err, fault, continue,
}
use ipojknm.Mc.Reader.{Decoder, pure, raise, lift, ◌>>=◌}
use ipojknm.Mc.VarInt.{to_u32, encode, decode, read_var_int, read_var_int_byte_reader}

pub record Packet : Type 0 where
  pub id : ℕ
  pub content : List ℕ

-- Packet{}
abbrev pub no_packet : Packet
no_packet = record { id = 0; content = [] }

-- Packet.Marshal: the length of the ID and the data as an int32, then both.
unfoldable pub marshal : Packet → List ℕ
marshal pk = let frame = pk.id ∷ pk.content in encode (to_u32 (length frame)) ++ frame

-- MarshalPacket: the fields come already encoded.
abbrev pub concat : List (List ℕ) → List ℕ
concat [] = []
concat (f ∷ fs) = f ++ concat fs

unfoldable pub marshal_packet : ℕ → List (List ℕ) → Packet
marshal_packet id fields = record { id = id; content = concat fields }

-- Packet.Scan with ScanFields: the fields are decoded in order from the data, by one decoder here.
unfoldable pub scan {ℓ} : {A : Type ℓ} → Packet → Decoder A → Outcome A
scan pk fields = continue (fields eof pk.content) (λ p. ok p.0)

-- A VarInt below 1: zero, or the sign bit is set.
abbrev pub is_below_one : ℕ → Bool
is_below_one p = p == 0 || leb (2 ^ 31) p

-- io.ReadFull into a slice of n bytes; every error of it is wrapped by the verb %v.
unfoldable pub read_full : ℕ → Decoder (List ℕ)
read_full n e bs = if ltb (length bs) n then err read_content_failed else ok (take n bs, drop n bs)

-- ReadPacketBytes
unfoldable pub read_packet_bytes : Decoder (List ℕ)
read_packet_bytes = do
  packet_length ← decode
  if is_below_one packet_length then raise packet_too_short else read_full packet_length

-- Packet{ID: data[0], Data: data[1:]}
unfoldable pub packet_of : List ℕ → Outcome Packet
packet_of [] = fault
packet_of (b ∷ bs) = ok (record { id = b; content = bs })

-- ReadPacketOld
unfoldable pub read_packet_old : Decoder Packet
read_packet_old = do frame ← read_packet_bytes; lift (packet_of frame)

-- ReadPacket
unfoldable pub read_packet : Decoder Packet
read_packet = do
  packet_length ← read_var_int
  if is_below_one packet_length
      then raise packet_too_short
      else do frame ← read_full packet_length; lift (packet_of frame)

-- ReadPacket3: the length is the uint32 as an int, so only 0 is below 1.
unfoldable pub read_packet3 : Decoder Packet
read_packet3 = do
  packet_length ← read_var_int_byte_reader
  if ltb packet_length 1
      then raise packet_too_short
      else do frame ← read_full packet_length; lift (packet_of frame)

-- ReadPacket_WithBytes: a reader of the bytes, whose end is io.EOF.
unfoldable pub read_packet_with_bytes : List ℕ → Outcome Packet
read_packet_with_bytes b = continue (read_packet3 eof b) (λ p. ok p.0)
