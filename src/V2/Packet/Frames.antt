-- ===== src/V2/Packet/Frames.antt =====
-- src/packet.go and src/server.go: the handshake's frame against that of package mc.
use mathlib.Core.List.{append_assoc, append-nil}
use ipojknm.Prelude.{
  ℕ, ◌+◌, ◌-◌, ◌%◌, ◌^◌, ◌≤◌, ◌<◌, some, ◌≡◌, refl, List, [], ◌∷◌, ◌++◌, length, length-append,
  take-append_self, drop-append_self, arith, false, take_all, drop_all,
}
use ipojknm.Prelude.Text.{GoString}
use ipojknm.Errors.{GoError, Outcome, ok}
use ipojknm.Mc.VarInt.{IsU32, encode, to_u32}
use ipojknm.Mc.Field.{encode_string}
use ipojknm.Mc.Packet.{Packet, marshal, marshal_packet}
use ipojknm.Mc.Handshake.{ServerBoundHandshake, marshal_handshake}
use ipojknm.V2.Source.{Source, zeros, fill, one_read, read_into}
use ipojknm.V2.VarInt.{}
use ipojknm.V2.VarInt.RoundTrip.{write_var_int-encode, read_var_int-encode}
use ipojknm.V2.Packet.{
  HandshakePacket, write_string, write_short, body_of, write_to, read_packet_data, below_one,
}

-- The same handshake as the second version holds it.
abbrev pub packet_of : ServerBoundHandshake → HandshakePacket
packet_of hs = record {
  packet_id = 0;
  protocol_version = hs.protocol_version;
  server_address = hs.server_address;
  server_port = hs.server_port;
  next_state = hs.next_state;
}

-- The fields fit: in particular the protocol version is not negative.
pub record Fits (hs : ServerBoundHandshake) : Type 0 where
  pub version : IsU32 hs.protocol_version
  pub address : length hs.server_address < 2 ^ 31
  pub port : hs.server_port < 2 ^ 16
  pub next : hs.next_state < 2 ^ 8
  pub frame : length (marshal_handshake hs).content + 1 < 2 ^ 31

write_string-encode : (s : GoString) → length s < 2 ^ 31 → write_string s ≡ some (encode_string s)
unfolding write_string encode_string
write_string-encode s h =
    let same : to_u32 (length s) ≡ length s = omega arith in
    rw (write_var_int-encode (length s) (omega arith), same) refl

body-marshal :
    (hs : ServerBoundHandshake)
    → Fits hs
    → body_of (packet_of hs) ≡ some ((marshal_handshake hs).id ∷ (marshal_handshake hs).content)
unfolding body_of marshal_handshake marshal_packet write_short
body-marshal hs f =
    let version : to_u32 hs.protocol_version ≡ hs.protocol_version = omega (arith, f.version) in
    let port : hs.server_port % 2 ^ 16 ≡ hs.server_port = omega (arith, f.port) in
    let next : to_u32 hs.next_state ≡ hs.next_state = omega (arith, f.next) in
    simp (
      version,
      port,
      next,
      write_var_int-encode hs.protocol_version f.version,
      write_string-encode hs.server_address f.address,
      write_var_int-encode hs.next_state (omega (arith, f.next)),
      append-nil,
    )

-- The second version writes a handshake byte for byte as package mc does, where the protocol version
-- is not negative and below 2 ^ 32, the address and the whole frame are shorter than 2 ^ 31 bytes, the
-- port has 16 bits and the next state is a byte.
pub write_to-marshal :
    (hs : ServerBoundHandshake)
    → Fits hs
    → write_to (packet_of hs) ≡ some (marshal (marshal_handshake hs))
unfolding write_to marshal
write_to-marshal hs f =
    let frame = (marshal_handshake hs).id ∷ (marshal_handshake hs).content in
    let same : to_u32 (length frame) ≡ length frame = omega (arith, f.frame) in
    rw (body-marshal hs f, write_var_int-encode (length frame) (omega (arith, f.frame)), same) refl

no_zeros : (k n : ℕ) → k ≤ n → zeros (k - n) ≡ []
unfolding zeros
no_zeros k n h = rw (let z : k - n ≡ 0 = omega arith in z) refl

pub fill-append : (s extra : List ℕ) → fill (length s) (s ++ extra) ≡ s
unfolding fill
fill-append s extra =
    rw
      (
        take-append_self s extra,
        no_zeros (length s) (length (s ++ extra)) (omega (arith, length-append s extra)),
        append-nil s,
      )
      refl

fill_short : (n : ℕ) (s : List ℕ) → length s ≤ n → fill n s ≡ s ++ zeros (n - length s)
unfolding fill
fill_short n s h = rw (take_all n s h) refl

pub both_read :
    {x x' y y' : List ℕ} {ss : List (List ℕ)}
    → x ≡ x'
    → y ≡ y'
    → (let out : Outcome (List ℕ × Source) = ok (x, (y, ss)) in out) ≡ ok (x', (y', ss))
both_read p q = rw (p, q) refl

-- One Read gives the whole frame where the segment at hand holds it.
read_into-frame :
    (b : ℕ) (bs extra : List ℕ) (e : GoError) (ss : List (List ℕ))
    → read_into (length (b ∷ bs)) e ((b ∷ bs) ++ extra, ss) ≡ ok (b ∷ bs, (extra, ss))
unfolding read_into one_read
read_into-frame b bs extra e ss =
    both_read (fill-append (b ∷ bs) extra) (drop-append_self (b ∷ bs) extra)

-- Where it holds less, zeros stand for the rest of the frame.
read_into-short :
    (n b : ℕ) (bs : List ℕ) (e : GoError) (ss : List (List ℕ))
    → length (b ∷ bs) ≤ n
    → read_into n e (b ∷ bs, ss) ≡ ok ((b ∷ bs) ++ zeros (n - length (b ∷ bs)), ([], ss))
unfolding read_into one_read
read_into-short n b bs e ss h = both_read (fill_short n (b ∷ bs) h) (drop_all n (b ∷ bs) h)

not_below_one : (n : ℕ) → 0 < n → n < 2 ^ 63 → below_one n ≡ false
not_below_one n pos small = ground arith

-- ReadPacketData gives a frame that package mc wrote, ID and data, where one segment holds the whole
-- of it, and leaves what follows.
pub read_packet_data-marshal :
    (pk : Packet) (extra : List ℕ) (e : GoError) (ss : List (List ℕ))
    → length pk.content + 1 < 2 ^ 31
    → read_packet_data e (marshal pk ++ extra, ss) ≡ ok (pk.id ∷ pk.content, (extra, ss))
unfolding read_packet_data marshal
read_packet_data-marshal pk extra e ss h =
    let n : ℕ = length (pk.id ∷ pk.content) in
    let same : to_u32 n ≡ n = omega (arith, h) in
    rw
      (
        same,
        append_assoc (encode n) (pk.id ∷ pk.content) extra,
        read_var_int-encode n ((pk.id ∷ pk.content) ++ extra) ss (omega arith),
        not_below_one n (omega arith) (omega arith),
      )
      (read_into-frame pk.id pk.content extra e ss)

-- A frame that is cut by the end of a segment is taken for whole: the bytes that have not come yet
-- are zeros in the data, and what comes later is left in the source.
pub read_packet_data_split :
    (n b : ℕ) (bs : List ℕ) (e : GoError) (ss : List (List ℕ))
    → n < 2 ^ 31
    → length (b ∷ bs) < n
    → read_packet_data e (encode n ++ (b ∷ bs), ss)
      ≡ ok ((b ∷ bs) ++ zeros (n - length (b ∷ bs)), ([], ss))
unfolding read_packet_data
read_packet_data_split n b bs e ss small cut =
    rw
      (read_var_int-encode n (b ∷ bs) ss (omega arith), not_below_one n (omega arith) (omega arith))
      (read_into-short n b bs e ss (omega arith))
