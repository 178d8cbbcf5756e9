-- ===== src/V2/Packet/Handshakes.antt =====
-- ReadServerBoundHandshake on the data of a frame that package mc wrote.
use mathlib.Core.List.{append_assoc}
use ipojknm.Prelude.{
  ℕ, ◌^◌, ◌<◌, ◌%◌, ◌/◌, none, false, ◌≡◌, refl, ap, List, [], ◌∷◌, ◌++◌, length, drop-append_self,
  arith,
}
use ipojknm.Prelude.Text.{GoString}
use ipojknm.Errors.{GoError, Outcome, ok, continue}
use ipojknm.Mc.VarInt.{encode, to_u32, is_negative}
use ipojknm.Mc.Field.{encode_string, encode_short}
use ipojknm.Mc.Field.Shorts.{short_of-encode_short}
use ipojknm.Mc.Packet.{marshal_packet}
use ipojknm.Mc.Handshake.{ServerBoundHandshake, marshal_handshake}
use ipojknm.V2.Source.{one_read, read_into, read_byte, next_byte, gather, read_exactly}
use ipojknm.V2.VarInt.{}
use ipojknm.V2.VarInt.RoundTrip.{read_var_int-encode}
use ipojknm.V2.Packet.{read_text, read_string, read_short, read_handshake, read_address, read_rest}
use ipojknm.V2.Packet.Frames.{packet_of, Fits, both_read, fill-append}

-- A string that more bytes follow is read whole.
read_into_more :
    (s : GoString) (b : ℕ) (bs : List ℕ) (e : GoError)
    → read_into (length s) e (s ++ b ∷ bs, []) ≡ ok (s, (b ∷ bs, []))
unfolding read_into one_read
read_into_more [] b bs e = both_read (fill-append [] (b ∷ bs)) refl
read_into_more (x ∷ s) b bs e =
    both_read (fill-append (x ∷ s) (b ∷ bs)) (drop-append_self (x ∷ s) (b ∷ bs))

read_string-encode :
    (s : GoString) (b : ℕ) (bs : List ℕ) (e : GoError)
    → length s < 2 ^ 31
    → read_string e (encode_string s ++ b ∷ bs, []) ≡ ok (s, (b ∷ bs, []))
unfolding read_string encode_string read_text
read_string-encode s b bs e h =
    let same : to_u32 (length s) ≡ length s = omega arith in
    rw
      (
        same,
        append_assoc (encode (length s)) s (b ∷ bs),
        read_var_int-encode (length s) (s ++ b ∷ bs) [] (omega arith),
        not_negative (length s) h,
      )
      (read_into_more s b bs e)
  where
    not_negative : (n : ℕ) → n < 2 ^ 31 → is_negative n ≡ false
    not_negative n h = ground arith

read_short-encode :
    (n : ℕ) (rest : List ℕ) (e : GoError)
    → n < 2 ^ 16
    → read_short e (encode_short n ++ rest, []) ≡ ok (n, (rest, []))
unfolding read_short read_exactly gather encode_short
read_short-encode n rest e h =
    ap (λ (o : Outcome ℕ). continue o (λ n. ok (n, (rest, [])))) (short_of-encode_short n h)

read_string-short :
    (s : GoString) (n : ℕ) (rest : List ℕ) (e : GoError)
    → length s < 2 ^ 31
    → read_string e (encode_string s ++ (encode_short n ++ rest), [])
      ≡ ok (s, (encode_short n ++ rest, []))
unfolding encode_short
read_string-short s n rest e h = read_string-encode s (n / 2 ^ 8 % 2 ^ 8) ((n % 2 ^ 8) ∷ rest) e h

-- The data of a handshake's frame is read back as the handshake that was written.
pub read_handshake-marshal :
    (hs : ServerBoundHandshake) (e : GoError)
    → Fits hs
    → read_handshake e ((marshal_handshake hs).id ∷ (marshal_handshake hs).content, [])
      ≡ ok (packet_of hs, none)
unfolding read_handshake marshal_handshake marshal_packet read_byte next_byte read_address read_rest
read_handshake-marshal hs e f =
    let version : to_u32 hs.protocol_version ≡ hs.protocol_version = omega (arith, f.version) in
    let port : hs.server_port % 2 ^ 16 ≡ hs.server_port = omega (arith, f.port) in
    let next : to_u32 hs.next_state ≡ hs.next_state = omega (arith, f.next) in
    let last : List ℕ = encode hs.next_state ++ [] in
    rw
      (
        version,
        port,
        next,
        read_var_int-encode hs.protocol_version
            (encode_string hs.server_address ++ (encode_short hs.server_port ++ last)) [] f.version,
        read_string-short hs.server_address hs.server_port last e f.address,
        read_short-encode hs.server_port last e f.port,
        read_var_int-encode hs.next_state [] [] (omega (arith, f.next)),
      )
      refl
