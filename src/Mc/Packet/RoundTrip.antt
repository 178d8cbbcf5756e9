-- ===== src/Mc/Packet/RoundTrip.antt =====
-- Frames: what was written is read back, and when reading fails.
use mathlib.Core.List.{append_assoc}
use ipojknm.Prelude.{
  false, ℕ, ◌+◌, ◌^◌, ◌<◌, ◌≡◌, refl, List, ◌∷◌, ◌++◌, length, length-append, take-append_self,
  drop-append_self, arith, le→ltb,
}
use ipojknm.Errors.{GoError, ok}
use ipojknm.Mc.VarInt.{to_u32, encode}
use ipojknm.Mc.VarInt.RoundTrip.{read_var_int-encode}
use ipojknm.Mc.Packet.{Packet, marshal, read_full, packet_of, read_packet, is_below_one}

read_full-append :
    (s : List ℕ) (e : GoError) (rest : List ℕ) → read_full (length s) e (s ++ rest) ≡ ok (s, rest)
unfolding read_full
read_full-append s e rest = rw (
  le→ltb (length (s ++ rest)) (length s) (omega (arith, length-append s rest)),
  take-append_self,
  drop-append_self,
)

not_below_one : (k : ℕ) → 0 < k → k < 2 ^ 31 → is_below_one k ≡ false
not_below_one k h l = ground arith

same_length : (k : ℕ) → k < 2 ^ 31 → to_u32 k ≡ k
same_length k h = omega arith

-- A packet whose ID and data are shorter than 2 GiB is read back from its frame, and what follows
-- the frame is left in the reader.
pub read_packet-marshal :
    (pk : Packet) (e : GoError) (rest : List ℕ)
    → length pk.content + 1 < 2 ^ 31
    → read_packet e (marshal pk ++ rest) ≡ ok (pk, rest)
unfolding read_packet marshal packet_of
read_packet-marshal pk e rest h =
    let frame : List ℕ = pk.id ∷ pk.content in
    let k : ℕ = length frame in
    rw
      (
        same_length k (omega arith),
        append_assoc (encode k) frame rest,
        read_var_int-encode k e (frame ++ rest) (omega arith),
        not_below_one k (omega arith) (omega arith),
        read_full-append frame e rest,
      )
      refl
