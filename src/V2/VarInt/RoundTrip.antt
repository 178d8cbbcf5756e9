-- ===== src/V2/VarInt/RoundTrip.antt =====
-- src/type.go: where WriteVarInt ends and what it writes.
use ipojknm.Prelude.{
  ℕ, zero, suc, ◌+◌, ◌*◌, ◌/◌, ◌%◌, ◌^◌, ◌≤◌, ◌<◌, bit_and, bit_or, none, some, ◌≡◌, refl, ◌∙◌, ap,
  List, [], ◌∷◌, ◌++◌, arith,
}
use ipojknm.Prelude.Bits.{bit_and_low7, bit_or_above, bit_and_top, bit_or_top}
use ipojknm.Mc.VarInt.{IsU32, encode}
use ipojknm.Mc.VarInt.Groups.{groups, encode-groups}
use ipojknm.Mc.VarInt.RoundTrip.{split_group, group_bound}
use ipojknm.V2.Source.{}
use ipojknm.V2.VarInt.{add_group, read_loop, read_var_int, shr7, write_loop, write_var_int}
use mathlib.Core.List.{append_assoc}

-- The loop of WriteVarInt never ends on a negative int: the shift copies the sign bit, so no number of
-- rounds is enough.
pub write_loop_negative :
    (rounds v : ℕ) (bb : List ℕ) → 2 ^ 63 ≤ v → v < 2 ^ 64 → write_loop rounds v bb ≡ none
unfolding write_loop
write_loop_negative zero v bb low high = refl
write_loop_negative (suc rounds) v bb low high =
    ground (arith, write_loop_negative rounds (shr7 v) (bb ++ bit_or (bit_and v 0x7f) 0x80 ∷ []))

write_loop-groups :
    (k v : ℕ) (rounds : ℕ) (bb : List ℕ)
    → v < 128 ^ suc k
    → v < 2 ^ 63
    → k < rounds
    → write_loop rounds v bb ≡ some (bb ++ groups k v)
unfolding write_loop groups
write_loop-groups k v zero bb h pos r = absurd (omega arith)
write_loop-groups zero v (suc rounds) bb h pos r = ground (arith, bit_and_low7 v)
write_loop-groups (suc k) v (suc rounds) bb h pos r = ground (
  arith,
  bit_and_low7 v,
  bit_or_top (v % 128) (omega arith),
  write_loop-groups k (v / 128) rounds (bb ++ (v % 128 + 128) ∷ []) (omega arith),
  append_assoc bb ((v % 128 + 128) ∷ []) (groups k (v / 128)),
)

add_group_sum :
    (v b i : ℕ)
    → v < 2 ^ (7 * i)
    → b % 128 * 2 ^ (7 * i) < 2 ^ 64
    → add_group v b i ≡ v + b % 128 * 2 ^ (7 * i)
add_group_sum v b i h fits = rw bit_and_low7 (ground (arith, bit_or_above (7 * i) (b % 128) v h))

last_byte :
    (w i v : ℕ) (rest : List ℕ) (ss : List (List ℕ))
    → w < 128
    → v < 2 ^ (7 * i)
    → v + w * 2 ^ (7 * i) < 2 ^ 64
    → read_loop i v (w ∷ rest) ss ≡ (v + w * 2 ^ (7 * i), (rest, ss))
unfolding read_loop
last_byte w i v rest ss hw hv fits = ground (arith, add_group_sum v w i, bit_and_top w)

inner_byte :
    (g i v : ℕ) (rest : List ℕ) (ss : List (List ℕ))
    → g < 128
    → v < 2 ^ (7 * i)
    → v + g * 2 ^ (7 * i) < 2 ^ 64
    → read_loop i v ((g + 128) ∷ rest) ss ≡ read_loop (i + 1) (v + g * 2 ^ (7 * i)) rest ss
unfolding read_loop
inner_byte g i v rest ss hg hv fits =
    ground (arith, add_group_sum v (g + 128) i, bit_and_top (g + 128))

read_loop-groups :
    (k w i v : ℕ) (rest : List ℕ) (ss : List (List ℕ))
    → w < 128 ^ suc k
    → v < 2 ^ (7 * i)
    → v + w * 2 ^ (7 * i) < 2 ^ 64
    → read_loop i v (groups k w ++ rest) ss ≡ (v + w * 2 ^ (7 * i), (rest, ss))
unfolding groups
read_loop-groups zero w i v rest ss hw hv fits = last_byte w i v rest ss (omega arith) hv fits
read_loop-groups (suc k) w i v rest ss hw hv fits = ground (
  arith,
  last_byte w i v rest ss,
  split_group w i,
  inner_byte (w % 128) i v (groups k (w / 128) ++ rest) ss,
  group_bound v (w % 128) i hv (omega arith),
  read_loop-groups k (w / 128) (i + 1) (v + w % 128 * 2 ^ (7 * i)) rest ss (omega arith),
)

-- On an int that is not negative WriteVarInt ends, and ReadVarInt gives the int back and leaves what
-- follows, in the segment at hand and behind it.
pub read_var_int-write_var_int :
    (v : ℕ)
    → v < 2 ^ 63
    → (bb : List ℕ) × (write_var_int v ≡ some bb)
      × ((rest : List ℕ) (ss : List (List ℕ)) → read_var_int (bb ++ rest, ss) ≡ (v, (rest, ss)))
unfolding read_var_int write_var_int
read_var_int-write_var_int v h = (
  groups 8 v,
  write_loop-groups 8 v 10 [] (omega arith) h (omega arith),
  λ rest ss.
      read_loop-groups 8 v 0 0 rest ss (omega arith) (omega arith) (omega arith)
      ∙ ap (λ (t : ℕ). (t, (rest, ss))) (omega arith),
)

-- For a number below 2 ^ 32 WriteVarInt writes the bytes of VarInt.Encode in package mc.
pub write_var_int-encode : (v : ℕ) → IsU32 v → write_var_int v ≡ some (encode v)
unfolding write_var_int
write_var_int-encode v h =
    rw (encode-groups v h) (write_loop-groups 4 v 10 [] (omega arith) (omega arith) (omega arith))

pub read_var_int-encode :
    (v : ℕ) (rest : List ℕ) (ss : List (List ℕ))
    → IsU32 v
    → read_var_int (encode v ++ rest, ss) ≡ (v, (rest, ss))
unfolding read_var_int
read_var_int-encode v rest ss h = rw (encode-groups v h) (
    read_loop-groups 4 v 0 0 rest ss (omega arith) (omega arith) (omega arith)
    ∙ ap (λ (t : ℕ). (t, (rest, ss))) (omega arith))
