-- ===== src/Mc/VarInt/RoundTrip.antt =====
-- `decode` reads back what `encode` wrote, and what it makes of any other bytes.
use native.Mathlib.Numerals.{towards_suc}
use ipojknm.Prelude.{
  ℕ, zero, suc, ◌+◌, ◌*◌, ◌/◌, ◌%◌, ◌^◌, ◌≤◌, ◌<◌, ◌≡◌, ◌∙◌, ap, List, ◌∷◌, ◌++◌, arith,
}
use native.Mathlib.Nat.{div-add-mod}
use ipojknm.Prelude.Bits.{bit_and_low7, bit_or_above, bit_and_top}
use ipojknm.Errors.{GoError, ok}
use ipojknm.Mc.VarInt.{
  IsU32, encode, decode_loop, decode, read_var_int, read_var_int_byte_reader, add_group,
}
use ipojknm.Mc.VarInt.Groups.{groups, encode-groups}

-- One round of seven bits moves the place by 128.
pub next_place : (i : ℕ) → 2 ^ (7 * (i + 1)) ≡ 128 * 2 ^ (7 * i)
next_place i = ap (λ (t : ℕ). 2 ^ t) (omega arith) ∙ seven (7 * i)
  where
    seven : (s : ℕ) → 2 ^ (s + 7) ≡ 128 * 2 ^ s
    seven s = simp towards_suc (omega arith)

add_group_sum :
    (n sec i : ℕ)
    → n < 2 ^ (7 * i)
    → sec % 128 * 2 ^ (7 * i) < 2 ^ 32
    → add_group n sec i ≡ n + sec % 128 * 2 ^ (7 * i)
add_group_sum n sec i h fits =
    rw bit_and_low7 (ground (arith, bit_or_above (7 * i) (sec % 128) n h))

-- A last byte, and a byte with the top bit set.
last_byte :
    (w i n : ℕ) (e : GoError) (rest : List ℕ)
    → w < 128
    → i ≤ 4
    → n < 2 ^ (7 * i)
    → n + w * 2 ^ (7 * i) < 2 ^ 32
    → decode_loop i n e (w ∷ rest) ≡ ok (n + w * 2 ^ (7 * i), rest)
unfolding decode_loop
last_byte w i n e rest hw hi hn fits = ground (arith, add_group_sum n w i, bit_and_top w)

inner_byte :
    (g i n : ℕ) (e : GoError) (rest : List ℕ)
    → g < 128
    → i ≤ 4
    → n < 2 ^ (7 * i)
    → n + g * 2 ^ (7 * i) < 2 ^ 32
    → decode_loop i n e ((g + 128) ∷ rest) ≡ decode_loop (i + 1) (n + g * 2 ^ (7 * i)) e rest
unfolding decode_loop
inner_byte g i n e rest hg hi hn fits =
    ground (arith, add_group_sum n (g + 128) i, bit_and_top (g + 128))

-- The lowest group of `w` and the rest, both from place i on.
pub split_group : (w i : ℕ) → w * 2 ^ (7 * i) ≡ w % 128 * 2 ^ (7 * i) + w / 128 * 2 ^ (7 * (i + 1))
split_group w i = omega (
  arith,
  ap (λ (t : ℕ). t * 2 ^ (7 * i)) (div-add-mod w 128),
  ap (λ (t : ℕ). w / 128 * t) (next_place i),
)

pub group_bound : (n w i : ℕ) → n < 2 ^ (7 * i) → w < 128 → n + w * 2 ^ (7 * i) < 2 ^ (7 * (i + 1))
group_bound n w i hn hw = rw next_place (grind arith)

decode_loop-groups :
    (k w i n : ℕ) (e : GoError) (rest : List ℕ)
    → w < 128 ^ suc k
    → i + k ≤ 4
    → n < 2 ^ (7 * i)
    → n + w * 2 ^ (7 * i) < 2 ^ 32
    → decode_loop i n e (groups k w ++ rest) ≡ ok (n + w * 2 ^ (7 * i), rest)
unfolding groups
decode_loop-groups zero w i n e rest hw hi hn fits =
    last_byte w i n e rest (omega arith) (omega arith) hn fits
decode_loop-groups (suc k) w i n e rest hw hi hn fits = ground (
  arith,
  last_byte w i n e rest,
  split_group w i,
  inner_byte (w % 128) i n e (groups k (w / 128) ++ rest),
  group_bound n (w % 128) i hn (omega arith),
  decode_loop-groups k (w / 128) (i + 1) (n + w % 128 * 2 ^ (7 * i)) e rest (omega arith),
)

-- Decoding gives back the VarInt that was encoded and leaves the bytes that follow it.
pub decode-encode :
    (v : ℕ) (e : GoError) (rest : List ℕ) → IsU32 v → decode e (encode v ++ rest) ≡ ok (v, rest)
unfolding decode
decode-encode v e rest h = rw (encode-groups v h) (
    decode_loop-groups 4 v 0 0 e rest (omega arith) (omega arith) (omega arith) (omega arith)
    ∙ ap (λ (t : ℕ). ok (t, rest)) (omega arith))

pub read_var_int-encode :
    (v : ℕ) (e : GoError) (rest : List ℕ)
    → IsU32 v
    → read_var_int e (encode v ++ rest) ≡ ok (v, rest)
unfolding read_var_int decode
read_var_int-encode = decode-encode

pub read_var_int_byte_reader-encode :
    (v : ℕ) (e : GoError) (rest : List ℕ)
    → IsU32 v
    → read_var_int_byte_reader e (encode v ++ rest) ≡ ok (v, rest)
unfolding read_var_int_byte_reader decode
read_var_int_byte_reader-encode = decode-encode
