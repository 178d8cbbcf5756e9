-- ===== src/V2/VarInt.antt =====
-- src/type.go: ReadVarInt and WriteVarInt, on ints of 64 bits.
pub mod RoundTrip
use ipojknm.Prelude.{
  Bool, true, false, ℕ, zero, suc, ◌+◌, ◌-◌, ◌*◌, ◌/◌, ◌%◌, ◌^◌, bit_and, bit_or, Option, none,
  some, List, [], ◌∷◌, ◌++◌, leb, ◌==◌, if◌then◌else◌,
}
use ipojknm.Mc.VarInt.{is_negative}
use ipojknm.V2.Source.{Source}

-- v |= int(b&0x7f) << uint(7*i)
abbrev pub add_group : ℕ → ℕ → ℕ → ℕ
add_group v b i = bit_or v (bit_and b 0x7f * 2 ^ (7 * i) % 2 ^ 64)

-- The loop of ReadVarInt: no number of bytes is too many, and behind the end ReadByte gives 0, which
-- ends it.
read_loop : ℕ → ℕ → List ℕ → List (List ℕ) → ℕ × Source
read_loop i v [] [] = (add_group v 0 i, ([], []))
read_loop i v [] (s ∷ ss) = read_loop i v s ss
read_loop i v (b ∷ bs) ss =
    let more = read_loop (i + 1) (add_group v b i) bs ss in
    if bit_and b 0x80 == 0 then (add_group v b i, (bs, ss)) else more

-- ReadVarInt
unfoldable pub read_var_int : Source → ℕ × Source
unfolding read_loop
read_var_int (s, ss) = read_loop 0 0 s ss

-- `varInt >>= 7` of an int: the sign bit is copied.
abbrev pub shr7 : ℕ → ℕ
shr7 v = if is_negative v then v / 2 ^ 7 + (2 ^ 64 - 2 ^ 57) else v / 2 ^ 7

-- The loop of WriteVarInt with the number of rounds it may take; none means that it has not ended.
unfoldable pub write_loop : ℕ → ℕ → List ℕ → Option (List ℕ)
write_loop zero v bb = none
write_loop (suc rounds) v bb =
    let b = bit_and v 0x7f in
    let more = write_loop rounds (shr7 v) (bb ++ bit_or b 0x80 ∷ []) in
    if shr7 v == 0 then some (bb ++ b ∷ []) else more

-- WriteVarInt: ten rounds are enough wherever it ends at all.
unfoldable pub write_var_int : ℕ → Option (List ℕ)
write_var_int v = write_loop 10 v []
