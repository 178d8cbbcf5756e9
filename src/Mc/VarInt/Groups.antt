-- ===== src/Mc/VarInt/Groups.antt =====
-- What `encode` writes, in plain arithmetic: the groups of seven bits, lowest first.
use mathlib.Core.WellFounded.{Acc}
use ipojknm.Prelude.{
  ℕ, zero, suc, ◌+◌, ◌/◌, ◌%◌, ◌^◌, ◌≤◌, ◌<◌, ◌≡◌, bit_and, bit_or, List, [], ◌∷◌, ltb,
  if◌then◌else◌, arith, length, All,
}
use ipojknm.Prelude.WellFounded.{lt_wf}
use ipojknm.Prelude.Bits.{bit_and_low7, bit_or_top}
use ipojknm.Mc.VarInt.{IsByte, IsU32, encode_loop, encode}

-- For a number below 128 ^ (k + 1).
unfoldable pub groups : ℕ → ℕ → List ℕ
groups zero v = v ∷ []
groups (suc k) v =
    let rest = groups k (v / 128) in if ltb v 128 then v ∷ [] else (v % 128 + 128) ∷ rest

last_group : (v : ℕ) → v < 128 → bit_and v 0x7f ≡ v
last_group v h = omega (arith, bit_and_low7 v)

inner_group : (v : ℕ) → bit_or (bit_and v 0x7f) 0x80 ≡ v % 128 + 128
inner_group v = rw bit_and_low7 (bit_or_top _ (omega arith))

encode_loop-groups : (k v : ℕ) (w : Acc ◌<◌ v) → v < 128 ^ suc k → encode_loop v w ≡ groups k v
unfolding encode_loop groups
encode_loop-groups zero v (Acc.intro _ smaller) h = ground (arith, last_group v)
encode_loop-groups (suc k) v (Acc.intro _ smaller) h = grind (
  arith,
  last_group v,
  inner_group v,
  λ (w : Acc ◌<◌ (v / 128)). encode_loop-groups k (v / 128) w (omega arith),
)

-- On every uint32 five groups are enough.
pub encode-groups : (v : ℕ) → IsU32 v → encode v ≡ groups 4 v
unfolding encode
encode-groups v h = encode_loop-groups 4 v (lt_wf.apply v) (omega arith)

groups-IsByte : (k v : ℕ) → v < 128 ^ suc k → All IsByte (groups k v)
unfolding groups
groups-IsByte zero v h = omega arith
groups-IsByte (suc k) v h = ground (arith, groups-IsByte k (v / 128) (omega arith))

length-groups : (k v : ℕ) → (1 ≤ length (groups k v)) × (length (groups k v) ≤ k + 1)
unfolding groups
length-groups zero v = omega arith
length-groups (suc k) v = ground (arith, length-groups k (v / 128))

-- The encoding of a VarInt is one to five bytes.
pub encode_shape :
    (v : ℕ) → IsU32 v → All IsByte (encode v) × (1 ≤ length (encode v)) × (length (encode v) ≤ 5)
encode_shape v h =
    let (lo, hi) = length-groups 4 v in
    rw (encode-groups v h) (groups-IsByte 4 v (omega arith), lo, hi)
