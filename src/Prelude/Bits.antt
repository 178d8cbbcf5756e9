-- ===== src/Prelude/Bits.antt =====
-- `&` with a mask of low bits, `|` of disjoint fields and the top bit of a byte, as arithmetic.
use Prim.Native.Nat.{
  ℕ, zero, suc, ◌+◌, ◌*◌, ◌/◌, ◌%◌, ◌^◌, ◌≤◌, ◌<◌, min, max, bit_and, bit_or, digits, bitwise,
  bit_and-bitwise, bit_or-bitwise,
}
use mathlib.Core.Path.{◌≡◌, refl, ap}
use mathlib.Core.Bool.{Bool, true, ◌&&◌}
use native.Mathlib.Omega.{arith}
use native.Mathlib.Nat.{le_refl, pow-suc}
use ipojknm.Prelude.Tests.{◌==◌, ==_iff}

-- The recursion that the native operations stand for needs no more fuel than the number itself.
module _ (z : ℕ → ℕ) (f : ℕ → ℕ → ℕ) where
  more_fuel : (a b n m : ℕ) → a ≤ n → a ≤ m → digits z f n a b ≡ digits z f m a b
  more_fuel zero b zero zero p q = refl
  more_fuel zero b zero (suc m) p q = refl
  more_fuel zero b (suc n) zero p q = refl
  more_fuel zero b (suc n) (suc m) p q = refl
  more_fuel (suc a) b zero m p q = absurd (omega arith)
  more_fuel (suc a) b (suc n) zero p q = absurd (omega arith)
  more_fuel (suc a) b (suc n) (suc m) p q =
      rw (more_fuel (suc a / 2) (b / 2) n m (omega arith) (omega arith))

  lowest_digit :
      (a b : ℕ)
      → bitwise z f (suc a) b ≡ f (suc a % 2) (b % 2) + 2 * bitwise z f (suc a / 2) (b / 2)
  lowest_digit a b =
      omega (arith, more_fuel (suc a / 2) (b / 2) a (suc a / 2) (omega arith) (le_refl _))

bit_and_step : (a b : ℕ) → bit_and a b ≡ min (a % 2) (b % 2) + 2 * bit_and (a / 2) (b / 2)
bit_and_step (suc a) b = simp bit_and-bitwise (lowest_digit (λ y. 0) min a b)
bit_and_step zero b = simp bit_and-bitwise (omega arith)

bit_or_step : (a b : ℕ) → bit_or a b ≡ max (a % 2) (b % 2) + 2 * bit_or (a / 2) (b / 2)
bit_or_step (suc a) b = simp bit_or-bitwise (lowest_digit (λ y. y) max a b)
bit_or_step zero b = simp bit_or-bitwise (omega arith)

masked_by_zero : (a n : ℕ) → a ≤ n → bit_and a 0 ≡ 0
masked_by_zero zero n h = refl
masked_by_zero (suc a) zero h = absurd (omega arith)
masked_by_zero (suc a) (suc n) h =
    omega (arith, masked_by_zero (suc a / 2) n (omega arith), bit_and_step (suc a) 0)

zero-bit_or : (b : ℕ) → bit_or 0 b ≡ b
zero-bit_or b = bit_or-bitwise 0 b

two_pow_suc : (q k : ℕ) → q * 2 ^ suc k ≡ 2 * (q * 2 ^ k)
two_pow_suc q k = omega (arith, ap (λ (t : ℕ). q * t) (pow-suc 2 k))

-- `x & (2^k - 1)` keeps the k low bits, one step for each bit of the mask.
bit_and_low1 : (a : ℕ) → bit_and a 1 ≡ a % 2
bit_and_low1 a = omega (arith, bit_and_step a 1, masked_by_zero (a / 2) _ (le_refl _))

bit_and_low2 : (a : ℕ) → bit_and a 3 ≡ a % 4
bit_and_low2 a = omega (arith, bit_and_step a 3, bit_and_low1 (a / 2))

bit_and_low3 : (a : ℕ) → bit_and a 7 ≡ a % 8
bit_and_low3 a = omega (arith, bit_and_step a 7, bit_and_low2 (a / 2))

bit_and_low4 : (a : ℕ) → bit_and a 15 ≡ a % 16
bit_and_low4 a = omega (arith, bit_and_step a 15, bit_and_low3 (a / 2))

bit_and_low5 : (a : ℕ) → bit_and a 31 ≡ a % 32
bit_and_low5 a = omega (arith, bit_and_step a 31, bit_and_low4 (a / 2))

bit_and_low6 : (a : ℕ) → bit_and a 63 ≡ a % 64
bit_and_low6 a = omega (arith, bit_and_step a 63, bit_and_low5 (a / 2))

pub bit_and_low7 : (a : ℕ) → bit_and a 0x7f ≡ a % 128
bit_and_low7 a = omega (arith, bit_and_step a 127, bit_and_low6 (a / 2))

-- `r | q << k` is a sum where `r` fits below bit k.
pub bit_or_above : (k q r : ℕ) → r < 2 ^ k → bit_or r (q * 2 ^ k) ≡ r + q * 2 ^ k
bit_or_above zero q zero h = ground (arith, zero-bit_or (q * 1))
bit_or_above zero q (suc r) h = absurd (omega arith)
bit_or_above (suc k) q r h = ground (
  arith,
  bit_or_step r (q * 2 ^ suc k),
  two_pow_suc q k,
  pow-suc 2 k,
  bit_or_above k q (r / 2) (omega (arith, pow-suc 2 k)),
)

-- The test holds at every number below the bound.
passes : (ℕ → Bool) → ℕ → Bool
passes test zero = true
passes test (suc n) = passes test n && test n

passes_at : (test : ℕ → Bool) (n x : ℕ) → x < n → passes test n ≡ true → test x ≡ true
unfolding passes
passes_at test zero x lt h = absurd (omega arith)
passes_at test (suc n) x lt h = ground (arith, passes_at test n x)

top_bit_table : passes (λ b. bit_and b 0x80 == b / 128 * 128) 256 ≡ true
unfolding passes
top_bit_table = refl

-- The top bit of a byte.
pub bit_and_top : (b : ℕ) → b < 256 → bit_and b 0x80 ≡ b / 128 * 128
bit_and_top b h = (==_iff _ _).0 (passes_at _ 256 b h top_bit_table)

set_top_table : passes (λ b. bit_or b 0x80 == b + 128) 128 ≡ true
unfolding passes
set_top_table = refl

pub bit_or_top : (b : ℕ) → b < 128 → bit_or b 0x80 ≡ b + 128
bit_or_top b h = (==_iff _ _).0 (passes_at _ 128 b h set_top_table)

bit_or_comm_below : (a b n : ℕ) → a ≤ n → b ≤ n → bit_or a b ≡ bit_or b a
bit_or_comm_below zero zero zero p q = refl
bit_or_comm_below zero (suc b) zero p q = absurd (omega arith)
bit_or_comm_below (suc a) b zero p q = absurd (omega arith)
bit_or_comm_below a b (suc n) p q = omega (
  arith,
  bit_or_step a b,
  bit_or_step b a,
  bit_or_comm_below (a / 2) (b / 2) n (omega arith) (omega arith),
)

bit_or_comm : (a b : ℕ) → bit_or a b ≡ bit_or b a
bit_or_comm a b = bit_or_comm_below a b (a + b) (omega arith) (omega arith)

-- `q << k | r` likewise.
pub bit_or_below : (k q r : ℕ) → r < 2 ^ k → bit_or (q * 2 ^ k) r ≡ q * 2 ^ k + r
bit_or_below k q r h = omega (arith, bit_or_comm (q * 2 ^ k) r, bit_or_above k q r h)

pub bit_or-lt : (k a b : ℕ) → a < 2 ^ k → b < 2 ^ k → bit_or a b < 2 ^ k
bit_or-lt zero zero zero p q = omega arith
bit_or-lt zero zero (suc b) p q = absurd (omega arith)
bit_or-lt zero (suc a) b p q = absurd (omega arith)
bit_or-lt (suc k) a b p q = omega (
  arith,
  pow-suc 2 k,
  bit_or_step a b,
  bit_or-lt k (a / 2) (b / 2) (omega (arith, pow-suc 2 k)) (omega (arith, pow-suc 2 k)),
)
