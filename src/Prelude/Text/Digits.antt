-- ===== src/Prelude/Text/Digits.antt =====
-- The verb %d of fmt on an int, and strconv.Atoi, which reads it back. An int is held as its 64-bit
-- pattern.
use Prim.Native.Nat.{ℕ, ◌+◌, ◌-◌, ◌*◌, ◌/◌, ◌%◌, ◌^◌, ◌<◌, ◌≤◌}
use mathlib.Core.Bool.{Bool, true, false, ◌&&◌}
use mathlib.Core.List.{[], ◌∷◌, ◌++◌}
use mathlib.Core.Logic.{◌≢◌, ◌⊎◌, dite}
use mathlib.Core.Path.{◌≡◌, refl, ◌∙◌, ap}
use mathlib.Core.WellFounded.{Acc}
use native.Mathlib.Decide.{dec_lt}
use native.Mathlib.Omega.{arith}
use ipojknm.Prelude.Tests.{leb, ltb, ◌==◌, if◌then◌else◌}
use ipojknm.Prelude.Lists.{All}
use ipojknm.Prelude.WellFounded.{lt_wf}
use ipojknm.Prelude.Text.{GoString, decimal, decimal_digits, IsDigit, decimal-IsDigit}

unfoldable pub signed_decimal : ℕ → GoString
signed_decimal n = if leb (2 ^ 63) n then b'-' ∷ decimal (2 ^ 64 - n) else decimal n

-- What strconv.ParseUint makes of the digits. It stops at the first digit that goes out of range.
pub data Scan : Type 0 where
  syntax_error range_error : Scan
  number : ℕ → Scan

scan : ℕ → GoString → Scan
scan acc [] = number acc
scan acc (c ∷ s) =
    let rest = scan (acc * 10 + (c - b'0')) s in
    if leb b'0' c && leb c b'9'
    then if ltb (acc * 10 + (c - b'0')) (2 ^ 64) then rest else range_error
    else syntax_error

-- strconv.ParseInt behind the sign: the value and whether the error is nil. Out of range it gives the
-- nearest int.
parse_int : Bool → Scan → ℕ × Bool
parse_int neg syntax_error = (0, false)
parse_int true range_error = (2 ^ 63, false)
parse_int false range_error = (2 ^ 63 - 1, false)
parse_int true (number un) =
    if ltb (2 ^ 63) un then (2 ^ 63, false) else ((2 ^ 64 - un) % 2 ^ 64, true)
parse_int false (number un) = if leb (2 ^ 63) un then (2 ^ 63 - 1, false) else (un, true)

scan_digits : GoString → Scan
unfolding scan
scan_digits [] = syntax_error
scan_digits (c ∷ s) = scan 0 (c ∷ s)

-- strconv.Atoi
unfoldable pub atoi : GoString → ℕ × Bool
unfolding scan_digits parse_int
atoi [] = (0, false)
atoi (c ∷ s) =
    if c == b'-'
    then parse_int true (scan_digits s)
    else if c == b'+'
    then parse_int false (scan_digits s)
    else parse_int false (scan_digits (c ∷ s))

scan_last :
    (acc : ℕ) (s : GoString) (v d : ℕ)
    → scan acc s ≡ number v
    → d < 10
    → v * 10 + d < 2 ^ 64
    → scan acc (s ++ (b'0' + d) ∷ []) ≡ number (v * 10 + d)
unfolding scan
scan_last acc [] v d h hd fits = ground arith
scan_last acc (c ∷ s) v d h hd fits = ground (arith, scan_last (acc * 10 + (c - b'0')) s v d)

scan_one : (d : ℕ) → d < 10 → scan 0 ((b'0' + d) ∷ []) ≡ number d
unfolding scan
scan_one d h = ground arith

scan-decimal_digits : (n : ℕ) (w : Acc ◌<◌ n) → n < 2 ^ 64 → scan 0 (decimal_digits n w) ≡ number n
unfolding decimal_digits
scan-decimal_digits n (Acc.intro _ smaller) small =
    elim (dec_lt 0 (n / 10))
      as (λ d.
        scan 0 (
          dite d
            (λ more.
              decimal_digits (n / 10) (smaller (n / 10) (omega arith)) ++ (b'0' + n % 10) ∷ [])
            (λ _. (b'0' + n % 10) ∷ []))
        ≡ number n) [
          | yes more ↦
              scan_last 0 _ (n / 10) (n % 10)
                (scan-decimal_digits (n / 10) (smaller (n / 10) (omega arith)) (omega arith))
                (omega arith) (omega arith)
              ∙ ap (λ (t : ℕ). number t) (omega arith)
          | no stop ↦ scan_one (n % 10) (omega arith) ∙ ap (λ (t : ℕ). number t) (omega arith)
        ]

scan-decimal : (n : ℕ) → n < 2 ^ 64 → scan 0 (decimal n) ≡ number n
unfolding decimal
scan-decimal n small = scan-decimal_digits n (lt_wf.apply n) small

scan_digits-of : (s : GoString) (v : ℕ) → s ≢ [] → scan 0 s ≡ number v → scan_digits s ≡ number v
unfolding scan_digits
scan_digits-of [] v h e = absurd (h refl)
scan_digits-of (c ∷ s) v h e = e

-- Atoi reads an unsigned number that starts with a digit.
atoi-digits :
    (s : GoString) (v : ℕ)
    → All IsDigit s
    → s ≢ []
    → scan 0 s ≡ number v
    → v < 2 ^ 63
    → atoi s ≡ (v, true)
unfolding atoi scan_digits parse_int
atoi-digits [] v ds h e small = absurd (h refl)
atoi-digits (c ∷ s) v ds h e small = ground (arith, e, ds.0)

atoi-minus :
    (s : GoString) (v : ℕ)
    → s ≢ []
    → scan 0 s ≡ number v
    → v ≤ 2 ^ 63
    → atoi (b'-' ∷ s) ≡ ((2 ^ 64 - v) % 2 ^ 64, true)
unfolding atoi parse_int
atoi-minus s v h e small = ground (arith, scan_digits-of s v h e)

last-filled : (s : GoString) (c : ℕ) → s ++ c ∷ [] ≢ []
last-filled [] c e = cc
last-filled (x ∷ s) c e = cc

decimal_digits-filled : (n : ℕ) (w : Acc ◌<◌ n) → decimal_digits n w ≢ []
unfolding decimal_digits
decimal_digits-filled n (Acc.intro _ smaller) =
    elim (dec_lt 0 (n / 10))
      as (λ d.
        dite d
          (λ more. decimal_digits (n / 10) (smaller (n / 10) (omega arith)) ++ (b'0' + n % 10) ∷ [])
          (λ _. (b'0' + n % 10) ∷ [])
        ≢ []) [
          | yes more ↦
              last-filled (decimal_digits (n / 10) (smaller (n / 10) (omega arith))) (b'0' + n % 10)
          | no stop ↦ last-filled [] (b'0' + n % 10)
        ]

decimal-filled : (n : ℕ) → decimal n ≢ []
unfolding decimal
decimal-filled n = decimal_digits-filled n (lt_wf.apply n)

-- What %d writes for an int, Atoi reads back without an error.
pub atoi-signed_decimal : (n : ℕ) → n < 2 ^ 64 → atoi (signed_decimal n) ≡ (n, true)
unfolding signed_decimal
atoi-signed_decimal n small = ground (
  arith,
  atoi-minus (decimal (2 ^ 64 - n)) (2 ^ 64 - n) (decimal-filled (2 ^ 64 - n)),
  scan-decimal (2 ^ 64 - n),
  scan-decimal n,
  atoi-digits (decimal n) n (decimal-IsDigit n) (decimal-filled n),
)

lacks_digits : (z : ℕ) (s : GoString) → z < b'0' ⊎ b'9' < z → All IsDigit s → All (λ c. c ≢ z) s
lacks_digits z [] other h = tt
lacks_digits z (c ∷ s) other h = (ground (arith, h.0), lacks_digits z s other h.1)

-- A separator that is neither a digit nor the sign is not in what %d writes.
pub signed_decimal-lacks :
    (z n : ℕ) → z ≢ b'-' → z < b'0' ⊎ b'9' < z → All (λ c. c ≢ z) (signed_decimal n)
unfolding signed_decimal
signed_decimal-lacks z n sign other = ground (
  arith,
  lacks_digits z (decimal n) other (decimal-IsDigit n),
  lacks_digits z (decimal (2 ^ 64 - n)) other (decimal-IsDigit (2 ^ 64 - n)),
)
