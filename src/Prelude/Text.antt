-- ===== src/Prelude/Text.antt =====
-- Go strings as lists of bytes, with what the program uses of the packages strings and fmt.
pub mod Digits
use Prim.Native.Char.{code}
use Prim.Native.Nat.{ℕ, ◌+◌, ◌/◌, ◌%◌, ◌≤◌, ◌<◌}
use Prim.Native.String.{String}
use mathlib.Core.Bool.{Bool, true, false, ◌&&◌}
use mathlib.Core.List.{List, [], ◌∷◌, ◌++◌}
use mathlib.Core.Logic.{◌↔◌, dite}
use mathlib.Core.Path.{◌≡◌, refl, subst}
use mathlib.Core.WellFounded.{Acc}
use native.Mathlib.Decide.{dec_lt}
use native.Mathlib.Omega.{arith}
use ipojknm.Prelude.Tests.{leb, ◌==◌, if◌then◌else◌}
use ipojknm.Prelude.Lists.{All, All-append}
use ipojknm.Prelude.WellFounded.{lt_wf}

-- `len(s)` and `s[i]` are those of the list.
abbrev pub GoString : Type 0
GoString = List ℕ

-- The bytes of an ASCII literal.
abbrev pub bytes_of : String → GoString
bytes_of String.[] = []
bytes_of (String.◌∷◌ c s) = code c ∷ bytes_of s

unfoldable pub str_eq : GoString → GoString → Bool
str_eq [] [] = true
str_eq [] (y ∷ t) = false
str_eq (x ∷ s) [] = false
str_eq (x ∷ s) (y ∷ t) = x == y && str_eq s t

eq_of_str_eq : (s t : GoString) → str_eq s t ≡ true → s ≡ t
unfolding str_eq
eq_of_str_eq [] [] h = refl
eq_of_str_eq [] (y ∷ t) h = cc
eq_of_str_eq (x ∷ s) [] h = cc
eq_of_str_eq (x ∷ s) (y ∷ t) h = ground (arith, eq_of_str_eq s t)

pub str_eq_self : (s : GoString) → str_eq s s ≡ true
unfolding str_eq
str_eq_self [] = refl
str_eq_self (x ∷ s) = ground (arith, str_eq_self s)

pub str_eq_iff : (s t : GoString) → (str_eq s t ≡ true) ↔ (s ≡ t)
str_eq_iff s t = (eq_of_str_eq s t, λ e. subst (λ u. str_eq s u ≡ true) e (str_eq_self s))

-- strings.ToLower on ASCII text.
lower : ℕ → ℕ
lower c = if leb b'A' c && leb c b'Z' then c + 32 else c

unfoldable pub to_lower : GoString → GoString
unfolding lower
to_lower [] = []
to_lower (c ∷ s) = lower c ∷ to_lower s

lower_idem : (c : ℕ) → lower (lower c) ≡ lower c
unfolding lower
lower_idem c = ground arith

pub to_lower_idem : (s : GoString) → to_lower (to_lower s) ≡ to_lower s
unfolding to_lower
to_lower_idem [] = refl
to_lower_idem (c ∷ s) = cc (lower_idem c, to_lower_idem s)

-- The verb %d of fmt on a number that is not negative.
decimal_digits : (n : ℕ) → Acc ◌<◌ n → GoString
decimal_digits n (Acc.intro _ smaller) =
    dite (dec_lt 0 (n / 10))
      (λ more. decimal_digits (n / 10) (smaller (n / 10) (omega arith)) ++ (b'0' + n % 10) ∷ [])
      (λ _. (b'0' + n % 10) ∷ [])

unfoldable pub decimal : ℕ → GoString
unfolding decimal_digits lt_wf dec_lt
decimal n = decimal_digits n (lt_wf.apply n)

-- Every character that %d writes is a digit.
abbrev pub IsDigit : ℕ → Type 0
IsDigit c = (b'0' ≤ c) × (c ≤ b'9')

decimal_digits-IsDigit : (n : ℕ) (w : Acc ◌<◌ n) → All IsDigit (decimal_digits n w)
unfolding decimal_digits
decimal_digits-IsDigit n (Acc.intro _ smaller) =
    elim (dec_lt 0 (n / 10))
      as (λ d. All IsDigit (
        dite d
          (λ more. decimal_digits (n / 10) (smaller (n / 10) (omega arith)) ++ (b'0' + n % 10) ∷ [])
          (λ _. (b'0' + n % 10) ∷ []))) [
            | yes more ↦
                All-append IsDigit _ _
                  (decimal_digits-IsDigit (n / 10) (smaller (n / 10) (omega arith))) (omega arith)
            | no _ ↦ omega arith
          ]

pub decimal-IsDigit : (n : ℕ) → All IsDigit (decimal n)
unfolding decimal
decimal-IsDigit n = decimal_digits-IsDigit n (lt_wf.apply n)
