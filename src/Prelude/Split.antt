-- ===== src/Prelude/Split.antt =====
-- strings.Split and strings.SplitN at a separator that is not empty.
use Prim.Native.Nat.{ℕ, zero, suc, ◌<◌}
use mathlib.Core.Bool.{Bool, true, false, ◌&&◌}
use mathlib.Core.List.{List, [], ◌∷◌, ◌++◌}
use mathlib.Core.Logic.{◌≢◌, inl, inr}
use mathlib.Core.Option.{Option, none, some}
use mathlib.Core.Path.{◌≡◌, refl}
use native.Mathlib.Omega.{arith}
use ipojknm.Prelude.Tests.{ltb, ◌==◌, if◌then◌else◌, Option-cases}
use ipojknm.Prelude.Lists.{length, drop, All, drop-append_self}
use ipojknm.Prelude.Text.{GoString}

unfoldable pub starts_with : GoString → GoString → Bool
starts_with [] s = true
starts_with (x ∷ p) [] = false
starts_with (x ∷ p) (y ∷ s) = x == y && starts_with p s

-- The text before the first `sep` and the text behind it: what strings.Index finds.
abbrev onto : ℕ → Option (GoString × GoString) → Option (GoString × GoString)
onto c none = none
onto c (some (b, a)) = some (c ∷ b, a)

unfoldable pub cut : GoString → GoString → Option (GoString × GoString)
unfolding starts_with
cut sep [] = none
cut sep (c ∷ s) =
    let rest = cut sep s in
    if starts_with sep (c ∷ s) then some ([], drop (length sep) (c ∷ s)) else onto c rest

-- `split_n n sep s` makes at most n cuts: it is strings.SplitN(s, sep, n + 1).
unfoldable pub split_n : ℕ → GoString → GoString → List GoString
unfolding cut
split_n zero sep s = s ∷ []
split_n (suc n) sep s = elim (cut sep s) [ none ↦ s ∷ [] | some (b, a) ↦ b ∷ split_n n sep a ]

-- Each cut takes a byte at least, so the length bounds their number.
unfoldable pub split : GoString → GoString → List GoString
unfolding split_n
split sep s = split_n (length s) sep s

-- `parts[0]` of a split, which is never empty.
abbrev pub first : List GoString → GoString
first [] = []
first (p ∷ ps) = p

unfoldable pub before : GoString → GoString → GoString
before sep s = elim (cut sep s) [ none ↦ s | some (b, a) ↦ b ]

unfoldable pub found : GoString → GoString → Bool
found sep s = elim (cut sep s) [ none ↦ false | some _ ↦ true ]

pub first-split_n : (n : ℕ) (sep s : GoString) → first (split_n (suc n) sep s) ≡ before sep s
unfolding split_n before
first-split_n n sep s = ground arith

pub first-split : (sep s : GoString) → first (split sep s) ≡ before sep s
unfolding split before
first-split sep [] = refl
first-split sep (c ∷ s) = first-split_n (length s) sep (c ∷ s)

length-split_n-pos : (n : ℕ) (sep s : GoString) → 0 < length (split_n n sep s)
unfolding split_n
length-split_n-pos zero sep s = omega arith
length-split_n-pos (suc n) sep s = ground arith

-- More than one part means that the separator occurs.
pub split_many : (sep s : GoString) → ltb 1 (length (split sep s)) ≡ found sep s
unfolding split found
split_many sep [] = refl
split_many sep (c ∷ s) = many (cut sep (c ∷ s)) refl
  where
    many :
        (o : Option (GoString × GoString))
        → cut sep (c ∷ s) ≡ o
        → ltb 1 (length (split_n (suc (length s)) sep (c ∷ s))) ≡ found sep (c ∷ s)
    many none e = ground arith
    many (some (b, a)) e = ground (arith, length-split_n-pos (length s) sep a)

starts_with-append_self : (p r : GoString) → starts_with p (p ++ r) ≡ true
unfolding starts_with
starts_with-append_self [] r = refl
starts_with-append_self (x ∷ p) r = ground (arith, starts_with-append_self p r)

-- The first `sep` in `b ++ sep ++ r` is the one written, where b lacks the first byte of sep.
pub cut-append :
    (z : ℕ) (t b r : GoString)
    → All (λ c. c ≢ z) b
    → cut (z ∷ t) (b ++ ((z ∷ t) ++ r)) ≡ some (b, r)
unfolding cut
cut-append z t [] r h = ground (arith, starts_with-append_self t r, drop-append_self t r)
cut-append z t (c ∷ b) r h = ground (arith, cut-append z t b r h.1, h.0)

pub cut_absent : (z : ℕ) (t b : GoString) → All (λ c. c ≢ z) b → cut (z ∷ t) b ≡ none
unfolding cut
cut_absent z t [] h = refl
cut_absent z t (c ∷ b) h = ground (arith, cut_absent z t b h.1, h.0)

-- A part before a one-byte separator lacks that byte.
pub before-lacks : (z : ℕ) (s : GoString) → All (λ c. c ≢ z) (before (z ∷ []) s)
unfolding cut before
before-lacks z [] = tt
before-lacks z (c ∷ s) = ground (arith, before-lacks z s)

pub split_n_absent : (n : ℕ) (sep s : GoString) → cut sep s ≡ none → split_n (suc n) sep s ≡ s ∷ []
unfolding split_n
split_n_absent n sep s e = ground (arith, e)

pub split_n_present :
    (n : ℕ) (sep s : GoString) {b a : GoString}
    → cut sep s ≡ some (b, a)
    → split_n (suc n) sep s ≡ b ∷ split_n n sep a
unfolding split_n
split_n_present n sep s e = ground (arith, e)

-- There is always a first part.
pub split_n-cons :
    (n : ℕ) (sep s : GoString) → (p : GoString) × (ps : List GoString) × (split_n n sep s ≡ p ∷ ps)
split_n-cons zero sep s = (s, [], unfold split_n in refl)
split_n-cons (suc n) sep s = elim (Option-cases (cut sep s)) [
  | inl e ↦ (s, [], split_n_absent n sep s e)
  | inr ((b, a), e) ↦ (b, split_n n sep a, split_n_present n sep s e)
]

module _ (sep s : GoString) where
  pub before_absent : cut sep s ≡ none → before sep s ≡ s
  unfolding before
  before_absent e = rw (e, before)

  pub found_absent : cut sep s ≡ none → found sep s ≡ false
  unfolding found
  found_absent e = rw (e, found)

  pub before_present : {b a : GoString} → cut sep s ≡ some (b, a) → before sep s ≡ b
  unfolding before
  before_present e = rw (e, before)

  pub found_present : {b a : GoString} → cut sep s ≡ some (b, a) → found sep s ≡ true
  unfolding found
  found_present e = rw (e, found)
