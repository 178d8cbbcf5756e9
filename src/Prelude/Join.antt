-- ===== src/Prelude/Join.antt =====
-- strings.Split takes apart what a Sprintf with a separator between its verbs has put together.
use Prim.Native.Nat.{ℕ, zero, suc, ◌≤◌}
use mathlib.Core.List.{List, [], ◌∷◌, ◌++◌}
use mathlib.Core.Logic.{◌≢◌}
use mathlib.Core.Path.{◌≡◌, refl, ◌∙◌, ap}
use native.Mathlib.Omega.{arith}
use ipojknm.Prelude.Lists.{length, length-append, All}
use ipojknm.Prelude.Text.{GoString}
use ipojknm.Prelude.Split.{cut-append, cut_absent, split, split_n, split_n_absent, split_n_present}

-- The text of the verbs with `z` between them.
abbrev pub join : ℕ → GoString → List GoString → GoString
join z p [] = p
join z p (q ∷ qs) = p ++ z ∷ join z q qs

length-join : (z : ℕ) (p : GoString) (qs : List GoString) → length qs ≤ length (join z p qs)
length-join z p [] = omega arith
length-join z p (q ∷ qs) = omega (arith, length-append p (z ∷ join z q qs), length-join z q qs)

split_n-join :
    (n z : ℕ) (p : GoString) (qs : List GoString)
    → length qs ≤ n
    → All (λ part. All (λ c. c ≢ z) part) (p ∷ qs)
    → split_n n (z ∷ []) (join z p qs) ≡ p ∷ qs
split_n-join zero z p [] few h = unfold split_n in refl
split_n-join (suc n) z p [] few h = split_n_absent n (z ∷ []) p (cut_absent z [] p h.0)
split_n-join zero z p (q ∷ qs) few h = absurd (omega arith)
split_n-join (suc n) z p (q ∷ qs) few h =
    split_n_present n (z ∷ []) (join z p (q ∷ qs)) (cut-append z [] p (join z q qs) h.0)
    ∙ ap (λ (t : List GoString). p ∷ t) (split_n-join n z q qs (omega arith) h.1)

pub split-join :
    (z : ℕ) (p : GoString) (qs : List GoString)
    → All (λ part. All (λ c. c ≢ z) part) (p ∷ qs)
    → split (z ∷ []) (join z p qs) ≡ p ∷ qs
unfolding split
split-join z p qs h = split_n-join (length (join z p qs)) z p qs (length-join z p qs) h
