-- ===== src/Manager/Removal/Ends.antt =====
-- worker/backend_manager.go: a removal can always go on to its end.
pub mod Pending
use ipojknm.Prelude.{
  Bool, true, ℕ, ◌≤◌, ◌<◌, Option, none, some, ◌++◌, length, ◌≡◌, refl, sym, arith, dec_lt,
}
use ipojknm.Manager.Removal.{
  Position, idle, elsewhere, holding, asking, responding, Caller, of_worker, of_dial, Removal, set,
  answer_other, answer_dial, Reach, unmoved, moved,
}
use ipojknm.Manager.Removal.Ends.Pending.{IsServed, asks, sent_by}

-- What a step on the way keeps: the phase, and that nothing has crashed.
pub record Goes (n : ℕ) (stale returns : Bool) (p q : Removal) : Type 0 where
  pub way : Reach n stale returns p q
  pub same_phase : q.phase ≡ p.phase
  pub up : q.crashed ≡ none

is_asking : (x : Position) → asks x ≡ 1 → x ≡ asking
is_asking idle e = absurd (omega (arith, e))
is_asking elsewhere e = absurd (omega (arith, e))
is_asking holding e = absurd (omega (arith, e))
is_asking asking e = refl
is_asking responding e = absurd (omega (arith, e))

asks_once : (x : Position) → asks x ≤ 1
asks_once x = ground arith

module _ (n : ℕ) (stale returns : Bool) (all_return : returns ≡ true) where
  -- A worker whose request is handled waits for the answer.
  handled_asks :
      (p : Removal) (i : ℕ)
      → IsServed n p
      → p.handled ≡ some (of_worker i)
      → (p.positions i ≡ asking) × (i < n)
  handled_asks p i s at =
      let one : asks (p.positions i) ≡ 1 =
        ground (arith, s.pending i, at, asks_once (p.positions i)) in
      let a = is_asking (p.positions i) one in
      (
        a,
        elim (dec_lt i n) [
          | yes few ↦ few
          | no far ↦ absurd (let none_known : p.positions i ≡ idle = s.known i (omega arith) in cc)
        ],
      )

  answered :
      (p : Removal) (o : Option Caller)
      → p.handled ≡ o
      → p.crashed ≡ none
      → IsServed n p
      → (q : Removal) × Goes n stale returns p q × (q.handled ≡ none) × (q.queue ≡ p.queue)
  answered p none at up s = (p, record { way = unmoved; same_phase = refl; up = up }, at, refl)
  answered p (some of_dial) at up s = (
    record p { handled = none },
    record { way = moved unmoved (answer_dial up at refl); same_phase = refl; up = up },
    refl,
    refl,
  )
  answered p (some (of_worker i)) at up s =
      let a = handled_asks p i s at in
      (
        record p { positions = set i responding p.positions; handled = none },
        record {
          way = moved unmoved (answer_other i a.1 up at a.0 refl);
          same_phase = refl;
          up = up;
        },
        refl,
        refl,
      )
