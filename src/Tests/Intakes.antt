-- ===== src/Tests/Intakes.antt =====
-- One listener and its channel.
use ipojknm.Prelude.{ℕ, ◌<◌, ◌≤◌, [], ◌∷◌, length, ◌≡◌, ◌⊎◌, refl, arith}
use ipojknm.Manager.Intake.{
  accepting, sending, Intake, channel_size, set, start, accept, send, take, Reach, unmoved, moved,
}
use ipojknm.Manager.Intake.Handed.{handed, Held, Reach-handed}

abbrev served : Intake
served = record {
  loops = set 0 (sending 1) (set 0 accepting (set 0 (sending 0) (λ i. accepting)));
  channel = [];
  taken = 0 ∷ [];
  accepted = 2;
}

two_accepted : Reach 1 start served
two_accepted =
    moved
      (moved
        (moved (moved unmoved (accept 0 (omega arith) refl refl))
          (send 0 0 (omega arith) refl (omega arith) refl))
        (accept 0 (omega arith) refl refl))
      (take 0 [] refl refl)

Reach-handed_example :
    ((c : ℕ) → c < served.accepted → (handed c served ≡ 1) ⊎ Held served c)
    × ((i c : ℕ) → served.loops i ≡ sending c → (c < served.accepted) × (handed c served ≡ 0))
    × ((c : ℕ) → served.accepted ≤ c → handed c served ≡ 0)
    × (length served.channel ≤ channel_size)
Reach-handed_example = Reach-handed 1 served two_accepted
