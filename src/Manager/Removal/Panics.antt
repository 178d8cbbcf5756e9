-- ===== src/Manager/Removal/Panics.antt =====
-- worker/backend_manager.go and worker/backend.go: sends on the channel of a backend that was removed.
use ipojknm.Prelude.{Bool, true, ℕ, zero, suc, ◌+◌, ◌<◌, none, some, ◌≡◌, refl, arith, ==_self, ◌-◌}
use ipojknm.Manager.Removal.{
  idle, holding, Caller, of_worker, of_dial, Phase, running, telling, closed, Removal, set, find,
  ask_closed, dial_closed, remove, tell, all_told, close, Reach, unmoved, moved,
}

pub then :
    {n : ℕ} {stale returns : Bool} {p q r : Removal}
    → Reach n stale returns p q
    → Reach n stale returns q r
    → Reach n stale returns p r
then a unmoved = a
then a (moved b st) = moved (then a b) st

module _ (n : ℕ) (stale returns : Bool) (p : Removal) (up : p.crashed ≡ none)
    (free : p.handled ≡ none) (idles : (i : ℕ) → i < n → p.positions i ≡ idle) where
  abbrev in_phase : Phase → Removal
  in_phase phase = record p { phase = phase; routed = stale }

  tells :
      (m k : ℕ) → k + m ≡ n → Reach n stale returns (in_phase (telling k)) (in_phase (telling n))
  tells zero k e = let same : k ≡ n = omega arith in rw same unmoved
  tells (suc m) k e =
      then (moved unmoved (tell k up refl (omega arith) (idles k (omega arith)) refl))
        (tells m (k + 1) (omega arith))

  removed : p.phase ≡ running → Reach n stale returns p (in_phase closed)
  removed at =
      moved
        (moved (then (moved unmoved (remove up at refl)) (tells n 0 (omega arith)))
          (all_told up refl refl))
        (close up refl free refl)

-- Who can still send: a goroutine that is in flight, or a worker that finds a route to the backend.
abbrev pub CanSend : ℕ → Bool → Removal → Caller → Type 0
CanSend n stale p of_dial = 0 < p.dials
CanSend n stale p (of_worker i) = (i < n) × (stale ≡ true)

-- Where all workers wait in their select and the backend handles no request, a removal can crash the
-- process by a send on the closed channel: it is sent by a goroutine of ProcessServer that has not
-- called CreateConn yet, or by any of the workers where a domain stays routed to the backend.
pub removal-crashes :
    (n : ℕ) (stale returns : Bool) (p : Removal) (c : Caller)
    → p.crashed ≡ none
    → p.handled ≡ none
    → p.phase ≡ running
    → ((i : ℕ) → i < n → p.positions i ≡ idle)
    → CanSend n stale p c
    → (q : Removal) × Reach n stale returns p q × (q.crashed ≡ some c)
removal-crashes n stale returns p of_dial up free at idles can = (
  record p { phase = closed; routed = stale; dials = p.dials - 1; crashed = some of_dial },
  moved (removed n stale returns p up free idles at)
      (dial_closed (p.dials - 1) up (omega arith) refl refl),
  refl,
)
removal-crashes n stale returns p (of_worker i) up free at idles can = (
  record p {
    phase = closed;
    routed = stale;
    positions = set i holding p.positions;
    crashed = some (of_worker i);
  },
  moved
      (moved (removed n stale returns p up free idles at)
        (find i can.0 up (idles i can.0) can.1 refl))
      (ask_closed i can.0 up (rw (==_self i) refl) refl refl),
  refl,
)
