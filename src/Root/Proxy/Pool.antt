-- ===== src/Root/Proxy/Pool.antt =====
-- proxy.go: the loop of SpeedyProxy.Start and the goroutines that it starts, which hold a place in the
-- channel maxConnParallelProcessing while they run FullRun. Their order is open, so this is a step
-- relation.
use ipojknm.Prelude.{ℕ, suc, ◌+◌, ◌≤◌, ◌<◌, ◌≡◌, refl, arith}
use native.Mathlib.Decide.{dec_lt}

-- The channel's capacity.
abbrev pub max_conn_parallel_processing : ℕ
max_conn_parallel_processing = 100_000

-- Where the loop stands: before Accept, in claimParallelRun, or behind its end.
pub data Phase : Type 0 where
  accepting claiming stopped : Phase

-- `running` is the number of goroutines, `accepted` and `done` count connections.
pub record Pool : Type 0 where
  pub phase : Phase
  pub running : ℕ
  pub accepted : ℕ
  pub done : ℕ

abbrev pub start : Pool
start = record { phase = accepting; running = 0; accepted = 0; done = 0 }

-- One step of the loop, or the end of a goroutine with its unclaimParallelRun.
pub data Step (p q : Pool) : Type 0 where
  accept :
      p.phase ≡ accepting → q ≡ record p { phase = claiming; accepted = p.accepted + 1 } → Step p q
  accept_error : p.phase ≡ accepting → q ≡ p → Step p q
  listener_closed : p.phase ≡ accepting → q ≡ record p { phase = stopped } → Step p q
  claim :
      p.phase ≡ claiming
      → p.running < max_conn_parallel_processing
      → q ≡ record p { phase = accepting; running = p.running + 1 }
      → Step p q
  finish : (n : ℕ) → p.running ≡ suc n → q ≡ record p { running = n; done = p.done + 1 } → Step p q

pub data Reach (p : Pool) : Pool → Type 0 where
  unmoved : Reach p p
  moved : {q r : Pool} → Reach p q → Step q r → Reach p r

-- The connection that waits for a place.
abbrev pub waiting : Phase → ℕ
waiting accepting = 0
waiting claiming = 1
waiting stopped = 0

-- No more goroutines than places, and every accepted connection is served, being served, or waits.
pub record IsSound (p : Pool) : Type 0 where
  pub bounded : p.running ≤ max_conn_parallel_processing
  pub counted : p.accepted ≡ p.done + p.running + waiting p.phase

Step-IsSound : (p q : Pool) → Step p q → IsSound p → IsSound q
Step-IsSound p q (accept at e) s = ground (arith, s.bounded, s.counted)
Step-IsSound p q (accept_error at e) s = ground (arith, s.bounded, s.counted)
Step-IsSound p q (listener_closed at e) s = ground (arith, s.bounded, s.counted)
Step-IsSound p q (claim at room e) s = ground (arith, s.bounded, s.counted)
Step-IsSound p q (finish n some e) s = ground (arith, s.bounded, s.counted)

Reach-IsSound_from : {p q : Pool} → IsSound p → Reach p q → IsSound q
Reach-IsSound_from s unmoved = s
Reach-IsSound_from s (moved r st) = Step-IsSound _ _ st (Reach-IsSound_from s r)

-- Whatever order the steps come in, at most 100,000 connections are processed at a time, and each
-- connection that was accepted has been served, is being served, or is the one that waits for a place.
pub Reach-IsSound : (p : Pool) → Reach start p → IsSound p
Reach-IsSound p r = Reach-IsSound_from (omega arith) r

-- A connection that waits for a place can get one: from every state that can be reached, at most one
-- goroutine has to finish before the loop may claim.
pub Reach-claims :
    (p : Pool)
    → Reach start p
    → p.phase ≡ claiming
    → (q : Pool) × Reach p q
      × (q.phase ≡ accepting)
      × (q.accepted ≡ p.accepted)
      × (q.done ≤ p.done + 1)
Reach-claims p r at = elim (dec_lt p.running max_conn_parallel_processing) [
  | yes room ↦ (
    record p { phase = accepting; running = p.running + 1 },
    moved unmoved (claim at room refl),
    refl,
    refl,
    omega arith,
  )
  | no full ↦ (
    record p { phase = accepting; running = 99_999 + 1; done = p.done + 1 },
    moved (moved unmoved (finish 99_999 (omega (arith, (Reach-IsSound p r).bounded)) refl))
        (claim at (omega arith) refl),
    refl,
    refl,
    omega arith,
  )
]
