-- ===== src/Manager/Intake.antt =====
-- worker/run.go: the listeners' loops of serveListener, the channel between them and the workers, and
-- the take of a worker's loop in worker/worker.go. Their order is open, so this is a step relation. A
-- connection is the number of the Accept that gave it.
pub mod Handed
use ipojknm.Prelude.{
  Bool, true, false, ℕ, ◌+◌, ◌<◌, List, [], ◌∷◌, ◌++◌, length, ◌≡◌, ◌==◌, if◌then◌else◌,
}

-- Where a loop of serveListener stands: in Accept, in the send of a connection, or behind its end.
pub data Listening : Type 0 where
  accepting : Listening
  sending : ℕ → Listening
  stopped : Listening

-- `channel` is the buffer of ReqCh, `taken` what the workers have taken from it, in that order, and
-- `accepted` the number of connections so far.
pub record Intake : Type 0 where
  pub loops : ℕ → Listening
  pub channel : List ℕ
  pub taken : List ℕ
  pub accepted : ℕ

-- The capacity of ReqCh.
abbrev pub channel_size : ℕ
channel_size = 50

abbrev pub set : ℕ → Listening → (ℕ → Listening) → ℕ → Listening
set i x loops j = if i == j then x else loops j

abbrev pub start : Intake
start = record { loops = λ i. accepting; channel = []; taken = []; accepted = 0 }

-- One step with `n` listeners.
pub data Step (n : ℕ) (p q : Intake) : Type 0 where
  accept :
      (i : ℕ)
      → i < n
      → p.loops i ≡ accepting
      → q ≡ record p { loops = set i (sending p.accepted) p.loops; accepted = p.accepted + 1 }
      → Step n p q
  -- net.ErrClosed ends the loop, any other error does not.
  accept_error : (i : ℕ) → i < n → p.loops i ≡ accepting → q ≡ p → Step n p q
  listener_closed :
      (i : ℕ)
      → i < n
      → p.loops i ≡ accepting
      → q ≡ record p { loops = set i stopped p.loops }
      → Step n p q
  -- `reqCh <- conn`, which waits where the buffer is full.
  send :
      (i c : ℕ)
      → i < n
      → p.loops i ≡ sending c
      → length p.channel < channel_size
      → q ≡ record p { loops = set i accepting p.loops; channel = p.channel ++ c ∷ [] }
      → Step n p q
  -- `conn := <-bw.reqCh` of a worker
  take :
      (c : ℕ) (rest : List ℕ)
      → p.channel ≡ c ∷ rest
      → q ≡ record p { channel = rest; taken = p.taken ++ c ∷ [] }
      → Step n p q

pub data Reach (n : ℕ) (p : Intake) : Intake → Type 0 where
  unmoved : Reach n p p
  moved : {q r : Intake} → Reach n p q → Step n q r → Reach n p r
