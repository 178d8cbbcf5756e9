-- ===== src/Manager/Removal.antt =====
-- worker/backend_manager.go's removeConfig against what runs beside it: the workers of
-- worker/worker.go, the goroutines that basic.go's ProcessServer starts, and the loop of one backend in
-- worker/backend.go, from the route to that backend until its channel is closed. The order of all
-- these is open, so this is a step relation.
pub mod Safe
pub mod Panics
pub mod Ends
use ipojknm.Prelude.{
  Bool, true, false, ℕ, zero, suc, ◌+◌, ◌<◌, Option, none, some, List, [], ◌∷◌, ◌++◌, length, ◌≡◌,
  ◌==◌, if◌then◌else◌,
}

-- A worker waits in its select, is at something else (it reads a client's packets, or is at another
-- backend), has found this server, waits for the answer of it, or sends the client what that wants.
pub data Position : Type 0 where
  idle elsewhere holding asking responding : Position

-- Who has sent a request: a worker in ConnAction, or a goroutine in CreateConn.
pub data Caller : Type 0 where
  of_worker : ℕ → Caller
  of_dial : Caller

-- How far removeConfig is: not called; RemoveBackend, with the number of workers that have got the
-- catalog; in the send of Close; behind it.
pub data Phase : Type 0 where
  running : Phase
  telling : ℕ → Phase
  closing closed : Phase

-- `queue` is the buffer of reqCh, `handled` the request that Work is at, `dials` the goroutines that
-- are about to send. `crashed` is who has sent on the closed channel, which ends the process.
pub record Removal : Type 0 where
  pub positions : ℕ → Position
  pub queue : List Caller
  pub handled : Option Caller
  pub dials : ℕ
  pub routed : Bool
  pub phase : Phase
  pub crashed : Option Caller

-- The capacity of reqCh.
abbrev pub buffer_size : ℕ
buffer_size = 5

abbrev pub set : ℕ → Position → (ℕ → Position) → ℕ → Position
set i x positions j = if i == j then x else positions j

abbrev pub is_closed : Phase → Bool
is_closed running = false
is_closed (telling k) = false
is_closed closing = false
is_closed closed = true

abbrev pub start : Removal
start = record {
  positions = λ i. idle;
  queue = [];
  handled = none;
  dials = 0;
  routed = true;
  phase = running;
  crashed = none;
}

-- One step of a process with `n` workers that has not crashed. `stale` is whether a domain is routed
-- to the backend still when RemoveBackend has taken the domains of the config away; `returns` is
-- whether a worker comes back from a client or from another backend, where nothing tells that this
-- backend would be waited for: another backend that was removed never answers a request in its buffer.
pub data Step (n : ℕ) (stale returns : Bool) (p q : Removal) : Type 0 where
  -- Work takes a connection that has nothing to do with this backend so far, and comes back.
  leave_select :
      (i : ℕ)
      → i < n
      → p.crashed ≡ none
      → p.positions i ≡ idle
      → q ≡ record p { positions = set i elsewhere p.positions }
      → Step n stale returns p q
  come_back :
      (i : ℕ)
      → i < n
      → p.crashed ≡ none
      → p.positions i ≡ elsewhere
      → returns ≡ true
      → q ≡ record p { positions = set i idle p.positions }
      → Step n stale returns p q
  -- ProcessConnection: Find gives the server, behind the read of the client.
  find :
      (i : ℕ)
      → i < n
      → p.crashed ≡ none
      → p.positions i ≡ idle
      → p.routed ≡ true
      → q ≡ record p { positions = set i holding p.positions }
      → Step n stale returns p q
  -- BackendServer.HandleRequest of a worker: the send, which waits where the buffer is full.
  ask :
      (i : ℕ)
      → i < n
      → p.crashed ≡ none
      → p.positions i ≡ holding
      → is_closed p.phase ≡ false
      → length p.queue < buffer_size
      → q ≡ record p { positions = set i asking p.positions; queue = p.queue ++ of_worker i ∷ [] }
      → Step n stale returns p q
  ask_closed :
      (i : ℕ)
      → i < n
      → p.crashed ≡ none
      → p.positions i ≡ holding
      → is_closed p.phase ≡ true
      → q ≡ record p { crashed = some (of_worker i) }
      → Step n stale returns p q
  -- Work: a request is taken.
  take :
      (c : Caller) (rest : List Caller)
      → p.crashed ≡ none
      → is_closed p.phase ≡ false
      → p.handled ≡ none
      → p.queue ≡ c ∷ rest
      → q ≡ record p { queue = rest; handled = some c }
      → Step n stale returns p q
  -- Work answers a worker: with PROXY that one starts a goroutine, and is done.
  answer_proxy :
      (i : ℕ)
      → i < n
      → p.crashed ≡ none
      → p.handled ≡ some (of_worker i)
      → p.positions i ≡ asking
      → q ≡ record p { positions = set i idle p.positions; handled = none; dials = p.dials + 1 }
      → Step n stale returns p q
  answer_other :
      (i : ℕ)
      → i < n
      → p.crashed ≡ none
      → p.handled ≡ some (of_worker i)
      → p.positions i ≡ asking
      → q ≡ record p { positions = set i responding p.positions; handled = none }
      → Step n stale returns p q
  respond :
      (i : ℕ)
      → i < n
      → p.crashed ≡ none
      → p.positions i ≡ responding
      → q ≡ record p { positions = set i idle p.positions }
      → Step n stale returns p q
  -- HandleRequest of a goroutine, and its answer.
  dial :
      (d : ℕ)
      → p.crashed ≡ none
      → p.dials ≡ suc d
      → is_closed p.phase ≡ false
      → length p.queue < buffer_size
      → q ≡ record p { dials = d; queue = p.queue ++ of_dial ∷ [] }
      → Step n stale returns p q
  dial_closed :
      (d : ℕ)
      → p.crashed ≡ none
      → p.dials ≡ suc d
      → is_closed p.phase ≡ true
      → q ≡ record p { dials = d; crashed = some of_dial }
      → Step n stale returns p q
  answer_dial :
      p.crashed ≡ none
      → p.handled ≡ some of_dial
      → q ≡ record p { handled = none }
      → Step n stale returns p q
  -- RemoveBackend takes the routes away, and gives each worker the catalog, which waits for its select.
  remove :
      p.crashed ≡ none
      → p.phase ≡ running
      → q ≡ record p { phase = telling 0; routed = stale }
      → Step n stale returns p q
  tell :
      (k : ℕ)
      → p.crashed ≡ none
      → p.phase ≡ telling k
      → k < n
      → p.positions k ≡ idle
      → q ≡ record p { phase = telling (k + 1) }
      → Step n stale returns p q
  all_told :
      p.crashed ≡ none
      → p.phase ≡ telling n
      → q ≡ record p { phase = closing }
      → Step n stale returns p q
  -- Close, which Work takes when it handles no request; it closes reqCh and returns.
  close :
      p.crashed ≡ none
      → p.phase ≡ closing
      → p.handled ≡ none
      → q ≡ record p { phase = closed }
      → Step n stale returns p q

pub data Reach (n : ℕ) (stale returns : Bool) (p : Removal) : Removal → Type 0 where
  unmoved : Reach n stale returns p p
  moved :
      {q r : Removal}
      → Reach n stale returns p q
      → Step n stale returns q r
      → Reach n stale returns p r
