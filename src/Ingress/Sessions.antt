-- ===== src/Ingress/Sessions.antt =====
-- worker/worker.go: the goroutines that ProcessAnswer starts for a PROXY answer, which tell the backend
-- of their start and of their end, and the ProxyConnection that they call in between, whose second pipe
-- runs in the caller. Their order is open, so this is a step relation.
pub mod Counted
use ipojknm.Prelude.{Bool, true, ℕ, ◌<◌, List, [], ◌∷◌, ◌++◌, ◌≡◌, ◌==◌, if◌then◌else◌}
use ipojknm.Backend.{proxy_open, proxy_close}
use ipojknm.Backend.Settings.{Event, request, proxied, check, update}
use ipojknm.Root.Link.{Link, gone, new_pipe, Move}

-- The connections of ProxyConnection and its two pipes, as it starts.
abbrev pub proxy_connection : Link
proxy_connection = record { down = new_pipe; up = new_pipe; client_open = true; server_open = true }

-- A goroutine: before its first message, in ProxyConnection, behind its second message.
pub data Session : Type 0 where
  fresh : Session
  proxying : Link → Session
  over : Session

-- `events` is what the backend has been sent, over all its channels, in the order that it works on.
pub record Traffic : Type 0 where
  pub sessions : ℕ → Session
  pub events : List Event

abbrev pub set : ℕ → Session → (ℕ → Session) → ℕ → Session
set i x sessions j = if i == j then x else sessions j

-- An event that no session sends.
abbrev pub IsOther : Event → Type 0
IsOther (request env req) = Unit {0}
IsOther (proxied a) = ⊥
IsOther check = Unit {0}
IsOther (update cfg) = Unit {0}

abbrev pub start : Traffic
start = record { sessions = λ i. fresh; events = [] }

-- One step of one of `n` goroutines, or another event of the backend.
pub data Step (n : ℕ) (p q : Traffic) : Type 0 where
  begin :
      (i : ℕ)
      → i < n
      → p.sessions i ≡ fresh
      → q ≡ record p {
        sessions = set i (proxying proxy_connection) p.sessions;
        events = p.events ++ proxied proxy_open ∷ [];
      }
      → Step n p q
  copy :
      (i : ℕ) (l l' : Link)
      → i < n
      → p.sessions i ≡ proxying l
      → Move l l'
      → q ≡ record p { sessions = set i (proxying l') p.sessions }
      → Step n p q
  -- ProxyConnection returns behind the pipe that its caller runs, and server.Close().
  finish :
      (i : ℕ) (l : Link)
      → i < n
      → p.sessions i ≡ proxying l
      → l.up.stage ≡ gone
      → q ≡ record p {
        sessions = set i over p.sessions;
        events = p.events ++ proxied proxy_close ∷ [];
      }
      → Step n p q
  other_event : (e : Event) → IsOther e → q ≡ record p { events = p.events ++ e ∷ [] } → Step n p q

pub data Reach (n : ℕ) (p : Traffic) : Traffic → Type 0 where
  unmoved : Reach n p p
  moved : {q r : Traffic} → Reach n p q → Step n q r → Reach n p r
