-- ===== src/Root/Link.antt =====
-- basic.go: ProxyConnection and pipe, as they run against each other. worker/worker.go and
-- src/server.go have the same two functions, with one of the pipes in the caller.
pub mod Copies
use ipojknm.Prelude.{
  Bool, true, false, ℕ, ◌≤◌, Option, none, some, List, [], ◌++◌, length, ◌≡◌, ◌⊎◌,
}
use ipojknm.Errors.{Outcome, ok, err, fault}

-- Where a goroutine stands: before a Read in the loop of pipe, between a Read and the Write of what it
-- gave, before its Close, or behind it.
pub data Stage : Type 0 where
  copying : Stage
  writing : List ℕ → Stage
  leaving gone : Stage

-- One call of pipe: all bytes that it has read, and those that it has written.
pub record Pipe : Type 0 where
  pub stage : Stage
  pub taken : List ℕ
  pub given : List ℕ

-- `down` copies from the server to the client and then closes the client; `up` copies the other way
-- and then closes the server.
pub record Link : Type 0 where
  pub down : Pipe
  pub up : Pipe
  pub client_open : Bool
  pub server_open : Bool

abbrev pub new_pipe : Pipe
new_pipe = record { stage = copying; taken = []; given = [] }

-- ProxyConnection: the two goroutines start where CreateConn gives a connection. An error of it goes
-- to the caller, and nothing runs or is closed.
unfoldable pub proxy_connection {ℓ} : {A : Type ℓ} → Outcome A → Option Link
proxy_connection (ok conn) =
    some (record { down = new_pipe; up = new_pipe; client_open = true; server_open = true })
proxy_connection (err e) = none
proxy_connection fault = none

-- The size of the buffer.
abbrev pub buffer_size : ℕ
buffer_size = 0xffff

-- A call of Read or of Write in pipe, with connections that are open or not. A closed connection gives
-- and takes nothing; a Write can fail behind a part of the bytes, and either can fail at any time.
pub data Round (source_open sink_open : Bool) (p q : Pipe) : Type 0 where
  was_read :
      (bb : List ℕ)
      → p.stage ≡ copying
      → source_open ≡ true
      → length bb ≤ buffer_size
      → q ≡ record p { stage = writing bb; taken = p.taken ++ bb }
      → Round source_open sink_open p q
  unread : p.stage ≡ copying → q ≡ record p { stage = leaving } → Round source_open sink_open p q
  written :
      (bb : List ℕ)
      → p.stage ≡ writing bb
      → sink_open ≡ true
      → q ≡ record p { stage = copying; given = p.given ++ bb }
      → Round source_open sink_open p q
  unwritten :
      (part rest : List ℕ)
      → p.stage ≡ writing (part ++ rest)
      → (part ≡ []) ⊎ (sink_open ≡ true)
      → q ≡ record p { stage = leaving; given = p.given ++ part }
      → Round source_open sink_open p q

-- A step of one of the goroutines.
pub data Move (p q : Link) : Type 0 where
  down_round :
      (d : Pipe) → Round p.server_open p.client_open p.down d → q ≡ record p { down = d } → Move p q
  up_round :
      (u : Pipe) → Round p.client_open p.server_open p.up u → q ≡ record p { up = u } → Move p q
  close_client :
      p.down.stage ≡ leaving
      → q ≡ record p { down = record p.down { stage = gone }; client_open = false }
      → Move p q
  close_server :
      p.up.stage ≡ leaving
      → q ≡ record p { up = record p.up { stage = gone }; server_open = false }
      → Move p q

pub data Moves (p : Link) : Link → Type 0 where
  no_move : Moves p p
  then_move : {q r : Link} → Moves p q → Move q r → Moves p r
