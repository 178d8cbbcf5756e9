-- ===== src/V2/Server/Run/InTurn.antt =====
-- src/server.go: the loop over the Java connections takes one after the other.
use ipojknm.Prelude.{
  Bool, true, false, ℕ, Option, none, some, List, [], ◌∷◌, ◌++◌, map, ◌≡◌, ap, ◌∙◌, All,
}
use mathlib.Core.List.{append_assoc}
use ipojknm.Prelude.Text.{GoString}
use ipojknm.Prelude.Table.{Table, lookup}
use ipojknm.Errors.{GoError, Outcome, ok, err, fault}
use ipojknm.Mc.Packet.{marshal}
use ipojknm.Mc.Handshake.{ServerBoundHandshake, marshal_handshake}
use ipojknm.V2.Packet.Frames.{Fits}
use ipojknm.V2.Source.{Source}
use ipojknm.V2.Server.{Joined, process_connection}
use ipojknm.V2.Server.Java.{process_connection-marshal}
use ipojknm.V2.Server.Run.{runs, panicked, Accepted, connection, accept_each}

-- A client that sends its handshake in one segment, and more; its server and what a Dial to it gives.
pub record Caller : Type 0 where
  pub handshake : ServerBoundHandshake
  pub addr : GoString
  pub conn : ℕ
  pub extra : List ℕ
  pub later : List (List ℕ)
  pub last_error : GoError

abbrev pub call_of : Caller → Bool → Accepted
call_of c ends =
    connection c.last_error (marshal (marshal_handshake c.handshake) ++ c.extra, c.later) ends

abbrev pub joined_of : Caller → Joined
joined_of c = (c.conn, marshal (marshal_handshake c.handshake), (c.extra, c.later))

module _ (dial : GoString → Outcome ℕ) (servers : Table GoString) where
  -- Its handshake fits a frame, its domain is known, and its server can be dialed.
  pub record IsServed (c : Caller) : Type 0 where
    pub fits : Fits c.handshake
    pub known : lookup c.handshake.server_address servers ≡ some c.addr
    pub dials : dial c.addr ≡ ok c.conn

  joins :
      (c : Caller)
      → IsServed c
      → process_connection dial servers c.last_error
          (marshal (marshal_handshake c.handshake) ++ c.extra, c.later)
        ≡ some (ok (joined_of c))
  joins c s =
      process_connection-marshal dial servers c.handshake c.addr c.conn c.extra c.last_error c.later
        s.fits s.known s.dials

  goes_on :
      (e : GoError) (client : Source) (j : Joined) (calls : List Accepted) (before : List Joined)
      → process_connection dial servers e client ≡ some (ok j)
      → accept_each dial servers (connection e client true ∷ calls) before
        ≡ accept_each dial servers calls (before ++ j ∷ [])
  unfolding accept_each
  goes_on e client j calls before p =
      ap
        (λ (o : Option (Outcome Joined)). elim o [
          | none ↦ (before, runs)
          | some (ok x) ↦ accept_each dial servers calls (before ++ x ∷ [])
          | some (err x) ↦ accept_each dial servers calls before
          | some fault ↦ (before, panicked)
        ])
        p

  stays :
      (e : GoError) (client : Source) (j : Joined) (calls : List Accepted) (before : List Joined)
      → process_connection dial servers e client ≡ some (ok j)
      → accept_each dial servers (connection e client false ∷ calls) before
        ≡ (before ++ j ∷ [], runs)
  unfolding accept_each
  stays e client j calls before p =
      ap
        (λ (o : Option (Outcome Joined)). elim o [
          | none ↦ (before, runs)
          | some (ok x) ↦ (before ++ x ∷ [], runs)
          | some (err x) ↦ accept_each dial servers calls before
          | some fault ↦ (before, panicked)
        ])
        p

  in_turn :
      (cs : List Caller) (c : Caller) (rest : List Accepted) (before : List Joined)
      → All IsServed cs
      → IsServed c
      → accept_each dial servers (map (λ x. call_of x true) cs ++ call_of c false ∷ rest) before
        ≡ (before ++ (map joined_of cs ++ joined_of c ∷ []), runs)
  in_turn [] c rest before all s = stays c.last_error _ (joined_of c) rest before (joins c s)
  in_turn (x ∷ cs) c rest before all s =
      goes_on x.last_error _ (joined_of x) _ before (joins x all.0)
      ∙ (in_turn cs c rest (before ++ joined_of x ∷ []) all.1 s
          ∙ ap (λ (t : List Joined). (t, runs)) (append_assoc before (joined_of x ∷ []) _))

  -- Clients whose handshake comes in one segment, names a known domain and whose server can be dialed
  -- are each connected to that server, which gets the handshake's own bytes, one after the other; but
  -- behind the first client whose connection does not come to an end no later one is served at all,
  -- whatever it sends.
  pub accept_each-in_turn :
      (cs : List Caller) (c : Caller) (rest : List Accepted)
      → All IsServed cs
      → IsServed c
      → accept_each dial servers (map (λ x. call_of x true) cs ++ call_of c false ∷ rest) []
        ≡ (map joined_of cs ++ joined_of c ∷ [], runs)
  accept_each-in_turn cs c rest all s = in_turn cs c rest [] all s
