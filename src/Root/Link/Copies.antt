-- ===== src/Root/Link/Copies.antt =====
-- What the two pipes promise in every interleaving.
use mathlib.Core.List.{append_assoc, append-nil}
use mathlib.Core.Path.{subst}
use ipojknm.Prelude.{Bool, false, ℕ, some, ◌≡◌, ◌≢◌, refl, sym, ap, ◌∙◌, List, [], ◌++◌, some_inj}
use ipojknm.Errors.{ok}
use ipojknm.Root.Link.{
  Stage, copying, writing, leaving, gone, Pipe, Link, new_pipe, proxy_connection, Round, was_read,
  unread, written, unwritten, Move, down_round, up_round, close_client, close_server, Moves,
  no_move, then_move,
}

-- What was written is what was read, less what a Write has still to write or has lost: nothing before
-- a Read, and before a Write the bytes of the last Read.
pub record InOrder (p : Pipe) : Type 0 where
  pub left_over : List ℕ
  pub in_order : p.taken ≡ p.given ++ left_over
  pub nothing_left : p.stage ≡ copying → left_over ≡ []
  pub last_read : (bb : List ℕ) → p.stage ≡ writing bb → left_over ≡ bb

-- Before a Read, all that was read is written.
all_given : (p : Pipe) → p.stage ≡ copying → InOrder p → p.taken ≡ p.given
all_given p runs s =
    s.in_order ∙ (ap (λ (t : List ℕ). p.given ++ t) (s.nothing_left runs) ∙ append-nil p.given)

was_read-InOrder :
    (p : Pipe) (bb : List ℕ)
    → p.stage ≡ copying
    → InOrder p
    → InOrder (record p { stage = writing bb; taken = p.taken ++ bb })
was_read-InOrder p bb runs s = record {
  left_over = bb;
  in_order = ap (λ (t : List ℕ). t ++ bb) (all_given p runs s);
  nothing_left = λ r. absurd cc;
  last_read = λ cs e. cc;
}

-- Before a Write of two parts, all but these is written.
two_parts :
    (p : Pipe) (part rest : List ℕ)
    → p.stage ≡ writing (part ++ rest)
    → InOrder p
    → p.taken ≡ (p.given ++ part) ++ rest
two_parts p part rest waits s =
    s.in_order
    ∙ (ap (λ (t : List ℕ). p.given ++ t) (s.last_read (part ++ rest) waits)
        ∙ sym (append_assoc p.given part rest))

written-InOrder :
    (p : Pipe) (bb : List ℕ)
    → p.stage ≡ writing bb
    → InOrder p
    → InOrder (record p { stage = copying; given = p.given ++ bb })
written-InOrder p bb waits s = record {
  left_over = [];
  in_order = two_parts p bb [] (waits ∙ ap writing (sym (append-nil bb))) s;
  nothing_left = λ r. refl;
  last_read = λ cs e. absurd cc;
}

unwritten-InOrder :
    (p : Pipe) (part rest : List ℕ)
    → p.stage ≡ writing (part ++ rest)
    → InOrder p
    → InOrder (record p { stage = leaving; given = p.given ++ part })
unwritten-InOrder p part rest waits s = record {
  left_over = rest;
  in_order = two_parts p part rest waits s;
  nothing_left = λ r. absurd cc;
  last_read = λ cs e. absurd cc;
}

left-InOrder :
    (p : Pipe) (stage : Stage)
    → stage ≢ copying
    → ((bb : List ℕ) → stage ≢ writing bb)
    → InOrder p
    → InOrder (record p { stage = stage })
left-InOrder p stage other other' s = record {
  left_over = s.left_over;
  in_order = s.in_order;
  nothing_left = λ r. absurd (other r);
  last_read = λ bb r. absurd (other' bb r);
}

Round-InOrder :
    (source_open sink_open : Bool) (p q : Pipe)
    → Round source_open sink_open p q
    → InOrder p
    → InOrder q
Round-InOrder a b p q (was_read bb runs opened fits e) s =
    subst InOrder (sym e) (was_read-InOrder p bb runs s)
Round-InOrder a b p q (unread runs e) s =
    subst InOrder (sym e) (left-InOrder p leaving (λ r. cc) (λ bb r. cc) s)
Round-InOrder a b p q (written bb waits opened e) s =
    subst InOrder (sym e) (written-InOrder p bb waits s)
Round-InOrder a b p q (unwritten part rest waits opened e) s =
    subst InOrder (sym e) (unwritten-InOrder p part rest waits s)

-- Both directions keep the order, and a goroutine that has ended has closed its connection.
pub record IsSound (p : Link) : Type 0 where
  pub down_order : InOrder p.down
  pub up_order : InOrder p.up
  pub client_closed : p.down.stage ≡ gone → p.client_open ≡ false
  pub server_closed : p.up.stage ≡ gone → p.server_open ≡ false

Round-stage :
    (source_open sink_open : Bool) (p q : Pipe) → Round source_open sink_open p q → q.stage ≢ gone
Round-stage a b p q (was_read bb runs opened fits e) g = cc
Round-stage a b p q (unread runs e) g = cc
Round-stage a b p q (written bb waits opened e) g = cc
Round-stage a b p q (unwritten part rest waits opened e) g = cc

Move-IsSound : (p q : Link) → Move p q → IsSound p → IsSound q
Move-IsSound p q (down_round d r e) s = subst IsSound (sym e) (record {
  down_order = Round-InOrder _ _ p.down d r s.down_order;
  up_order = s.up_order;
  client_closed = λ g. absurd (Round-stage _ _ p.down d r g);
  server_closed = s.server_closed;
})
Move-IsSound p q (up_round u r e) s = subst IsSound (sym e) (record {
  down_order = s.down_order;
  up_order = Round-InOrder _ _ p.up u r s.up_order;
  client_closed = s.client_closed;
  server_closed = λ g. absurd (Round-stage _ _ p.up u r g);
})
Move-IsSound p q (close_client left e) s = subst IsSound (sym e) (record {
  down_order = left-InOrder p.down gone (λ r. cc) (λ bb r. cc) s.down_order;
  up_order = s.up_order;
  client_closed = λ g. refl;
  server_closed = s.server_closed;
})
Move-IsSound p q (close_server left e) s = subst IsSound (sym e) (record {
  down_order = s.down_order;
  up_order = left-InOrder p.up gone (λ r. cc) (λ bb r. cc) s.up_order;
  client_closed = s.client_closed;
  server_closed = λ g. refl;
})

new_pipe-InOrder : InOrder new_pipe
new_pipe-InOrder = record {
  left_over = [];
  in_order = refl;
  nothing_left = λ r. refl;
  last_read = λ bb e. absurd cc;
}

proxy_connection-IsSound :
    {A : Type 0} (conn : A) (p : Link) → proxy_connection (ok conn) ≡ some p → IsSound p
unfolding proxy_connection
proxy_connection-IsSound conn p e = subst IsSound (some_inj e) (record {
  down_order = new_pipe-InOrder;
  up_order = new_pipe-InOrder;
  client_closed = λ g. absurd cc;
  server_closed = λ g. absurd cc;
})

Moves-IsSound_from : (p q : Link) → IsSound p → Moves p q → IsSound q
Moves-IsSound_from p q s no_move = s
Moves-IsSound_from p q s (then_move r m) = Move-IsSound _ q m (Moves-IsSound_from p _ s r)

-- However the two pipes of ProxyConnection interleave and fail, each side has been sent a beginning
-- of what the other has sent, in its order: all of it where the pipe is before a Read, and all but the
-- bytes of the last Read where it is before a Write. Behind the end of a goroutine its connection is
-- closed.
pub Moves-IsSound :
    {A : Type 0} (conn : A) (p q : Link)
    → proxy_connection (ok conn) ≡ some p
    → Moves p q
    → IsSound q
Moves-IsSound conn p q begins r = Moves-IsSound_from p q (proxy_connection-IsSound conn p begins) r

-- What a closed side means from p to q: the side is closed still, and the pipe that writes to it has
-- written nothing and the pipe that reads from it has read nothing since.
pub record Quiet (p q : Link) : Type 0 where
  pub client_quiet :
      p.client_open ≡ false
      → (q.client_open ≡ false) × (q.down.given ≡ p.down.given) × (q.up.taken ≡ p.up.taken)
  pub server_quiet :
      p.server_open ≡ false
      → (q.server_open ≡ false) × (q.up.given ≡ p.up.given) × (q.down.taken ≡ p.down.taken)
