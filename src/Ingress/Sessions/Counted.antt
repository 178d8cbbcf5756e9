-- ===== src/Ingress/Sessions/Counted.antt =====
-- worker/worker.go and worker/backend.go: what a backend counts is the sessions that are under way.
use ipojknm.Prelude.{
  none, ℕ, zero, suc, ◌+◌, ◌^◌, ◌≤◌, ◌<◌, some, List, [], ◌∷◌, ◌++◌, ◌≡◌, refl, arith, All, length,
  ltb, ◌∙◌, ap, sym,
}
use ipojknm.Prelude.Text.{GoString}
use ipojknm.Errors.{ok}
use ipojknm.Backend.{BackendWorker, proxy_open, proxy_close}
use ipojknm.Backend.Life.{IsPaired, still_open, IsPlain, work_counts}
use ipojknm.Backend.Settings.{Event, request, proxied, check, update, work, has_active_conn}
use ipojknm.Ingress.Sessions.{
  Session, fresh, proxying, over, Traffic, set, IsOther, proxy_connection, start, Step, begin, copy,
  finish, other_event, Reach, unmoved, moved,
}

abbrev pub under_way : Session → ℕ
under_way fresh = 0
under_way (proxying l) = 1
under_way over = 0

-- How many of the first n sessions are under way.
unfoldable pub running : ℕ → (ℕ → Session) → ℕ
running zero sessions = 0
running (suc n) sessions = under_way (sessions n) + running n sessions

running-set_far :
    (n i : ℕ) (x : Session) (s : ℕ → Session) → n ≤ i → running n (set i x s) ≡ running n s
unfolding running
running-set_far zero i x s far = refl
running-set_far (suc n) i x s far = ground (arith, running-set_far n i x s)

running-set :
    (n i : ℕ) (x : Session) (s : ℕ → Session)
    → i < n
    → running n (set i x s) + under_way (s i) ≡ running n s + under_way x
unfolding running
running-set zero i x s few = absurd (omega arith)
running-set (suc n) i x s few = ground (arith, running-set n i x s, running-set_far n i x s)

-- One event more.
IsPaired-append :
    (es : List Event) (n : ℕ) (e : Event)
    → IsPaired n es
    → IsPaired (still_open n es) (e ∷ [])
    → IsPaired n (es ++ e ∷ [])
      × (still_open n (es ++ e ∷ []) ≡ still_open (still_open n es) (e ∷ []))
IsPaired-append [] n e p last = (last, refl)
IsPaired-append (request env req ∷ es) n e p last = IsPaired-append es n e p last
IsPaired-append (proxied proxy_open ∷ es) n e p last = IsPaired-append es (suc n) e p last
IsPaired-append (proxied proxy_close ∷ es) zero e p last = absurd p
IsPaired-append (proxied proxy_close ∷ es) (suc n) e p last = IsPaired-append es n e p last
IsPaired-append (check ∷ es) n e p last = IsPaired-append es n e p last
IsPaired-append (update cfg ∷ es) n e p last = IsPaired-append es n e p last

pub record IsCounted (n : ℕ) (t : Traffic) : Type 0 where
  pub paired : IsPaired 0 t.events
  pub counts : still_open 0 t.events ≡ running n t.sessions

other_last : (e : Event) (n : ℕ) → IsOther e → IsPaired n (e ∷ []) × (still_open n (e ∷ []) ≡ n)
other_last (request env req) n h = (tt, refl)
other_last (proxied a) n h = absurd h
other_last check n h = (tt, refl)
other_last (update cfg) n h = (tt, refl)

close_last :
    (n m : ℕ)
    → n ≡ suc m
    → IsPaired n (proxied proxy_close ∷ []) × (still_open n (proxied proxy_close ∷ []) ≡ m)
close_last n m e = rw e (tt, refl)

Step-IsCounted : (n : ℕ) (p q : Traffic) → Step n p q → IsCounted n p → IsCounted n q
Step-IsCounted n p q (begin i few at e) s =
    let a = IsPaired-append p.events 0 (proxied proxy_open) s.paired tt in
    rw e (record {
      paired = a.0;
      counts =
          ground (arith, a.1, s.counts, at, running-set n i (proxying proxy_connection) p.sessions);
    })
Step-IsCounted n p q (copy i l l' few at m e) s = rw e (record {
  paired = s.paired;
  counts = ground (arith, s.counts, at, running-set n i (proxying l') p.sessions);
})
Step-IsCounted n p q (finish i l few at ended e) s =
    let left : still_open 0 p.events ≡ suc (running n (set i over p.sessions)) =
      ground (arith, s.counts, at, running-set n i over p.sessions) in
    let c = close_last (still_open 0 p.events) (running n (set i over p.sessions)) left in
    let a = IsPaired-append p.events 0 (proxied proxy_close) s.paired c.0 in
    rw e (record { paired = a.0; counts = a.1 ∙ c.1 })
Step-IsCounted n p q (other_event x is e) s =
    let o = other_last x (still_open 0 p.events) is in
    let a = IsPaired-append p.events 0 x s.paired o.0 in
    rw e (record { paired = a.0; counts = a.1 ∙ (o.1 ∙ s.counts) })

start-counts : (n : ℕ) → running n (λ i. fresh) ≡ 0
unfolding running
start-counts zero = refl
start-counts (suc n) = omega (arith, start-counts n)

Reach-IsCounted : {n : ℕ} {t : Traffic} → Reach n start t → IsCounted n t
Reach-IsCounted {n} unmoved = record { paired = tt; counts = sym (start-counts n) }
Reach-IsCounted (moved r st) = Step-IsCounted _ _ _ st (Reach-IsCounted r)

-- However the goroutines of the proxied connections interleave with each other and with the requests,
-- checks and updates that the backend gets, fewer than 2 ^ 63 in all, a backend that starts with a
-- server to dial, no handshake modifier and no connection works all of it off, where every request is
-- one for the status (as BackendServer's are, which have no address) or has an address, and no update
-- brings a handshake modifier. It then counts exactly the connections whose ProxyConnection has begun
-- and not returned; HasActiveConn tells whether there is one.
pub Reach-work :
    (n : ℕ) (t : Traffic) (w : BackendWorker) (target : GoString)
    → Reach n start t
    → All IsPlain t.events
    → w.conn_creator ≡ some target
    → w.hs_modifier ≡ none
    → w.active_conns ≡ 0
    → length t.events < 2 ^ 63
    → (w' : BackendWorker) × (work t.events w ≡ ok w')
      × (w'.active_conns ≡ running n t.sessions)
      × (has_active_conn w' ≡ ltb 0 (running n t.sessions))
Reach-work n t w target r plain dials no_modifier none_yet small =
    let s = Reach-IsCounted r in
    let (w', worked, counts, active) =
      work_counts t.events 0 w target dials no_modifier none_yet (omega arith) s.paired plain in
    (w', worked, counts ∙ s.counts, active ∙ ap (ltb 0) s.counts)
