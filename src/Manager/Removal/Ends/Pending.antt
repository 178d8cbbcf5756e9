-- ===== src/Manager/Removal/Ends/Pending.antt =====
-- worker/backend.go: a worker waits for an answer exactly while its request is pending.
use ipojknm.Prelude.{
  Bool, ℕ, ◌+◌, ◌≤◌, Option, none, some, List, [], ◌∷◌, ◌++◌, ◌≡◌, ◌==◌, if◌then◌else◌, refl, arith,
}
use ipojknm.Manager.Removal.Safe.{told}
use ipojknm.Manager.Removal.{
  Position, idle, elsewhere, holding, asking, responding, Caller, of_worker, of_dial, Removal,
  start, Step, leave_select, come_back, find, ask, ask_closed, take, answer_proxy, answer_other,
  respond, dial, dial_closed, answer_dial, remove, tell, all_told, close, Reach, unmoved, moved,
}

abbrev pub sent_by : ℕ → Caller → ℕ
sent_by i (of_worker j) = if i == j then 1 else 0
sent_by i of_dial = 0

unfoldable pub sends : ℕ → List Caller → ℕ
sends i [] = 0
sends i (c ∷ cs) = sent_by i c + sends i cs

abbrev pub taken : ℕ → Option Caller → ℕ
taken i none = 0
taken i (some c) = sent_by i c

abbrev pub asks : Position → ℕ
asks idle = 0
asks elsewhere = 0
asks holding = 0
asks asking = 1
asks responding = 0

sends-append : (i : ℕ) (cs ds : List Caller) → sends i (cs ++ ds) ≡ sends i cs + sends i ds
unfolding sends
sends-append i [] ds = omega arith
sends-append i (c ∷ cs) ds = omega (arith, sends-append i cs ds)

pub record IsServed (n : ℕ) (p : Removal) : Type 0 where
  pub pending : (i : ℕ) → taken i p.handled + sends i p.queue ≡ asks (p.positions i)
  pub within : told n p.phase ≤ n
  pub known : (i : ℕ) → n ≤ i → p.positions i ≡ idle

Step-IsServed :
    (n : ℕ) (stale returns : Bool) (p q : Removal)
    → Step n stale returns p q
    → IsServed n p
    → IsServed n q
unfolding sends
Step-IsServed n stale returns p q (find i few up at route e) s = record {
  pending = λ j. ground (arith, s.pending j);
  within = ground (arith, s.within);
  known = λ j far. ground (arith, s.known j);
}
Step-IsServed n stale returns p q (leave_select i few up at e) s = record {
  pending = λ j. ground (arith, s.pending j);
  within = ground (arith, s.within);
  known = λ j far. ground (arith, s.known j);
}
Step-IsServed n stale returns p q (come_back i few up at back e) s = record {
  pending = λ j. ground (arith, s.pending j);
  within = ground (arith, s.within);
  known = λ j far. ground (arith, s.known j);
}
Step-IsServed n stale returns p q (ask i few up at usable room e) s = record {
  pending = λ j. ground (arith, s.pending j, sends-append j p.queue (of_worker i ∷ []));
  within = ground (arith, s.within);
  known = λ j far. ground (arith, s.known j);
}
Step-IsServed n stale returns p q (ask_closed i few up at shut e) s = record {
  pending = λ j. ground (arith, s.pending j);
  within = ground (arith, s.within);
  known = λ j far. ground (arith, s.known j);
}
Step-IsServed n stale returns p q (take c rest up usable free at e) s = record {
  pending = λ j. ground (arith, s.pending j);
  within = ground (arith, s.within);
  known = λ j far. ground (arith, s.known j);
}
Step-IsServed n stale returns p q (answer_proxy i few up at waits e) s = record {
  pending = λ j. ground (arith, s.pending j);
  within = ground (arith, s.within);
  known = λ j far. ground (arith, s.known j);
}
Step-IsServed n stale returns p q (answer_other i few up at waits e) s = record {
  pending = λ j. ground (arith, s.pending j);
  within = ground (arith, s.within);
  known = λ j far. ground (arith, s.known j);
}
Step-IsServed n stale returns p q (respond i few up at e) s = record {
  pending = λ j. ground (arith, s.pending j);
  within = ground (arith, s.within);
  known = λ j far. ground (arith, s.known j);
}
Step-IsServed n stale returns p q (dial d up some_dial usable room e) s = record {
  pending = λ j. ground (arith, s.pending j, sends-append j p.queue (of_dial ∷ []));
  within = ground (arith, s.within);
  known = λ j far. ground (arith, s.known j);
}
Step-IsServed n stale returns p q (dial_closed d up some_dial shut e) s = record {
  pending = λ j. ground (arith, s.pending j);
  within = ground (arith, s.within);
  known = λ j far. ground (arith, s.known j);
}
Step-IsServed n stale returns p q (answer_dial up at e) s = record {
  pending = λ j. ground (arith, s.pending j);
  within = ground (arith, s.within);
  known = λ j far. ground (arith, s.known j);
}
Step-IsServed n stale returns p q (remove up at e) s = record {
  pending = λ j. ground (arith, s.pending j);
  within = ground (arith, s.within);
  known = λ j far. ground (arith, s.known j);
}
Step-IsServed n stale returns p q (tell k up at few waits e) s = record {
  pending = λ j. ground (arith, s.pending j);
  within = ground (arith, s.within);
  known = λ j far. ground (arith, s.known j);
}
Step-IsServed n stale returns p q (all_told up at e) s = record {
  pending = λ j. ground (arith, s.pending j);
  within = ground (arith, s.within);
  known = λ j far. ground (arith, s.known j);
}
Step-IsServed n stale returns p q (close up at free e) s = record {
  pending = λ j. ground (arith, s.pending j);
  within = ground (arith, s.within);
  known = λ j far. ground (arith, s.known j);
}

pub Reach-IsServed :
    {n : ℕ} {stale returns : Bool} {p q : Removal}
    → IsServed n p
    → Reach n stale returns p q
    → IsServed n q
Reach-IsServed s unmoved = s
Reach-IsServed s (moved r st) = Step-IsServed _ _ _ _ _ st (Reach-IsServed s r)

pub start-IsServed : (n : ℕ) → IsServed n start
unfolding sends
start-IsServed n = record {
  pending = λ i. omega arith;
  within = omega arith;
  known = λ i far. refl;
}
