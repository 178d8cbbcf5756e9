-- ===== src/Manager/Removal/Safe.antt =====
-- worker/backend_manager.go: which workers a removed backend still has to do with.
use ipojknm.Prelude.{
  Bool, true, false, ℕ, ◌≤◌, ◌<◌, Option, none, some, [], ◌∷◌, length, ◌≡◌, ◌≢◌, refl, arith,
  length-append,
}
use ipojknm.Manager.Removal.{
  Position, idle, elsewhere, holding, asking, responding, Caller, of_worker, of_dial, Phase,
  running, telling, closing, closed, Removal, buffer_size, start, Step, leave_select, come_back,
  find, ask, ask_closed, take, answer_proxy, answer_other, respond, dial, dial_closed, answer_dial,
  remove, tell, all_told, close, Reach, unmoved, moved,
}

-- How many of the workers have got the catalog without the routes.
abbrev pub told : ℕ → Phase → ℕ
told n running = 0
told n (telling k) = k
told n closing = n
told n closed = n

abbrev pub removes : Phase → Bool
removes running = false
removes (telling k) = true
removes closing = true
removes closed = true

abbrev pub not_a_worker : Option Caller → Bool
not_a_worker none = true
not_a_worker (some (of_worker i)) = false
not_a_worker (some of_dial) = true

-- A worker that has nothing to do with the backend.
abbrev pub is_away : Position → Bool
is_away idle = true
is_away elsewhere = true
is_away holding = false
is_away asking = false
is_away responding = false

pub record IsSafe (n : ℕ) (p : Removal) : Type 0 where
  pub told_idle : (i : ℕ) → i < told n p.phase → is_away (p.positions i) ≡ true
  pub unrouted : removes p.phase ≡ true → p.routed ≡ false
  pub within : told n p.phase ≤ n
  pub short : length p.queue ≤ buffer_size
  pub crash : not_a_worker p.crashed ≡ true

Step-IsSafe :
    (n : ℕ) (returns : Bool) (p q : Removal) → Step n false returns p q → IsSafe n p → IsSafe n q
Step-IsSafe n returns p q (find i few up at route e) s = record {
  told_idle = λ j lt. ground (arith, s.told_idle j, s.told_idle i, s.unrouted, s.within);
  unrouted = ground (arith, s.unrouted);
  within = ground (arith, s.within);
  short = ground (arith, s.short);
  crash = ground (arith, s.crash);
}
Step-IsSafe n returns p q (leave_select i few up at e) s = record {
  told_idle = λ j lt. ground (arith, s.told_idle j, s.told_idle i, s.unrouted, s.within);
  unrouted = ground (arith, s.unrouted);
  within = ground (arith, s.within);
  short = ground (arith, s.short);
  crash = ground (arith, s.crash);
}
Step-IsSafe n returns p q (come_back i few up at back e) s = record {
  told_idle = λ j lt. ground (arith, s.told_idle j, s.told_idle i, s.unrouted, s.within);
  unrouted = ground (arith, s.unrouted);
  within = ground (arith, s.within);
  short = ground (arith, s.short);
  crash = ground (arith, s.crash);
}
Step-IsSafe n returns p q (ask i few up at usable room e) s = record {
  told_idle = λ j lt. ground (arith, s.told_idle j, s.told_idle i, s.unrouted, s.within);
  unrouted = ground (arith, s.unrouted);
  within = ground (arith, s.within);
  short = ground (arith, s.short, length-append p.queue (of_worker i ∷ []));
  crash = ground (arith, s.crash);
}
Step-IsSafe n returns p q (ask_closed i few up at shut e) s = record {
  told_idle = λ j lt. ground (arith, s.told_idle j, s.told_idle i, s.unrouted, s.within);
  unrouted = ground (arith, s.unrouted);
  within = ground (arith, s.within);
  short = ground (arith, s.short);
  crash = ground (arith, s.crash, s.told_idle i, s.within);
}
Step-IsSafe n returns p q (take c rest up usable free at e) s = record {
  told_idle = λ j lt. ground (arith, s.told_idle j, s.unrouted, s.within);
  unrouted = ground (arith, s.unrouted);
  within = ground (arith, s.within);
  short = ground (arith, s.short);
  crash = ground (arith, s.crash);
}
Step-IsSafe n returns p q (answer_proxy i few up at waits e) s = record {
  told_idle = λ j lt. ground (arith, s.told_idle j, s.told_idle i, s.unrouted, s.within);
  unrouted = ground (arith, s.unrouted);
  within = ground (arith, s.within);
  short = ground (arith, s.short);
  crash = ground (arith, s.crash);
}
Step-IsSafe n returns p q (answer_other i few up at waits e) s = record {
  told_idle = λ j lt. ground (arith, s.told_idle j, s.told_idle i, s.unrouted, s.within);
  unrouted = ground (arith, s.unrouted);
  within = ground (arith, s.within);
  short = ground (arith, s.short);
  crash = ground (arith, s.crash);
}
Step-IsSafe n returns p q (respond i few up at e) s = record {
  told_idle = λ j lt. ground (arith, s.told_idle j, s.told_idle i, s.unrouted, s.within);
  unrouted = ground (arith, s.unrouted);
  within = ground (arith, s.within);
  short = ground (arith, s.short);
  crash = ground (arith, s.crash);
}
Step-IsSafe n returns p q (dial d up some_dial usable room e) s = record {
  told_idle = λ j lt. ground (arith, s.told_idle j, s.unrouted, s.within);
  unrouted = ground (arith, s.unrouted);
  within = ground (arith, s.within);
  short = ground (arith, s.short, length-append p.queue (of_dial ∷ []));
  crash = ground (arith, s.crash);
}
Step-IsSafe n returns p q (dial_closed d up some_dial shut e) s = record {
  told_idle = λ j lt. ground (arith, s.told_idle j, s.unrouted, s.within);
  unrouted = ground (arith, s.unrouted);
  within = ground (arith, s.within);
  short = ground (arith, s.short);
  crash = ground (arith, s.crash);
}
Step-IsSafe n returns p q (answer_dial up at e) s = record {
  told_idle = λ j lt. ground (arith, s.told_idle j, s.unrouted, s.within);
  unrouted = ground (arith, s.unrouted);
  within = ground (arith, s.within);
  short = ground (arith, s.short);
  crash = ground (arith, s.crash);
}
Step-IsSafe n returns p q (remove up at e) s = record {
  told_idle = λ j lt. ground (arith, s.told_idle j, s.unrouted, s.within);
  unrouted = ground (arith, s.unrouted);
  within = ground (arith, s.within);
  short = ground (arith, s.short);
  crash = ground (arith, s.crash);
}
Step-IsSafe n returns p q (tell k up at few waits e) s = record {
  told_idle = λ j lt. ground (arith, s.told_idle j, s.unrouted, s.within);
  unrouted = ground (arith, s.unrouted);
  within = ground (arith, s.within);
  short = ground (arith, s.short);
  crash = ground (arith, s.crash);
}
Step-IsSafe n returns p q (all_told up at e) s = record {
  told_idle = λ j lt. ground (arith, s.told_idle j, s.unrouted, s.within);
  unrouted = ground (arith, s.unrouted);
  within = ground (arith, s.within);
  short = ground (arith, s.short);
  crash = ground (arith, s.crash);
}
Step-IsSafe n returns p q (close up at free e) s = record {
  told_idle = λ j lt. ground (arith, s.told_idle j, s.unrouted, s.within);
  unrouted = ground (arith, s.unrouted);
  within = ground (arith, s.within);
  short = ground (arith, s.short);
  crash = ground (arith, s.crash);
}

Reach-IsSafe_from :
    {n : ℕ} {returns : Bool} {p q : Removal} → IsSafe n p → Reach n false returns p q → IsSafe n q
Reach-IsSafe_from s unmoved = s
Reach-IsSafe_from s (moved r st) = Step-IsSafe _ _ _ _ st (Reach-IsSafe_from s r)

start-IsSafe : (n : ℕ) → IsSafe n start
start-IsSafe n = record {
  told_idle = λ i lt. refl;
  unrouted = λ e. cc;
  within = omega arith;
  short = omega arith;
  crash = refl;
}

-- Where the domains of the config are all that was routed to its backend, then however the steps of
-- the workers, of their goroutines, of the backend and of removeConfig interleave, and whether or not
-- workers come back from elsewhere: behind Close every worker waits in its select or is at something
-- else, so that none sends to the closed backend or waits for its answer; the buffer never holds more
-- than five requests; and no worker crashes the process by such a send.
pub Reach-closed :
    (n : ℕ) (returns : Bool) (p : Removal)
    → Reach n false returns start p
    → (p.phase ≡ closed → (i : ℕ) → i < n → is_away (p.positions i) ≡ true)
      × (length p.queue ≤ buffer_size)
      × ((i : ℕ) → p.crashed ≢ some (of_worker i))
Reach-closed n returns p r =
    let s = Reach-IsSafe_from (start-IsSafe n) r in
    (λ at i few. s.told_idle i (rw at few), s.short, λ i e. ground (arith, s.crash))
