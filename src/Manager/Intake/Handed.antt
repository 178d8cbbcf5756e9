-- ===== src/Manager/Intake/Handed.antt =====
-- worker/run.go: each accepted connection is handed to one worker.
use ipojknm.Prelude.{
  ℕ, ◌+◌, ◌≤◌, ◌<◌, List, [], ◌∷◌, ◌++◌, length, length-append, ◌≡◌, ◌⊎◌, inl, inr, arith, ◌==◌,
  if◌then◌else◌, ==_self, dec_lt, ℕ_discrete, ◌≢◌, ◌∙◌, ap, sym,
}
use ipojknm.Manager.Intake.{
  Listening, accepting, sending, stopped, Intake, channel_size, set, start, Step, accept,
  accept_error, listener_closed, send, take, Reach, unmoved, moved,
}

unfoldable pub count : ℕ → List ℕ → ℕ
count c [] = 0
count c (d ∷ ds) = (if c == d then 1 else 0) + count c ds

count-append : (c : ℕ) (ds es : List ℕ) → count c (ds ++ es) ≡ count c ds + count c es
unfolding count
count-append c [] es = omega arith
count-append c (d ∷ ds) es = omega (arith, count-append c ds es)

-- How often a connection was put into the channel.
abbrev pub handed : ℕ → Intake → ℕ
handed c p = count c p.taken + count c p.channel

-- The loop that holds a connection.
abbrev pub Held : Intake → ℕ → Type 0
Held p c = (i : ℕ) × (p.loops i ≡ sending c)

pub record IsFed (p : Intake) : Type 0 where
  pub short : length p.channel ≤ channel_size
  pub placed : (c : ℕ) → c < p.accepted → (handed c p ≡ 1) ⊎ Held p c
  pub future : (c : ℕ) → p.accepted ≤ c → handed c p ≡ 0
  pub held : (i c : ℕ) → p.loops i ≡ sending c → (c < p.accepted) × (handed c p ≡ 0)
  pub own : (i j c : ℕ) → p.loops i ≡ sending c → p.loops j ≡ sending c → i ≡ j

set_other : (i j : ℕ) (x : Listening) (loops : ℕ → Listening) → i ≢ j → set i x loops j ≡ loops j
set_other i j x loops differ = ground (arith, differ)

-- A loop that is not at this connection may go on.
stays :
    (p : Intake) (i c : ℕ) (x : Listening)
    → (p.loops i ≢ sending c)
    → Held p c
    → (j : ℕ) × (set i x p.loops j ≡ sending c)
stays p i c x other (j, at) = elim (ℕ_discrete i j) [
  | yes same ↦ absurd (other (rw same at))
  | no differ ↦ (j, set_other i j x p.loops differ ∙ at)
]

was :
    (i j c : ℕ) (x : Listening) (loops : ℕ → Listening)
    → set i x loops j ≡ sending c
    → ((i ≡ j) × (x ≡ sending c)) ⊎ ((i ≢ j) × (loops j ≡ sending c))
was i j c x loops e = elim (ℕ_discrete i j) [
  | yes same ↦ inl (same, ground arith)
  | no differ ↦ inr (differ, sym (set_other i j x loops differ) ∙ e)
]

sending_inj : (a c : ℕ) → sending a ≡ sending c → a ≡ c
sending_inj a c e = cc

-- A loop that holds nothing behind the step takes nothing from the others.
keeps_own :
    (p : Intake) (i : ℕ) (x : Listening)
    → ((c : ℕ) → x ≢ sending c)
    → IsFed p
    → (j k c : ℕ) → set i x p.loops j ≡ sending c
    → set i x p.loops k ≡ sending c
    → j ≡ k
keeps_own p i x holds_none s j k c e f = elim (was i j c x p.loops e) [
  | inl same ↦ absurd (holds_none c same.1)
  | inr before ↦ elim (was i k c x p.loops f) [
    | inl same ↦ absurd (holds_none c same.1)
    | inr before' ↦ s.own j k c before.1 before'.1
  ]
]

accept-IsFed :
    (p : Intake) (i : ℕ)
    → p.loops i ≡ accepting
    → IsFed p
    → IsFed (record p { loops = set i (sending p.accepted) p.loops; accepted = p.accepted + 1 })
accept-IsFed p i at s = record {
  short = s.short;
  placed = λ c lt. elim (dec_lt c p.accepted) [
    | yes old ↦ elim (s.placed c old) [
      | inl once ↦ inl once
      | inr h ↦ inr (stays p i c (sending p.accepted) (λ e. cc) h)
    ]
    | no new ↦ let same : p.accepted ≡ c = omega arith in inr (i, rw (==_self i) (ap sending same))
  ];
  future = λ c far. s.future c (omega arith);
  held = λ j c e. elim (was i j c (sending p.accepted) p.loops e) [
    | inl same ↦
        let is : p.accepted ≡ c = sending_inj p.accepted c same.1 in
        (omega arith, s.future c (omega arith))
    | inr before ↦ (omega (arith, (s.held j c before.1).0), (s.held j c before.1).1)
  ];
  own = λ j k c e f. elim (was i j c (sending p.accepted) p.loops e) [
    | inl same ↦ elim (was i k c (sending p.accepted) p.loops f) [
      | inl same' ↦ sym same.0 ∙ same'.0
      | inr before ↦
          absurd (omega (arith, (s.held k c before.1).0, sending_inj p.accepted c same.1))
    ]
    | inr before ↦ elim (was i k c (sending p.accepted) p.loops f) [
      | inl same ↦ absurd (omega (arith, (s.held j c before.1).0, sending_inj p.accepted c same.1))
      | inr before' ↦ s.own j k c before.1 before'.1
    ]
  ];
}

closed-IsFed :
    (p : Intake) (i : ℕ)
    → p.loops i ≡ accepting
    → IsFed p
    → IsFed (record p { loops = set i stopped p.loops })
closed-IsFed p i at s = record {
  short = s.short;
  placed = λ c lt. elim (s.placed c lt) [
    | inl once ↦ inl once
    | inr h ↦ inr (stays p i c stopped (λ e. cc) h)
  ];
  future = s.future;
  held = λ j c e. elim (was i j c stopped p.loops e) [
    | inl same ↦ absurd (cc)
    | inr before ↦ s.held j c before.1
  ];
  own = keeps_own p i stopped (λ c e. cc) s;
}

send-IsFed :
    (p : Intake) (i d : ℕ)
    → p.loops i ≡ sending d
    → length p.channel < channel_size
    → IsFed p
    → IsFed (record p { loops = set i accepting p.loops; channel = p.channel ++ d ∷ [] })
unfolding count
send-IsFed p i d at room s = record {
  short = omega (arith, length-append p.channel (d ∷ []));
  placed = λ c lt. elim (ℕ_discrete c d) [
    | yes same ↦ inl (ground (arith, count-append c p.channel (d ∷ []), (s.held i d at).1))
    | no differ ↦ elim (s.placed c lt) [
      | inl once ↦ inl (ground (arith, count-append c p.channel (d ∷ [])))
      | inr h ↦ inr (stays p i c accepting (λ e. differ (sending_inj c d (sym e ∙ at))) h)
    ]
  ];
  future =
      λ c far. ground (arith, count-append c p.channel (d ∷ []), s.future c, (s.held i d at).0);
  held = λ j c e. elim (was i j c accepting p.loops e) [
    | inl same ↦ absurd (cc)
    | inr before ↦
        let other : c ≢ d = λ same. before.0 (s.own i j d at (before.1 ∙ ap sending same)) in
        (
          (s.held j c before.1).0,
          ground (arith, count-append c p.channel (d ∷ []), (s.held j c before.1).1, other),
        )
  ];
  own = keeps_own p i accepting (λ c e. cc) s;
}

take-IsFed :
    (p : Intake) (d : ℕ) (rest : List ℕ)
    → p.channel ≡ d ∷ rest
    → IsFed p
    → IsFed (record p { channel = rest; taken = p.taken ++ d ∷ [] })
unfolding count
take-IsFed p d rest at s =
    let moves : (c : ℕ) → count c (p.taken ++ d ∷ []) + count c rest ≡ handed c p =
      λ c. ground (arith, count-append c p.taken (d ∷ []), at) in
    record {
      short = ground (arith, s.short);
      placed = λ c lt. rw (moves c) (s.placed c lt);
      future = λ c far. moves c ∙ s.future c far;
      held = λ j c e. ((s.held j c e).0, moves c ∙ (s.held j c e).1);
      own = s.own;
    }

Step-IsFed : (n : ℕ) (p q : Intake) → Step n p q → IsFed p → IsFed q
Step-IsFed n p q (accept i few at e) s = rw e (accept-IsFed p i at s)
Step-IsFed n p q (accept_error i few at e) s = rw e s
Step-IsFed n p q (listener_closed i few at e) s = rw e (closed-IsFed p i at s)
Step-IsFed n p q (send i c few at room e) s = rw e (send-IsFed p i c at room s)
Step-IsFed n p q (take c rest at e) s = rw e (take-IsFed p c rest at s)

start-IsFed : IsFed start
unfolding count
start-IsFed = record {
  short = omega arith;
  placed = λ c lt. absurd (omega arith);
  future = λ c far. omega arith;
  held = λ i c e. absurd (cc);
  own = λ i j c e f. absurd (cc);
}

Reach-IsFed : {n : ℕ} {p : Intake} → Reach n start p → IsFed p
Reach-IsFed unmoved = start-IsFed
Reach-IsFed (moved r st) = Step-IsFed _ _ _ st (Reach-IsFed r)

-- However the listeners and the workers interleave, no connection is lost or served twice: each
-- that was accepted has gone through the channel once, or is held by a listener that waits for
-- room in it; none else has; and at most 50 wait in the channel.
pub Reach-handed :
    (n : ℕ) (p : Intake)
    → Reach n start p
    → ((c : ℕ) → c < p.accepted → (handed c p ≡ 1) ⊎ Held p c)
      × ((i c : ℕ) → p.loops i ≡ sending c → (c < p.accepted) × (handed c p ≡ 0))
      × ((c : ℕ) → p.accepted ≤ c → handed c p ≡ 0)
      × (length p.channel ≤ channel_size)
Reach-handed n p r = let s = Reach-IsFed r in (s.placed, s.held, s.future, s.short)
