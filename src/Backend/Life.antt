-- ===== src/Backend/Life.antt =====
-- The count of connections over the life of a worker, and what an update can and cannot change.
use ipojknm.Prelude.{
  ◌∙◌, All, Option, Option-cases, none, ◌⊎◌, true, false, ℕ, zero, suc, some, ◌+◌, ◌*◌, ◌^◌, ◌<◌,
  ◌≤◌, ◌≡◌, inl, inr, refl, List, [], ◌∷◌, ltb, arith, length,
}
use ipojknm.Prelude.Text.{GoString}
use ipojknm.Errors.{Outcome, ok, err, fault, continue}
use ipojknm.Core.{RequestData}
use ipojknm.Mc.Handshake.{status}
use ipojknm.Agents.{HandshakeModifier}
use ipojknm.Limiter.{bot_filter, BotFilter, new_bot_filter}
use ipojknm.Config.{BackendWorkerConfig, is_positive}
use ipojknm.Backend.{BackendWorker, Env, Handled, proxy_open, proxy_close, handle_request}
use ipojknm.Backend.Server.{named, work_request}
use ipojknm.Backend.Requests.{Answered, IsAnswerable, handle_request-Answered}
use ipojknm.Backend.Settings.{
  BackendConfig, new_backend_config, update_same_goroutine, proxy_request, has_active_conn, Event,
  request, proxied, check, update, work_step, work,
}

-- A PROXY connection is announced before its end is: no prefix of the messages has more closes than
-- opens. `n` is the number of connections open at the start.
abbrev pub IsPaired : ℕ → List Event → Type 0
IsPaired n [] = Unit {0}
IsPaired n (proxied proxy_open ∷ es) = IsPaired (suc n) es
IsPaired zero (proxied proxy_close ∷ es) = ⊥
IsPaired (suc n) (proxied proxy_close ∷ es) = IsPaired n es
IsPaired n (request env req ∷ es) = IsPaired n es
IsPaired n (check ∷ es) = IsPaired n es
IsPaired n (update cfg ∷ es) = IsPaired n es

-- The connections open at the end.
abbrev pub still_open : ℕ → List Event → ℕ
still_open n [] = n
still_open n (proxied proxy_open ∷ es) = still_open (suc n) es
still_open zero (proxied proxy_close ∷ es) = still_open zero es
still_open (suc n) (proxied proxy_close ∷ es) = still_open n es
still_open n (request env req ∷ es) = still_open n es
still_open n (check ∷ es) = still_open n es
still_open n (update cfg ∷ es) = still_open n es

-- A request is one for the status, as BackendServer sends them, or has an address; an update brings no
-- handshake modifier.
abbrev pub IsPlain : Event → Type 0
IsPlain (request env req) = ((a : GoString) × (req.addr ≡ some a)) ⊎ (req.type ≡ status)
IsPlain (proxied a) = Unit {0}
IsPlain check = Unit {0}
IsPlain (update cfg) = cfg.hs_modifier ≡ none

-- A worker with a server to dial, no handshake modifier and n connections.
record Serves (n : ℕ) (w : BackendWorker) : Type 0 where
  target : GoString
  dials : w.conn_creator ≡ some target
  plain : w.hs_modifier ≡ none
  counts : w.active_conns ≡ n

-- The event was worked off, and the worker serves as before.
abbrev Worked : ℕ → Outcome BackendWorker → Type 0
Worked n (ok w) = Serves n w
Worked n (err e) = ⊥
Worked n fault = ⊥

Worked-work :
    (n : ℕ) (w : BackendWorker) (req : RequestData) (h : Handled)
    → Serves n w
    → Answered w req h
    → Worked n (continue (continue h named) (λ p. ok p.1))
unfolding named
Worked-work n w req (ok (ans, w')) s a = record {
  target = s.target;
  dials = a.0.conn_creator ∙ s.dials;
  plain = a.0.hs_modifier ∙ s.plain;
  counts = a.0.active_conns ∙ s.counts;
}
Worked-work n w req (err x) s a = a
Worked-work n w req fault s a = a

plain-IsAnswerable :
    (env : Env) (req : RequestData) (m : Option HandshakeModifier)
    → m ≡ none
    → IsPlain (request env req)
    → IsAnswerable req m
plain-IsAnswerable env req m none_there (inl (a, has_addr)) = inl (a, has_addr, rw none_there tt)
plain-IsAnswerable env req m none_there (inr is) = inr (is, none_there)

work_request-Worked :
    (n : ℕ) (w : BackendWorker) (env : Env) (req : RequestData)
    → IsPlain (request env req)
    → Serves n w
    → Worked n (work_step (request env req) w)
unfolding work_step work_request
work_request-Worked n w env req h s = Worked-work n w req (handle_request env req w) s (
    handle_request-Answered env req w s.target (plain-IsAnswerable env req w.hs_modifier s.plain h)
      s.dials)

update-Serves :
    (n : ℕ) (w : BackendWorker) (cfg : BackendConfig)
    → cfg.hs_modifier ≡ none
    → Serves n w
    → Serves n (update_same_goroutine cfg w)
unfolding update_same_goroutine
update-Serves n w cfg h s = elim (Option-cases cfg.conn_creator) [
  | inl no' ↦ record {
    target = s.target;
    dials = rw (no', s.dials);
    plain = rw (h, s.plain);
    counts = s.counts;
  }
  | inr (t, is) ↦ record {
    target = t;
    dials = rw is refl;
    plain = rw (h, s.plain);
    counts = s.counts;
  }
]

then_work :
    (es : List Event) (n m : ℕ) (o : Outcome BackendWorker)
    → Worked n o
    → ((w : BackendWorker) → Serves n w → Worked m (work es w))
    → Worked m (continue o (work es))
then_work es n m (ok w) s k = k w s
then_work es n m (err x) s k = absurd s
then_work es n m fault s k = absurd s

open-Serves :
    (n : ℕ) (w : BackendWorker)
    → n < 2 ^ 63
    → Serves n w
    → Serves (suc n) (proxy_request proxy_open w)
unfolding proxy_request
open-Serves n w h s = record {
  target = s.target;
  dials = s.dials;
  plain = s.plain;
  counts = omega (arith, s.counts);
}

close-Serves :
    (n : ℕ) (w : BackendWorker)
    → n < 2 ^ 63
    → Serves (suc n) w
    → Serves n (proxy_request proxy_close w)
unfolding proxy_request
close-Serves n w h s = record {
  target = s.target;
  dials = s.dials;
  plain = s.plain;
  counts = omega (arith, s.counts);
}

work-Worked :
    (es : List Event) (n : ℕ) (w : BackendWorker)
    → Serves n w
    → n + length es < 2 ^ 63
    → IsPaired n es
    → All IsPlain es
    → Worked (still_open n es) (work es w)
unfolding work work_step
work-Worked [] n w s small p h = s
work-Worked (request env req ∷ es) n w s small p h =
    then_work es n (still_open n es) (work_step (request env req) w)
      (work_request-Worked n w env req h.0 s) (λ w' s'. work-Worked es n w' s' (omega arith) p h.1)
work-Worked (proxied proxy_open ∷ es) n w s small p h =
    work-Worked es (suc n) (proxy_request proxy_open w) (open-Serves n w (omega arith) s)
      (omega arith) p h.1
work-Worked (proxied proxy_close ∷ es) zero w s small p h = absurd p
work-Worked (proxied proxy_close ∷ es) (suc n) w s small p h =
    work-Worked es n (proxy_request proxy_close w) (close-Serves n w (omega arith) s) (omega arith)
      p h.1
work-Worked (check ∷ es) n w s small p h = work-Worked es n w s (omega arith) p h.1
work-Worked (update cfg ∷ es) n w s small p h =
    work-Worked es n (update_same_goroutine cfg w) (update-Serves n w cfg h.0 s) (omega arith) p h.1

still_open-le : (es : List Event) (n : ℕ) → IsPaired n es → still_open n es ≤ n + length es
still_open-le [] n p = omega arith
still_open-le (request env req ∷ es) n p = omega (arith, still_open-le es n p)
still_open-le (proxied proxy_open ∷ es) n p = omega (arith, still_open-le es (suc n) p)
still_open-le (proxied proxy_close ∷ es) zero p = absurd p
still_open-le (proxied proxy_close ∷ es) (suc n) p = ground (arith, still_open-le es n p)
still_open-le (check ∷ es) n p = omega (arith, still_open-le es n p)
still_open-le (update cfg ∷ es) n p = omega (arith, still_open-le es n p)

-- Over any row of messages in which every request is one for the status or has an address, no update
-- brings a handshake modifier, and no more proxied connections end than have begun, a worker with a
-- server to dial and no handshake modifier works off every message, and then counts exactly the
-- connections that are still open; HasActiveConn tells whether there is one.
pub work_counts :
    (es : List Event) (n : ℕ) (w : BackendWorker) (target : GoString)
    → w.conn_creator ≡ some target
    → w.hs_modifier ≡ none
    → w.active_conns ≡ n
    → n + length es < 2 ^ 63
    → IsPaired n es
    → All IsPlain es
    → (w' : BackendWorker) × (work es w ≡ ok w')
      × (w'.active_conns ≡ still_open n es)
      × (has_active_conn w' ≡ ltb 0 (still_open n es))
unfolding has_active_conn
work_counts es n w target c no_modifier e small p h = counted (work es w) (
    work-Worked es n w (record { target = target; dials = c; plain = no_modifier; counts = e })
      small p h)
  where
    counted :
        (o : Outcome BackendWorker)
        → Worked (still_open n es) o
        → (w' : BackendWorker) × (o ≡ ok w')
          × (w'.active_conns ≡ still_open n es)
          × (has_active_conn w' ≡ ltb 0 (still_open n es))
    counted (ok w') s = (w', refl, s.counts, ground (arith, s.counts, still_open-le es n p))
    counted (err x) s = absurd s
    counted fault s = absurd s

-- An update keeps whatever its config leaves out, so a cache or a modifier that a worker once had
-- stays: the settings of a config without them do not take them away.
pub update_same_goroutine_keeps :
    (now : ℕ) (cfg : BackendWorkerConfig) (w : BackendWorker)
    → cfg.cache_status ≡ false
    → cfg.old_real_ip ≡ false
    → cfg.new_real_ip ≡ false
    → let w' = update_same_goroutine (new_backend_config now cfg) w in
      (w'.status_cache ≡ w.status_cache)
      × (w'.hs_modifier ≡ w.hs_modifier)
      × (w'.conn_creator ≡ some cfg.proxy_to)
      × (w'.active_conns ≡ w.active_conns)
unfolding update_same_goroutine new_backend_config
update_same_goroutine_keeps now cfg w c o r = ground arith

-- With a positive rate limit the worker's bot filter clears its black list after ten windows and
-- ends a verification after the ban list's cooldown: the two durations have changed places.
pub new_backend_config-cooldowns :
    (now : ℕ) (cfg : BackendWorkerConfig)
    → is_positive cfg.rate_limit ≡ true
    → (l : BotFilter) × ((new_backend_config now cfg).conn_limiter ≡ some (bot_filter l))
      × (l.list_clear_time ≡ 10 * cfg.rate_limit_duration)
      × (l.unverify_cooldown ≡ cfg.rate_ban_list_cooldown)
      × (l.limiting ≡ false)
unfolding new_backend_config new_bot_filter
new_backend_config-cooldowns now cfg h = (
  new_bot_filter now cfg.rate_limit cfg.rate_limit_duration (10 * cfg.rate_limit_duration)
      cfg.rate_ban_list_cooldown cfg.rate_discon_pk,
  rw h,
  refl,
  refl,
  refl,
)
