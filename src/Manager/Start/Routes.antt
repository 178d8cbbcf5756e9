-- ===== src/Manager/Start/Routes.antt =====
-- A start with configs that VerifyConfigs accepts.
use mathlib.Core.List.{append_assoc, append-nil}
use ipojknm.Prelude.{
  ℕ, zero, suc, sym, map, true, false, some, ◌≡◌, ◌≢◌, refl, ap, ◌∙◌, List, [], ◌∷◌, ◌++◌, inl, inr,
  Bool-cases, All, length, arith,
}
use ipojknm.Prelude.Text.{GoString, str_eq, str_eq_iff}
use ipojknm.Prelude.Table.{lookup}
use ipojknm.Errors.{Outcome, ok, err, fault, continue, is_ok}
use ipojknm.Config.{ServerConfig}
use ipojknm.Config.Convert.{Outside, server_to_backend_config, verified-server_to_backend_config}
use ipojknm.Config.Verify.{verify_configs, verify_configs_iff, NoRepeat, all_domains}
use ipojknm.Config.Ultraviolet.{UltravioletConfig}
use ipojknm.Manager.{
  WorkerManager, BackendManager, no_backends, add_each, add_config, add_backend, register,
  update_workers, convert_each, load, update,
}
use ipojknm.Manager.Spec.{finds}
use ipojknm.Manager.Routes.{contains, add_each-routes}
use ipojknm.Manager.Start.{start, started, start_worker_manager, start_workers, rounds}

no_error :
    {A : Type 0} (o : Outcome A) (r : Outcome (Unit {0})) → is_ok o ≡ true → continue o (λ _. r) ≡ r
no_error (ok a) r h = refl
no_error (err e) r h = absurd cc
no_error fault r h = absurd cc

-- Accepted configs that want no RealIP key are all converted.
convert_each-verified :
    (out : Outside) (earlier cfgs : List ServerConfig)
    → verify_configs (earlier ++ cfgs) ≡ []
    → All (λ cfg. cfg.new_real_ip ≡ false) cfgs
    → convert_each out cfgs ≡ ok tt
unfolding convert_each
convert_each-verified out earlier [] v h = refl
convert_each-verified out earlier (cfg ∷ cfgs) v h =
    no_error (server_to_backend_config out cfg) _
      (verified-server_to_backend_config out earlier cfg cfgs v h.0)
    ∙ convert_each-verified out (earlier ++ cfg ∷ []) cfgs
        (rw (append_assoc earlier (cfg ∷ []) cfgs) v) h.1

All-right {ℓ} : {A : Type ℓ} (P : A → Type 0) (xs ys : List A) → All P (xs ++ ys) → All P ys
All-right P [] ys h = h
All-right P (x ∷ xs) ys h = All-right P xs ys h.1

NoRepeat-right : (xs ys : List GoString) → NoRepeat (xs ++ ys) → NoRepeat ys
NoRepeat-right [] ys h = h
NoRepeat-right (x ∷ xs) ys h = NoRepeat-right xs ys h.1

lacks-contains : (d : GoString) (ds : List GoString) → All (λ e. e ≢ d) ds → contains d ds ≡ false
lacks-contains d [] h = refl
lacks-contains d (e ∷ ds) h = ground (arith, str_eq_iff e d, lacks-contains d ds h.1, h.0)

-- A domain of the first list is not in the second.
absent_behind :
    (d : GoString) (xs ys : List GoString)
    → contains d xs ≡ true
    → NoRepeat (xs ++ ys)
    → All (λ e. e ≢ d) ys
absent_behind d [] ys h n = absurd cc
absent_behind d (x ∷ xs) ys h n = elim (Bool-cases (str_eq x d)) [
  | inl same ↦ rw (← (str_eq_iff x d).0 same) (All-right (λ e. e ≢ x) xs ys n.0)
  | inr other ↦ absent_behind d xs ys (rw other at h) n.1
]

later_lack :
    (d : GoString) (later : List ServerConfig)
    → All (λ e. e ≢ d) (all_domains later)
    → All (λ other. contains d other.domains ≡ false) later
later_lack d [] h = tt
later_lack d (cfg ∷ later) h = (
  lacks-contains d cfg.domains (All-left cfg.domains (all_domains later) h),
  later_lack d later (All-right (λ e. e ≢ d) cfg.domains (all_domains later) h),
)
  where
    All-left : (xs ys : List GoString) → All (λ e. e ≢ d) (xs ++ ys) → All (λ e. e ≢ d) xs
    All-left [] ys h = tt
    All-left (x ∷ xs) ys h = (h.0, All-left xs ys h.1)

only_once :
    (d : GoString) (earlier : List ServerConfig) (cfg : ServerConfig) (later : List ServerConfig)
    → contains d cfg.domains ≡ true
    → NoRepeat (all_domains (earlier ++ cfg ∷ later))
    → All (λ other. contains d other.domains ≡ false) later
only_once d [] cfg later h n =
    later_lack d later (absent_behind d cfg.domains (all_domains later) h n)
only_once d (c ∷ earlier) cfg later h n =
    only_once d earlier cfg later h
      (NoRepeat-right c.domains (all_domains (earlier ++ cfg ∷ later)) n)

-- How many workers run: none where the second reading of the main config gives an error.
abbrev pub worker_count : Outcome UltravioletConfig → ℕ
worker_count (ok cfg) = rounds cfg.number_of_workers
worker_count (err e) = 0
worker_count fault = 0

unfoldable pub replicate {ℓ} : {A : Type ℓ} → ℕ → A → List A
replicate zero x = []
replicate (suc n) x = x ∷ replicate n x

start_workers-told :
    (n : ℕ) (m : WorkerManager) → (start_workers n m).workers ≡ m.workers ++ replicate n true
unfolding start_workers register replicate
start_workers-told zero m = sym (append-nil m.workers)
start_workers-told (suc n) m =
    start_workers-told n (register true m) ∙ append_assoc m.workers (true ∷ []) (replicate n true)

started-workers :
    (uv' : Outcome UltravioletConfig)
    → uv' ≢ fault
    → (w : WorkerManager) × (started no_backends.worker_manager
          (start_worker_manager uv' no_backends.worker_manager)
        ≡ ok w)
      × (w.workers ≡ replicate (worker_count uv') true)
unfolding started start_worker_manager replicate
started-workers (ok cfg) h = (_, refl, start_workers-told (rounds cfg.number_of_workers) _)
started-workers (err e) h = (_, refl, refl)
started-workers fault h = absurd (h refl)

update_workers-replicate : (n : ℕ) → update_workers (replicate n true) ≡ replicate n true
unfolding update_workers replicate
update_workers-replicate zero = refl
update_workers-replicate (suc n) = ap (λ ws. true ∷ ws) (update_workers-replicate n)

-- The first load leaves no worker behind.
add_each-workers :
    (cfgs : List ServerConfig) (m : BackendManager) (n : ℕ)
    → m.worker_manager.workers ≡ replicate n true
    → (add_each cfgs m).worker_manager.workers ≡ replicate n true
unfolding add_each add_config add_backend
add_each-workers [] m n h = h
add_each-workers (cfg ∷ cfgs) m n h =
    add_each-workers cfgs (add_config cfg m) n
      (ap (λ ws. update_workers ws) h ∙ update_workers-replicate n)

all_find :
    (d : GoString) (m : WorkerManager) (n b : ℕ)
    → lookup d m.server_dict ≡ some b
    → map (finds d m) (replicate n true) ≡ replicate n (some b)
unfolding finds replicate
all_find d m zero b h = refl
all_find d m (suc n) b h = rw (h, all_find d m n b h) refl

-- A start with configs that VerifyConfigs accepts and that want no RealIP key succeeds, for any main
-- config and where the second reading of that does not end the process. As many workers run as that
-- reading names, none where it gives an error, and each of them has each domain of a config routed to
-- the backend of that config, whose number is that of the configs before it.
pub start-routes :
    (out : Outside) (uv : UltravioletConfig) (uv' : Outcome UltravioletConfig)
    (earlier : List ServerConfig) (cfg : ServerConfig) (later : List ServerConfig)
    → uv' ≢ fault
    → verify_configs (earlier ++ cfg ∷ later) ≡ []
    → All (λ c. c.new_real_ip ≡ false) (earlier ++ cfg ∷ later)
    → (m : BackendManager) × (start out (ok uv) uv' (ok (earlier ++ cfg ∷ later)) ≡ ok m)
      × ((d : GoString)
          → contains d cfg.domains ≡ true
          → (lookup d m.worker_manager.server_dict ≡ some (length earlier))
            × (map (finds d m.worker_manager) m.worker_manager.workers
                ≡ replicate (worker_count uv') (some (length earlier))))
unfolding start update load
start-routes out uv uv' earlier cfg later reads v plain =
    let (workers, starts, told) = started-workers uv' reads in
    let first : BackendManager = record no_backends { worker_manager = workers } in
    let m = add_each (earlier ++ cfg ∷ later) first in
    let once = ((verify_configs_iff (earlier ++ cfg ∷ later)).0 v).0 in
    (
      m,
      simp (starts, convert_each-verified out [] (earlier ++ cfg ∷ later) v plain) refl,
      λ d h.
          let routed : lookup d m.worker_manager.server_dict ≡ some (length earlier) =
            add_each-routes d earlier cfg later first h (only_once d earlier cfg later h once)
            ∙ ap some (omega arith) in
          (
            routed,
            ap (λ ws. map (finds d m.worker_manager) ws)
                  (add_each-workers (earlier ++ cfg ∷ later) first _ told)
                ∙ all_find d m.worker_manager _ _ routed,
          ),
    )
