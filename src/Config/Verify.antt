-- ===== src/Config/Verify.antt =====
-- config/verify.go: when a set of server configs is refused.
use ipojknm.Prelude.{
  zero, suc, ℕ, none, some, ◌+◌, ◌≡◌, ◌≢◌, ◌↔◌, inl, inr, refl, sym, ◌∙◌, List, [], ◌∷◌, ◌++◌,
  arith, All, Option-cases,
}
use ipojknm.Prelude.Text.{GoString, str_eq_iff}
use ipojknm.Prelude.Table.{Table, lookup, insert, lookup-insert}
use ipojknm.Config.{ServerConfig}

-- The errors that VerifyConfigs collects.
pub data VerifyError : Type 0 where
  empty_domains empty_proxy_to : GoString → VerifyError
  duplicate_domain : (cfg1_path cfg2_path domain : GoString) → VerifyError

-- `cfgs[otherIndex].FilePath`; the index is one that the loop has passed.
path_at : List ServerConfig → ℕ → GoString
path_at [] i = []
path_at (cfg ∷ cfgs) zero = cfg.file_path
path_at (cfg ∷ cfgs) (suc i) = path_at cfgs i

-- The map of domains to the index of their config, and the errors so far.
abbrev pub Found : Type 0
Found = Table ℕ × List VerifyError

-- One round of the loop over `cfg.Domains`.
check_domain : List ServerConfig → ServerConfig → ℕ → GoString → Found → Found
unfolding path_at
check_domain cfgs cfg index domain (domains, errors) = elim (lookup domain domains) [
  | none ↦ (insert domain index domains, errors)
  | some other ↦
      (domains, errors ++ duplicate_domain cfg.file_path (path_at cfgs other) domain ∷ [])
]

domain_loop : List ServerConfig → ServerConfig → ℕ → List GoString → Found → Found
domain_loop cfgs cfg index [] f = f
domain_loop cfgs cfg index (d ∷ ds) f =
    domain_loop cfgs cfg index ds (check_domain cfgs cfg index d f)

-- `if len(xs) == 0 { vErrors.Add(e) }`
add_if_empty {ℓ} : {A : Type ℓ} → List A → VerifyError → List VerifyError → List VerifyError
add_if_empty [] e errors = errors ++ e ∷ []
add_if_empty (x ∷ xs) e errors = errors

-- The two tests on a config itself.
usable_errors : ServerConfig → List VerifyError → List VerifyError
unfolding add_if_empty
usable_errors cfg errors =
    add_if_empty cfg.proxy_to (empty_proxy_to cfg.file_path)
      (add_if_empty cfg.domains (empty_domains cfg.file_path) errors)

-- One round of the loop over the configs.
check_config : List ServerConfig → ℕ → ServerConfig → Found → Found
unfolding usable_errors
check_config cfgs index cfg (domains, errors) =
    domain_loop cfgs cfg index cfg.domains (domains, usable_errors cfg errors)

config_loop : List ServerConfig → ℕ → List ServerConfig → Found → Found
config_loop cfgs index [] f = f
config_loop cfgs index (cfg ∷ rest) f =
    config_loop cfgs (index + 1) rest (check_config cfgs index cfg f)

-- VerifyConfigs: the list of its errors, empty for a nil error.
unfoldable pub verify_configs : List ServerConfig → List VerifyError
unfolding config_loop check_config domain_loop check_domain
verify_configs cfgs = (config_loop cfgs 0 cfgs ([], [])).1

-- No domain stands twice in the list.
abbrev pub NoRepeat : List GoString → Type 0
NoRepeat [] = Unit {0}
NoRepeat (d ∷ ds) = All (λ e. e ≢ d) ds × NoRepeat ds

-- All domains of the configs, in order.
abbrev pub all_domains : List ServerConfig → List GoString
all_domains [] = []
all_domains (cfg ∷ cfgs) = cfg.domains ++ all_domains cfgs

-- A config that names a domain and a server.
abbrev pub IsUsable : ServerConfig → Type 0
IsUsable cfg = (cfg.domains ≢ []) × (cfg.proxy_to ≢ [])

no_errors-append : (es : List VerifyError) (e : VerifyError) → es ++ e ∷ [] ≢ []
no_errors-append [] e h = cc
no_errors-append (x ∷ es) e h = cc

-- None of the domains is in the map yet, and none stands twice.
abbrev Fresh : Table ℕ → List GoString → Type 0
Fresh t ds = All (λ d. lookup d t ≡ none) ds × NoRepeat ds

insert_one :
    (d e : GoString) (i : ℕ) (t : Table ℕ)
    → (lookup e (insert d i t) ≡ none) ↔ ((lookup e t ≡ none) × (e ≢ d))
insert_one d e i t = (
  λ h. ground (arith, lookup-insert d e i t, str_eq_iff d e),
  λ h. ground (arith, lookup-insert d e i t, str_eq_iff d e),
)

insert-All :
    (d : GoString) (i : ℕ) (t : Table ℕ) (ds : List GoString)
    → All (λ e. lookup e (insert d i t) ≡ none) ds
      ↔ (All (λ e. lookup e t ≡ none) ds × All (λ e. e ≢ d) ds)
insert-All d i t [] = (λ h. (tt, tt), λ h. tt)
insert-All d i t (e ∷ ds) =
    let one = insert_one d e i t in
    let rest = insert-All d i t ds in
    (
      λ h. (((one.0 h.0).0, (rest.0 h.1).0), ((one.0 h.0).1, (rest.0 h.1).1)),
      λ h. (one.1 (h.0.0, h.1.0), rest.1 (h.0.1, h.1.1)),
    )

Fresh-insert :
    (d : GoString) (i : ℕ) (t : Table ℕ) (ds : List GoString)
    → Fresh t (d ∷ ds) ↔ ((lookup d t ≡ none) × Fresh (insert d i t) ds)
Fresh-insert d i t ds = (
  λ h. (h.0.0, ((insert-All d i t ds).1 (h.0.1, h.1.0), h.1.1)),
  λ h. let a = (insert-All d i t ds).0 h.1.0 in ((h.0, a.0), (a.1, h.1.1)),
)

add_if_empty_iff {ℓ} :
    {A : Type ℓ} (xs : List A) (e : VerifyError) (es : List VerifyError)
    → (add_if_empty xs e es ≡ []) ↔ ((es ≡ []) × (xs ≢ []))
unfolding add_if_empty
add_if_empty_iff [] e es = (λ h. absurd (no_errors-append es e h), λ h. absurd (h.1 refl))
add_if_empty_iff (x ∷ xs) e es = (λ h. (h, λ c. cc), λ h. h.0)

IsUsable-iff :
    (cfg : ServerConfig) (es : List VerifyError)
    → (usable_errors cfg es ≡ []) ↔ ((es ≡ []) × IsUsable cfg)
unfolding usable_errors
IsUsable-iff cfg es =
    let p =
      add_if_empty_iff cfg.proxy_to (empty_proxy_to cfg.file_path)
        (add_if_empty cfg.domains (empty_domains cfg.file_path) es) in
    let d = add_if_empty_iff cfg.domains (empty_domains cfg.file_path) es in
    (λ h. let a = p.0 h in let b = d.0 a.0 in (b.0, (b.1, a.1)), λ h. p.1 (d.1 (h.0, h.1.0), h.1.1))

check_new :
    (cfgs : List ServerConfig) (cfg : ServerConfig) (i : ℕ) (d : GoString) (t : Table ℕ)
    (es : List VerifyError)
    → lookup d t ≡ none
    → check_domain cfgs cfg i d (t, es) ≡ (insert d i t, es)
unfolding check_domain
check_new cfgs cfg i d t es e = ground arith

check_known :
    (cfgs : List ServerConfig) (cfg : ServerConfig) (i : ℕ) (d : GoString) (t : Table ℕ)
    (es : List VerifyError) {other : ℕ}
    → lookup d t ≡ some other
    → check_domain cfgs cfg i d (t, es)
      ≡ (t, es ++ duplicate_domain cfg.file_path (path_at cfgs other) d ∷ [])
unfolding check_domain
check_known cfgs cfg i d t es e = ground arith

some-ne-none {ℓ} : {A : Type ℓ} {a : A} → some a ≢ none
some-ne-none e = cc

none_known : (ds : List GoString) → All (λ d. lookup {V = ℕ} d [] ≡ none) ds
unfolding lookup
none_known [] = tt
none_known (d ∷ ds) = (refl, none_known ds)

-- What is left to check: the domains `ds` of the config at hand, and the configs `rest` behind it.
loop_iff :
    (cfgs rest : List ServerConfig) (cfg : ServerConfig) (i : ℕ) (ds : List GoString) (t : Table ℕ)
    (es : List VerifyError)
    → ((config_loop cfgs (i + 1) rest (domain_loop cfgs cfg i ds (t, es))).1 ≡ [])
      ↔ ((es ≡ []) × Fresh t (ds ++ all_domains rest) × All IsUsable rest)
unfolding config_loop domain_loop check_config
loop_iff cfgs [] cfg i [] t es = (λ h. (h, (tt, tt), tt), λ h. h.0)
loop_iff cfgs (next ∷ rest) cfg i [] t es =
    let ih = loop_iff cfgs rest next (i + 1) next.domains t (usable_errors next es) in
    let u = IsUsable-iff next es in
    (
      λ h. let a = ih.0 h in let b = u.0 a.0 in (b.0, a.1, (b.1, a.2)),
      λ h. ih.1 (u.1 (h.0, h.2.0), h.1, h.2.1),
    )
loop_iff cfgs rest cfg i (d ∷ ds) t es = elim (Option-cases (lookup d t)) [
  | inl new ↦
      let ih = loop_iff cfgs rest cfg i ds (insert d i t) es in
      let f = Fresh-insert d i t (ds ++ all_domains rest) in
      rw (check_new cfgs cfg i d t es new)
        (λ h. let a = ih.0 h in (a.0, f.1 (new, a.1), a.2), λ h. ih.1 (h.0, (f.0 h.1).1, h.2))
  | inr (other, known) ↦
      let more : List VerifyError =
        es ++ duplicate_domain cfg.file_path (path_at cfgs other) d ∷ [] in
      let ih = loop_iff cfgs rest cfg i ds t more in
      rw (check_known cfgs cfg i d t es known) (
        λ h. absurd (no_errors-append es _ (ih.0 h).0),
        λ h. absurd (some-ne-none (sym known ∙ h.1.0.0)),
      )
]

-- Any set of configs is accepted exactly if each of them names a domain and a server, and no domain
-- stands twice in all of them together.
pub verify_configs_iff :
    (cfgs : List ServerConfig)
    → (verify_configs cfgs ≡ []) ↔ (NoRepeat (all_domains cfgs) × All IsUsable cfgs)
unfolding verify_configs
verify_configs_iff [] = (λ h. (tt, tt), λ h. refl)
verify_configs_iff (cfg ∷ cfgs) =
    let l = loop_iff (cfg ∷ cfgs) cfgs cfg 0 cfg.domains [] (usable_errors cfg []) in
    let u = IsUsable-iff cfg [] in
    (
      λ h. let a = l.0 h in (a.1.1, ((u.0 a.0).1, a.2)),
      λ h. l.1 (u.1 (refl, h.1.0), (none_known _, h.0), h.1.1),
    )
