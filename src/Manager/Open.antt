-- ===== src/Manager/Open.antt =====
-- worker/backend_manager.go: the backends by their IDs, and those that were closed.
pub mod Reloads
use mathlib.Core.Path.{subst}
use ipojknm.Prelude.{
  Bool, true, false, ℕ, ◌+◌, ◌<◌, Option, none, some, ◌≡◌, ◌≢◌, sym, ◌∙◌, ap, List, [], ◌∷◌,
  if◌then◌else◌, inl, inr, arith, Bool-cases, Option-cases, All, ◌⊎◌,
}
use ipojknm.Prelude.Text.{GoString, str_eq_iff}
use ipojknm.Prelude.Table.{Table, lookup, insert, delete, lookup-insert, lookup-delete}
use ipojknm.Limiter.{is_some}
use ipojknm.Errors.{Outcome, ok, err, fault, continue}
use ipojknm.Config.{ServerConfig, id}
use ipojknm.Config.Convert.{Outside}
use ipojknm.Manager.{
  BackendManager, add_config, remove_config, change_or_keep, on_backend, change_config,
  update_config, add_or_update, load_each, remove_gone, load_all_configs, add_each, convert_each,
  load, update, has_id, no_backends,
}

-- The IDs' backends, how many were made, and the closed ones: every backend that an ID has was made
-- and not closed, no two IDs have the same, and the closed ones were made before.
pub record AllOpen (t : Table ℕ) (made : ℕ) (closed : List ℕ) : Type 0 where
  pub was_made : (k : GoString) (b : ℕ) → lookup k t ≡ some b → b < made
  pub is_open : (k : GoString) (b : ℕ) → lookup k t ≡ some b → All (λ c. c ≢ b) closed
  pub own : (k j : GoString) (b : ℕ) → lookup k t ≡ some b → lookup j t ≡ some b → k ≡ j
  pub past : All (λ c. c < made) closed

below_next :
    (made : ℕ) (closed : List ℕ) → All (λ c. c < made) closed → All (λ c. c < made + 1) closed
below_next made [] h = tt
below_next made (c ∷ cs) h = (omega (arith, h.0), below_next made cs h.1)

below_differs :
    (made : ℕ) (closed : List ℕ) → All (λ c. c < made) closed → All (λ c. c ≢ made) closed
below_differs made [] h = tt
below_differs made (c ∷ cs) h = (omega (arith, h.0), below_differs made cs h.1)

-- Behind an insert a key has the new backend, or the one that it had.
inserted :
    (i k : GoString) (v b : ℕ) (t : Table ℕ)
    → lookup k (insert i v t) ≡ some b
    → ((i ≡ k) × (v ≡ b)) ⊎ (lookup k t ≡ some b)
inserted i k v b t e = ground (arith, lookup-insert i k v t, str_eq_iff i k)

deleted :
    (i k : GoString) (b : ℕ) (t : Table ℕ)
    → lookup k (delete i t) ≡ some b
    → (i ≢ k) × (lookup k t ≡ some b)
deleted i k b t e = ground (arith, lookup-delete i k t, str_eq_iff i k)

insert-AllOpen :
    (i : GoString) (t : Table ℕ) (made : ℕ) (closed : List ℕ)
    → AllOpen t made closed
    → AllOpen (insert i made t) (made + 1) closed
insert-AllOpen i t made closed s = record {
  was_made = λ k b e. elim (inserted i k made b t e) [
    | inl same ↦ omega (arith, same.1)
    | inr before ↦ omega (arith, s.was_made k b before)
  ];
  is_open = λ k b e. elim (inserted i k made b t e) [
    | inl same ↦ rw (← same.1) (below_differs made closed s.past)
    | inr before ↦ s.is_open k b before
  ];
  own = λ k j b e e'. elim (inserted i k made b t e) [
    | inl same ↦ elim (inserted i j made b t e') [
      | inl same' ↦ sym same.0 ∙ same'.0
      | inr before ↦ absurd (omega (arith, same.1, s.was_made j b before))
    ]
    | inr before ↦ elim (inserted i j made b t e') [
      | inl same ↦ absurd (omega (arith, same.1, s.was_made k b before))
      | inr before' ↦ s.own k j b before before'
    ]
  ];
  past = below_next made closed s.past;
}

delete-AllOpen :
    (i : GoString) (v : ℕ) (t : Table ℕ) (made : ℕ) (closed : List ℕ)
    → lookup i t ≡ some v
    → AllOpen t made closed
    → AllOpen (delete i t) made (v ∷ closed)
delete-AllOpen i v t made closed had s = record {
  was_made = λ k b e. s.was_made k b (deleted i k b t e).1;
  is_open = λ k b e.
      let d = deleted i k b t e in
      ((λ same. d.0 (s.own i k b (had ∙ ap some same) d.1)), s.is_open k b d.1);
  own = λ k j b e e'. s.own k j b (deleted i k b t e).1 (deleted i j b t e').1;
  past = (s.was_made i v had, s.past);
}
