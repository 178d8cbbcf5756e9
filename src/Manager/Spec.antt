-- ===== src/Manager/Spec.antt =====
-- worker/worker_manager.go: what the worker manager promises, without its tables: a function from
-- domains to backends, and the function that each worker goes by.
use mathlib.Core.List.{map-append, map-map}
use ipojknm.Prelude.{
  Bool, true, false, ℕ, Option, none, some, ◌≡◌, refl, List, [], ◌∷◌, ◌++◌, if◌then◌else◌, map, ap,
  sym, ◌∙◌,
}
use ipojknm.Prelude.Text.{GoString, to_lower}
use ipojknm.Prelude.Table.{lookup}
use ipojknm.Limiter.{is_some}
use ipojknm.Manager.{
  WorkerManager, add_backend, remove_backend, register, update_workers, knows_domain,
}
use ipojknm.Manager.Routes.{contains, lookup-insert_each, lookup-delete_each}

-- The calls that change a worker manager. Register says whether it gives the worker the catalog.
pub data Call : Type 0 where
  adds : List GoString → ℕ → Call
  removes : List GoString → Call
  registers : Bool → Call

-- One call on the tables, and a row of them.
unfoldable pub handle : Call → WorkerManager → WorkerManager
handle (adds domains server) m = add_backend domains server m
handle (removes domains) m = remove_backend domains m
handle (registers update) m = register update m

unfoldable pub run : List Call → WorkerManager → WorkerManager
run [] m = m
run (c ∷ cs) m = run cs (handle c m)

-- The same calls on what they are about: a function from domains to backends, and for each worker the
-- function that it goes by.
abbrev pub Routing : Type 0
Routing = GoString → Option ℕ

pub record Routed : Type 0 where
  pub routing : Routing
  pub views : List Routing

abbrev nowhere : Routing
nowhere d = none

-- A change of the routing reaches every worker.
abbrev changed : Routing → Routed → Routed
changed f a = record { routing = f; views = map (λ g. f) a.views }

-- The last call that names a domain decides.
unfoldable pub routed : Call → Routed → Routed
routed (adds domains server) a =
    changed (λ d. if contains d domains then some server else a.routing d) a
routed (removes domains) a = changed (λ d. if contains d domains then none else a.routing d) a
routed (registers true) a = record a { views = a.views ++ a.routing ∷ [] }
routed (registers false) a = record a { views = a.views ++ nowhere ∷ [] }

unfoldable pub run_routed : List Call → Routed → Routed
run_routed [] a = a
run_routed (c ∷ cs) a = run_routed cs (routed c a)

-- Where a worker finds the server of a domain: it has the catalog or it has none.
unfoldable pub finds : GoString → WorkerManager → Bool → Option ℕ
finds d m true = lookup d m.server_dict
finds d m false = none

abbrev Implements : WorkerManager → Routed → Type 0
Implements m a =
    (d : GoString)
    → (lookup d m.server_dict ≡ a.routing d) × (map (finds d m) m.workers ≡ map (λ g. g d) a.views)

map_const-map {ℓ} :
    {A B C : Type ℓ} (x : C) (f : A → B) (xs : List A) → map (λ _. x) (map f xs) ≡ map (λ _. x) xs
map_const-map x f [] = refl
map_const-map x f (y ∷ ys) = ap (λ zs. x ∷ zs) (map_const-map x f ys)

told_all :
    (d : GoString) (m : WorkerManager) (ws : List Bool)
    → map (finds d m) (update_workers ws) ≡ map (λ _. lookup d m.server_dict) ws
unfolding update_workers finds
told_all d m [] = refl
told_all d m (w ∷ ws) = ap (λ xs. lookup d m.server_dict ∷ xs) (told_all d m ws)

-- Behind an update every worker goes by the new routing.
all_changed :
    (d : GoString) (m m' : WorkerManager) (f : Routing) (ws : List Bool) (gs : List Routing)
    → map (finds d m) ws ≡ map (λ g. g d) gs
    → lookup d m'.server_dict ≡ f d
    → map (finds d m') (update_workers ws) ≡ map (λ g. g d) (map (λ g. f) gs)
all_changed d m m' f ws gs h e =
    told_all d m' ws
    ∙ (ap (λ x. map (λ _. x) ws) e
        ∙ (sym (map_const-map (f d) (finds d m) ws)
            ∙ (ap (λ xs. map (λ _. f d) xs) h
                ∙ (map_const-map (f d) (λ (g : Routing). g d) gs
                    ∙ sym (map-map (λ (g : Routing). g d) (λ (g : Routing). f) gs)))))

one_more :
    (d : GoString) (m : WorkerManager) (a : Routed) (w : Bool) (g : Routing)
    → map (finds d m) m.workers ≡ map (λ g. g d) a.views
    → finds d m w ≡ g d
    → map (finds d (register w m)) (m.workers ++ w ∷ []) ≡ map (λ g. g d) (a.views ++ g ∷ [])
unfolding register finds
one_more d m a w g h e =
    map-append (finds d m) m.workers (w ∷ [])
    ∙ (ap (λ xs. xs ++ finds d m w ∷ []) h
        ∙ (ap (λ x. map (λ (g : Routing). g d) a.views ++ x ∷ []) e
            ∙ sym (map-append (λ (g : Routing). g d) a.views (g ∷ []))))

handle-Implements :
    (c : Call) (m : WorkerManager) (a : Routed)
    → Implements m a
    → Implements (handle c m) (routed c a)
unfolding handle routed add_backend remove_backend register
handle-Implements (adds domains server) m a h d =
    let m' = add_backend domains server m in
    let f = (routed (adds domains server) a).routing in
    let e : lookup d m'.server_dict ≡ f d =
      rw (lookup-insert_each d domains server m.server_dict, (h d).0) refl in
    (e, all_changed d m m' f m.workers a.views (h d).1 e)
handle-Implements (removes domains) m a h d =
    let m' = remove_backend domains m in
    let f = (routed (removes domains) a).routing in
    let e : lookup d m'.server_dict ≡ f d =
      rw (lookup-delete_each d domains m.server_dict, (h d).0) refl in
    (e, all_changed d m m' f m.workers a.views (h d).1 e)
handle-Implements (registers true) m a h d =
    ((h d).0, one_more d m a true a.routing (h d).1 (unfold finds in (h d).0))
handle-Implements (registers false) m a h d =
    ((h d).0, one_more d m a false nowhere (h d).1 (unfold finds in refl))

run-Implements :
    (cs : List Call) (m : WorkerManager) (a : Routed)
    → Implements m a
    → Implements (run cs m) (run_routed cs a)
unfolding run run_routed
run-Implements [] m a h = h
run-Implements (c ∷ cs) m a h =
    run-Implements cs (handle c m) (routed c a) (handle-Implements c m a h)

-- Whatever row of AddBackend, RemoveBackend and Register is called: where, before it, the tables give
-- each domain the backend that the abstract routing gives it, and each worker finds of it what its
-- abstract view finds, they do so behind it. The abstract calls change the routing of the domains they
-- name and with it the view of every worker, and a worker that is registered has the routing or, where
-- it is not updated, nothing. KnowsDomain is true just of the names whose lower case the routing knows.
pub run-refines :
    (cs : List Call) (m : WorkerManager) (a : Routed)
    → ((d : GoString)
        → (lookup d m.server_dict ≡ a.routing d)
          × (map (finds d m) m.workers ≡ map (λ g. g d) a.views))
    → (d : GoString)
    → (lookup d (run cs m).server_dict ≡ (run_routed cs a).routing d)
      × (map (finds d (run cs m)) (run cs m).workers ≡ map (λ g. g d) (run_routed cs a).views)
      × (knows_domain d (run cs m) ≡ is_some ((run_routed cs a).routing (to_lower d)))
unfolding knows_domain
run-refines cs m a h d =
    let after = run-Implements cs m a h in
    ((after d).0, (after d).1, rw ((after (to_lower d)).0) refl)
