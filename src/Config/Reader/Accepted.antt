-- ===== src/Config/Reader/Accepted.antt =====
-- What the reader of server configs promises of the configs that it gives.
use mathlib.Core.List.{append_assoc, append-nil, map-append}
use mathlib.Core.Path.{subst}
use ipojknm.Prelude.{ℕ, Option, none, some, ◌≡◌, refl, sym, ◌∙◌, ap, List, [], ◌∷◌, ◌++◌, map, All}
use ipojknm.Prelude.Text.{GoString}
use ipojknm.Errors.{GoError, Outcome, ok, err, fault, continue}
use ipojknm.Config.{ServerConfig, default_server_config}
use ipojknm.Config.Verify.{
  verify_configs, verify_configs_iff, VerifyError, NoRepeat, all_domains, IsUsable,
}
use ipojknm.Config.Reader.{
  Disk, Visit, walk, load_server_cfg_from_path, load_each, walked, read_server_configs, accept,
  read,
}

abbrev pub path_of : ServerConfig → GoString
path_of cfg = cfg.file_path

-- Where a config was loaded, it has this path.
Named : GoString → Outcome ServerConfig → Type 0
Named path (ok cfg) = path_of cfg ≡ path
Named path _ = Unit {0}

-- Where the configs were loaded, they are those so far and then one for each path.
Loaded : List GoString → List ServerConfig → Outcome (List ServerConfig) → Type 0
Loaded paths cfgs (ok all) = map path_of all ≡ map path_of cfgs ++ paths
Loaded paths cfgs _ = Unit {0}

path_kept :
    (path : GoString) (o : Outcome ServerConfig)
    → Named path (continue o (λ cfg. ok (record cfg { file_path = path })))
unfolding Named
path_kept path (ok cfg) = refl
path_kept path (err e) = tt
path_kept path fault = tt

load-Named : (disk : Disk) (path : GoString) → Named path (load_server_cfg_from_path disk path)
unfolding load_server_cfg_from_path
load-Named disk path = parsed (disk.read_file path)
  where
    parsed :
        (r : Outcome (List ℕ))
        → Named path (
            continue r (λ bb.
              continue
                (disk.unmarshal bb default_server_config)
                (λ cfg. ok (record cfg { file_path = path }))))
    parsed (ok bb) = path_kept path (disk.unmarshal bb default_server_config)
    parsed (err e) = unfold Named in tt
    parsed fault = unfold Named in tt

one_more :
    (path : GoString) (paths : List GoString) (cfgs : List ServerConfig) (cfg : ServerConfig)
    (o : Outcome (List ServerConfig))
    → path_of cfg ≡ path
    → Loaded paths (cfgs ++ cfg ∷ []) o
    → Loaded (path ∷ paths) cfgs o
unfolding Loaded
one_more path paths cfgs cfg (ok all) e h =
    h
    ∙ (ap (λ (t : List GoString). t ++ paths) (map-append path_of cfgs (cfg ∷ []))
        ∙ (append_assoc (map path_of cfgs) (path_of cfg ∷ []) paths
            ∙ ap (λ (t : GoString). map path_of cfgs ++ t ∷ paths) e))
one_more path paths cfgs cfg (err x) e h = tt
one_more path paths cfgs cfg fault e h = tt

load_each-Loaded :
    (disk : Disk) (paths : List GoString) (cfgs : List ServerConfig)
    → Loaded paths cfgs (load_each disk paths cfgs)
unfolding load_each
load_each-Loaded disk [] cfgs = unfold Loaded in sym (append-nil (map path_of cfgs))
load_each-Loaded disk (path ∷ paths) cfgs =
    rest (load_server_cfg_from_path disk path) (load-Named disk path)
      (λ cfg. load_each-Loaded disk paths (cfgs ++ cfg ∷ []))
  where
    rest :
        (o : Outcome ServerConfig)
        → Named path o
        → ((cfg : ServerConfig)
            → Loaded paths (cfgs ++ cfg ∷ []) (load_each disk paths (cfgs ++ cfg ∷ [])))
        → Loaded (path ∷ paths) cfgs (continue o (λ cfg. load_each disk paths (cfgs ++ cfg ∷ [])))
    rest (ok cfg) e later = one_more path paths cfgs cfg _ (unfold Named in e) (later cfg)
    rest (err x) e later = unfold Loaded in tt
    rest fault e later = unfold Loaded in tt

-- The promise, for what `read` gives.
Accepted : List GoString × Option GoError → Outcome (List ServerConfig) → Type 0
Accepted w (ok cfgs) =
    (w.1 ≡ none) × (map path_of cfgs ≡ w.0) × NoRepeat (all_domains cfgs) × All IsUsable cfgs
Accepted w _ = Unit {0}

accept-Accepted :
    (paths : List GoString) (cfgs : List ServerConfig) (errors : List VerifyError)
    → map path_of cfgs ≡ paths
    → verify_configs cfgs ≡ errors
    → Accepted (paths, none) (accept cfgs errors)
unfolding accept Accepted
accept-Accepted paths cfgs [] named e =
    let p = (verify_configs_iff cfgs).0 e in (refl, named, p.0, p.1)
accept-Accepted paths cfgs (x ∷ xs) named e = tt

Loaded-Accepted :
    (paths : List GoString) (o : Outcome (List ServerConfig))
    → Loaded paths [] o
    → Accepted (paths, none) (continue o (λ cfgs. accept cfgs (verify_configs cfgs)))
unfolding Loaded
Loaded-Accepted paths (ok cfgs) h = accept-Accepted paths cfgs (verify_configs cfgs) h refl
Loaded-Accepted paths (err e) h = unfold Accepted in tt
Loaded-Accepted paths fault h = unfold Accepted in tt

read-Accepted :
    (disk : Disk) (w : List GoString × Option GoError)
    → Accepted w (continue (walked disk w) (λ cfgs. accept cfgs (verify_configs cfgs)))
unfolding walked
read-Accepted disk ([], e) = unfold Accepted in tt
read-Accepted disk (path ∷ paths, some e) = unfold Accepted in tt
read-Accepted disk (path ∷ paths, none) =
    Loaded-Accepted (path ∷ paths) _ (load_each-Loaded disk (path ∷ paths) [])

-- Where the reader gives configs, the walk met no error, there is one config for each path that it
-- kept, in that order and under that path, every config names a domain and a server, and no domain
-- stands twice in all of them together.
pub read_accepts :
    (disk : Disk) (visits : List Visit) (cfgs : List ServerConfig)
    → read disk visits ≡ ok cfgs
    → ((walk disk visits []).1 ≡ none)
      × (map path_of cfgs ≡ (walk disk visits []).0)
      × NoRepeat (all_domains cfgs)
      × All IsUsable cfgs
unfolding read read_server_configs Accepted
read_accepts disk visits cfgs e =
    subst (Accepted (walk disk visits [])) e (read-Accepted disk (walk disk visits []))
