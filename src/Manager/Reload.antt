-- ===== src/Manager/Reload.antt =====
-- What updateConfig leaves behind: it changes routes and the backend, not the config it knows.
use ipojknm.Prelude.{Option, none, some, ◌≡◌, refl, sym, ap, ◌∙◌, ℕ}
use ipojknm.Prelude.Table.{Table, lookup}
use ipojknm.Errors.{Outcome, ok, err, fault}
use ipojknm.Config.{ServerConfig, id}
use ipojknm.Manager.{
  BackendManager, update_config, change_or_keep, on_backend, change_config, old_config,
  ServerConfig-discrete,
}

stored : Table ServerConfig → Outcome BackendManager → Table ServerConfig
stored cfgs (ok m) = m.cfgs
stored cfgs (err e) = cfgs
stored cfgs fault = cfgs

keeps_cfgs :
    (cfg old : ServerConfig) (same : Dec (cfg ≡ old)) (b : Option ℕ) (m m' : BackendManager)
    → change_or_keep cfg old same b m ≡ ok m'
    → m.cfgs ≡ m'.cfgs
unfolding change_or_keep on_backend change_config stored
keeps_cfgs cfg old (yes p) b m m' eq = ap (stored m.cfgs) eq
keeps_cfgs cfg old (no n) none m m' eq = ap (stored m.cfgs) eq
keeps_cfgs cfg old (no n) (some b) m m' eq = ap (stored m.cfgs) eq

same_config :
    (cfg : ServerConfig) (same : Dec (cfg ≡ cfg)) (b : Option ℕ) (m : BackendManager)
    → change_or_keep cfg cfg same b m ≡ ok m
unfolding change_or_keep
same_config cfg (yes p) b m = refl
same_config cfg (no n) b m = absurd (n refl)

seen_before :
    (cfg : ServerConfig) (m : BackendManager)
    → lookup (id cfg) m.cfgs ≡ some cfg
    → update_config cfg m ≡ ok m
unfolding update_config
seen_before cfg m known =
    rw known (same_config cfg (ServerConfig-discrete cfg cfg) (lookup (id cfg) m.backends) m)

-- Once a config is updated, the config it replaced cannot be put back: updateConfig compares with
-- the config it first saw, which is stored still, and so takes the old settings for those in force.
pub update_config-revert :
    (old cfg : ServerConfig) (m m' : BackendManager)
    → lookup (id old) m.cfgs ≡ some old
    → update_config cfg m ≡ ok m'
    → (m'.cfgs ≡ m.cfgs) × (update_config old m' ≡ ok m')
unfolding update_config
update_config-revert old cfg m m' known eq =
    let kept =
      keeps_cfgs cfg (old_config (lookup (id cfg) m.cfgs))
        (ServerConfig-discrete cfg (old_config (lookup (id cfg) m.cfgs)))
        (lookup (id cfg) m.backends) m m' eq in
    (sym kept, seen_before old m' (sym (ap (lookup (id old)) kept) ∙ known))
