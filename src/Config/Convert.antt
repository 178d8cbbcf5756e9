-- ===== src/Config/Convert.antt =====
-- config/file.go: ServerToBackendConfig. time.ParseDuration and json.Marshal belong to Go, the key
-- files to the file system: what they give is a parameter.
use ipojknm.Prelude.{
  Bool, true, false, ℕ, Option, none, some, ◌*◌, ◌≡◌, List, [], ◌∷◌, if◌then◌else◌, arith, ◌++◌,
  All-at,
}
use ipojknm.Prelude.Text.{GoString}
use ipojknm.Errors.{GoError, Outcome, ok, err, fault, continue, is_ok}
use ipojknm.Mc.Packet.{no_packet}
use ipojknm.Mc.Login.{ResponseJson, marshal_disconnect, marshal_status}
use ipojknm.Config.{ServerConfig, BackendWorkerConfig, PrivateKey, new_state_option, is_positive}
use ipojknm.Config.Verify.{IsUsable, verify_configs, verify_configs_iff}

-- What ReadPrivateKey says of the configured key file.
pub data KeyFile : Type 0 where
  key : PrivateKey → KeyFile
  not_exist : KeyFile
  unreadable : GoError → KeyFile

pub record Outside : Type 0 where
  -- time.ParseDuration: none for an error
  pub parse_duration : GoString → Option ℕ
  pub json_marshal : ResponseJson → GoString
  -- ReadPrivateKey(cfg.RealIPKey), CheckExistingGeneratedKey(cfg), GenerateKeys(cfg), as the disk
  -- stands; Config.Keys has them over the files.
  pub read_private_key : GoString → KeyFile
  pub existing_key : ServerConfig → Outcome (Option PrivateKey)
  pub generate_keys : ServerConfig → Outcome (Option PrivateKey)

abbrev pub second : ℕ
second = 1_000_000_000

-- `d, err := time.ParseDuration(s); if err != nil { d = fallback }`
unfoldable pub duration_or : (GoString → Option ℕ) → GoString → ℕ → ℕ
duration_or parse s fallback = elim (parse s) [ none ↦ fallback | some d ↦ d ]

-- `name == ""` falls back to `cfg.Domains[0]`, which panics where there is none.
unfoldable pub name_of : GoString → List GoString → Outcome GoString
name_of [] [] = fault
name_of [] (d ∷ ds) = ok d
name_of (c ∷ s) ds = ok (c ∷ s)

unfoldable pub key_of : Outside → ServerConfig → KeyFile → Outcome (Option PrivateKey)
key_of out cfg (key k) = ok (some k)
key_of out cfg not_exist =
    continue (out.existing_key cfg)
      (λ known. elim known [ some k ↦ ok (some k) | none ↦ out.generate_keys cfg ])
key_of out cfg (unreadable e) = err e

-- `if cfg.NewRealIP { … }`
unfoldable pub real_ip_key_of : Outside → ServerConfig → Bool → Outcome (Option PrivateKey)
unfolding key_of
real_ip_key_of out cfg false = ok none
real_ip_key_of out cfg true = key_of out cfg (out.read_private_key cfg.real_ip_key)

-- The config that is filled in, with the name and the RealIP key.
unfoldable pub converted :
    Outside → ServerConfig → GoString → Option PrivateKey → BackendWorkerConfig
unfolding duration_or
converted out cfg name k =
    let limits = is_positive cfg.rate_limit in
    record {
      name = name;
      state_option = new_state_option cfg.check_state_option;
      state_update_cooldown = duration_or out.parse_duration cfg.state_update_cooldown second;
      old_real_ip = cfg.old_real_ip;
      new_real_ip = cfg.new_real_ip;
      real_ip_key = k;
      cache_status = cfg.cache_status;
      cache_update_cooldown =
          if cfg.cache_status
          then duration_or out.parse_duration cfg.cache_update_cooldown second
          else 0;
      valid_protocol = if cfg.cache_status then cfg.valid_protocol else 0;
      offline_status = marshal_status out.json_marshal cfg.offline_status;
      disconnect_packet = marshal_disconnect (record { reason = cfg.disconnect_message });
      proxy_to = cfg.proxy_to;
      proxy_bind = cfg.proxy_bind;
      dial_timeout = duration_or out.parse_duration cfg.dial_timeout second;
      send_proxy_protocol = cfg.send_proxy_protocol;
      rate_limit = cfg.rate_limit;
      rate_limit_duration =
          if limits then duration_or out.parse_duration cfg.rate_duration second else 0;
      rate_ban_list_cooldown =
          if limits
          then duration_or out.parse_duration cfg.rate_ban_list_cooldown (900 * second)
          else 0;
      rate_discon_pk =
          if limits
          then marshal_disconnect (record { reason = cfg.rate_discon_msg })
          else no_packet;
    }

-- ServerToBackendConfig
unfoldable pub server_to_backend_config : Outside → ServerConfig → Outcome BackendWorkerConfig
unfolding name_of real_ip_key_of
server_to_backend_config out cfg =
    continue (name_of cfg.name cfg.domains) (λ name.
      continue (real_ip_key_of out cfg cfg.new_real_ip) (λ k. ok (converted out cfg name k)))

-- Each of the configs that VerifyConfigs accepts, if it wants no RealIP key, is converted: there is
-- no panic for a missing name and no error.
pub verified-server_to_backend_config :
    (out : Outside) (earlier : List ServerConfig) (cfg : ServerConfig) (later : List ServerConfig)
    → verify_configs (earlier ++ cfg ∷ later) ≡ []
    → cfg.new_real_ip ≡ false
    → is_ok (server_to_backend_config out cfg) ≡ true
unfolding server_to_backend_config
verified-server_to_backend_config out earlier cfg later v k =
    let usable =
      All-at IsUsable earlier cfg later ((verify_configs_iff (earlier ++ cfg ∷ later)).0 v).1 in
    ground arith
