-- ===== src/Config.antt =====
-- Package config: the settings as values, and what the rest of the program makes of them. An int is
-- held as its 64-bit pattern, a time.Duration as a number of nanoseconds.
pub mod Verify
pub mod Convert
pub mod Ultraviolet
pub mod Reader
pub mod Keys
pub mod Startup
use ipojknm.Prelude.{
  Bool, true, false, ℕ, Option, none, some, ◌+◌, ◌-◌, ◌*◌, ◌^◌, List, [], ◌∷◌, ltb, ◌==◌,
  if◌then◌else◌, ◌&&◌,
}
use ipojknm.Prelude.Text.{GoString, bytes_of, str_eq}
use ipojknm.Mc.Packet.{Packet}
use ipojknm.Mc.Login.{SimpleStatus, no_status, marshal_disconnect, marshal_status, ResponseJson}

-- ServerConfig
pub record ServerConfig : Type 0 where
  pub file_path : GoString
  pub name : GoString
  pub domains : List GoString
  pub proxy_to : GoString
  pub proxy_bind : GoString
  pub dial_timeout : GoString
  pub old_real_ip : Bool
  pub new_real_ip : Bool
  pub real_ip_key : GoString
  pub send_proxy_protocol : Bool
  pub disconnect_message : GoString
  pub cache_status : Bool
  pub cache_update_cooldown : GoString
  pub valid_protocol : ℕ
  pub offline_status : SimpleStatus
  pub rate_limit : ℕ
  pub rate_duration : GoString
  pub rate_ban_list_cooldown : GoString
  pub rate_discon_msg : GoString
  pub check_state_option : GoString
  pub state_update_cooldown : GoString

-- ServerConfig.ID
unfoldable pub id : ServerConfig → GoString
id cfg = cfg.file_path

-- DefaultServerConfig
unfoldable pub default_server_config : ServerConfig
default_server_config = record {
  file_path = [];
  name = [];
  domains = [];
  proxy_to = [];
  proxy_bind = [];
  dial_timeout = bytes_of "1s";
  old_real_ip = false;
  new_real_ip = false;
  real_ip_key = [];
  send_proxy_protocol = false;
  disconnect_message = bytes_of "{\"text\": \"Server is offline\"}";
  cache_status = true;
  cache_update_cooldown = bytes_of "1m";
  valid_protocol = 0;
  offline_status = no_status;
  rate_limit = 5;
  rate_duration = bytes_of "1s";
  rate_ban_list_cooldown = bytes_of "5m";
  rate_discon_msg = bytes_of "{\"text\": \"Please reconnect to verify yourself\"}";
  check_state_option = [];
  state_update_cooldown = bytes_of "5s";
}

-- APIServerConfig
pub record ApiServerConfig : Type 0 where
  pub id : GoString
  pub domains : List GoString
  pub proxy_to : GoString
  pub proxy_bind : GoString
  pub dial_timeout : GoString
  pub send_proxy_protocol : Bool
  pub is_online : Bool
  pub use_status_cache : Bool
  pub cached_status : SimpleStatus
  pub disconnect_message : GoString
  pub limit_bots : Bool

-- ServerToAPIConfig, which has no error to return
unfoldable pub server_to_api_config : ServerConfig → ApiServerConfig
server_to_api_config cfg = record {
  id = [];
  domains = cfg.domains;
  proxy_to = cfg.proxy_to;
  proxy_bind = cfg.proxy_bind;
  dial_timeout = cfg.dial_timeout;
  send_proxy_protocol = cfg.send_proxy_protocol;
  is_online = true;
  use_status_cache = false;
  cached_status = no_status;
  disconnect_message = cfg.disconnect_message;
  limit_bots = false;
}

-- StateOptions
pub data StateOptions : Type 0 where
  cache always_online always_offline : StateOptions

-- NewStateOption
unfoldable pub new_state_option : GoString → StateOptions
new_state_option option =
    if str_eq option (bytes_of "online")
    then always_online
    else if str_eq option (bytes_of "offline")
    then always_offline
    else cache

-- An *ecdsa.PrivateKey is what signs a text by it.
abbrev pub PrivateKey : Type 0
PrivateKey = GoString → Option GoString

-- BackendWorkerConfig
pub record BackendWorkerConfig : Type 0 where
  pub name : GoString
  pub state_option : StateOptions
  pub state_update_cooldown : ℕ
  pub old_real_ip : Bool
  pub new_real_ip : Bool
  pub real_ip_key : Option PrivateKey
  pub cache_status : Bool
  pub cache_update_cooldown : ℕ
  pub valid_protocol : ℕ
  pub offline_status : Packet
  pub disconnect_packet : Packet
  pub proxy_to : GoString
  pub proxy_bind : GoString
  pub dial_timeout : ℕ
  pub send_proxy_protocol : Bool
  pub rate_limit : ℕ
  pub rate_limit_duration : ℕ
  pub rate_ban_list_cooldown : ℕ
  pub rate_discon_pk : Packet

-- `n > 0` of an int
abbrev pub is_positive : ℕ → Bool
is_positive n = ltb 0 n && ltb n (2 ^ 63)

-- ServerConfig{}
abbrev pub no_config : ServerConfig
no_config = record {
  file_path = [];
  name = [];
  domains = [];
  proxy_to = [];
  proxy_bind = [];
  dial_timeout = [];
  old_real_ip = false;
  new_real_ip = false;
  real_ip_key = [];
  send_proxy_protocol = false;
  disconnect_message = [];
  cache_status = false;
  cache_update_cooldown = [];
  valid_protocol = 0;
  offline_status = no_status;
  rate_limit = 0;
  rate_duration = [];
  rate_ban_list_cooldown = [];
  rate_discon_msg = [];
  check_state_option = [];
  state_update_cooldown = [];
}
