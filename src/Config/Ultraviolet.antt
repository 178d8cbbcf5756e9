-- ===== src/Config/Ultraviolet.antt =====
-- config/types.go: the settings of the proxy as a whole.
use ipojknm.Prelude.{Bool, true, false, ℕ, ◌==◌, [], if◌then◌else◌}
use ipojknm.Prelude.Text.{GoString, bytes_of}
use ipojknm.Mc.Packet.{Packet}
use ipojknm.Mc.Login.{SimpleStatus, no_status, marshal_disconnect, marshal_status}
use ipojknm.Config.Convert.{Outside, second}

-- UltravioletConfig, without the writer of the log
pub record UltravioletConfig : Type 0 where
  pub listen_to : GoString
  pub default_status : SimpleStatus
  pub verify_conn_msg : GoString
  pub number_of_workers : ℕ
  pub number_of_listeners : ℕ
  pub accept_proxy_protocol : Bool
  pub use_prometheus : Bool
  pub prometheus_bind : GoString
  pub api_bind : GoString
  pub use_tableflip : Bool
  pub pid_file : GoString
  pub use_less_stable_mode : Bool
  pub io_deadline : ℕ

-- VerifyConnectionPk, DefaultStatusPk
unfoldable pub verify_connection_pk : UltravioletConfig → Packet
verify_connection_pk cfg = marshal_disconnect (record { reason = cfg.verify_conn_msg })

unfoldable pub default_status_pk : Outside → UltravioletConfig → Packet
default_status_pk out cfg = marshal_status out.json_marshal cfg.default_status

-- DefaultUltravioletConfig
unfoldable pub default_ultraviolet_config : UltravioletConfig
default_ultraviolet_config = record {
  listen_to = bytes_of ":25565";
  default_status = record {
    name = bytes_of "Ultraviolet";
    protocol = 0;
    description = bytes_of "Some proxy didnt proxy";
    favicon = [];
  };
  verify_conn_msg = bytes_of "{\"text\": \"Please reconnect to verify yourself\"}";
  number_of_workers = 10;
  number_of_listeners = 1;
  accept_proxy_protocol = false;
  use_prometheus = true;
  prometheus_bind = bytes_of ":9100";
  api_bind = bytes_of "127.0.0.1:9099";
  use_tableflip = true;
  pid_file = [];
  use_less_stable_mode = false;
  io_deadline = second;
}

-- WorkerConfig
pub record WorkerConfig : Type 0 where
  pub number_of_workers : ℕ
  pub default_status : SimpleStatus
  pub io_timeout : ℕ

-- DefaultWorkerConfig
unfoldable pub default_worker_config : WorkerConfig
default_worker_config = record {
  number_of_workers = 0;
  default_status = no_status;
  io_timeout = second;
}

-- NewWorkerConfig
unfoldable pub new_worker_config : UltravioletConfig → WorkerConfig
new_worker_config cfg = record {
  number_of_workers = 0;
  default_status = cfg.default_status;
  io_timeout = if cfg.io_deadline == 0 then second else cfg.io_deadline;
}
