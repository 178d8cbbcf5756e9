-- ===== src/Root/Server.antt =====
-- core/server.go: the interface Server, which ProcessServer and FullRun use. `V` are the servers, `S`
-- is the state behind them; none stands for a panic.
use ipojknm.Prelude.{Option}
use ipojknm.Mc.Packet.{Packet}
use ipojknm.Core.{RequestData, ServerAction}

pub record Server (V S : Type 0) : Type 0 where
  pub conn_action : V → RequestData → S → Option (ServerAction × S)
  pub status : V → S → Option (Packet × S)
