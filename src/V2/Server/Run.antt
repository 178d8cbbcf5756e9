-- ===== src/V2/Server/Run.antt =====
-- src/server.go: Run, the start of the second version, and the loop over its Java connections.
pub mod InTurn
use ipojknm.Prelude.{Bool, true, false, ℕ, Option, none, some, List, [], ◌∷◌, ◌++◌, if◌then◌else◌}
use ipojknm.Prelude.Text.{GoString, bytes_of}
use ipojknm.Prelude.Table.{Table}
use ipojknm.Errors.{GoError, Outcome, ok, err, fault, continue}
use ipojknm.V2.Source.{Source}
use ipojknm.V2.Config.{BedrockServerConfig, JavaConfig}
use ipojknm.V2.Server.{register, Joined, process_connection}

-- CreateBedrockListener, where `listens` is whether net.ListenPacket gives no error: log.Panicf.
unfoldable pub create_bedrock_listener : (GoString → Bool) → BedrockServerConfig → Outcome GoString
create_bedrock_listener listens cfg = elim (listens cfg.base.listen_to) [
  | true ↦ ok cfg.base.listen_to
  | false ↦ fault
]

-- The loop over the Bedrock configs: the addresses that are served.
unfoldable pub listen_each : (GoString → Bool) → List BedrockServerConfig → Outcome (List GoString)
listen_each listens [] = ok []
listen_each listens (cfg ∷ cfgs) =
    let rest = listen_each listens cfgs in
    continue (create_bedrock_listener listens cfg)
      (λ addr. continue rest (λ addrs. ok (addr ∷ addrs)))

-- CreateListener, where `listens` is whether net.Listen gives no error.
unfoldable pub create_listener : (GoString → Bool) → GoString → Option GoString
create_listener listens addr = if listens addr then some addr else none

-- How BasicProxySetupJava ends: without a listener, by the error of Accept, by a panic, or not.
pub data Ended : Type 0 where
  not_listening accept_failed panicked runs : Ended

-- A call of Accept: its error, or a connection and whether its ProxyConnection comes to an end.
pub data Accepted : Type 0 where
  refused : Accepted
  connection : (e : GoError) (client : Source) (ends : Bool) → Accepted

-- The loop of BasicProxySetupJava, with what was joined before. ProcessConnection runs in the loop, so
-- that the next Accept waits for its end; its error is dropped.
unfoldable pub accept_each :
    (GoString → Outcome ℕ) → Table GoString → List Accepted → List Joined → List Joined × Ended
accept_each dial servers [] joined = (joined, runs)
accept_each dial servers (refused ∷ calls) joined = (joined, accept_failed)
accept_each dial servers (connection e client ends ∷ calls) joined =
    elim (process_connection dial servers e client) [
      | none ↦ (joined, runs)
      | some (ok j) ↦ elim ends [
        | true ↦ accept_each dial servers calls (joined ++ j ∷ [])
        | false ↦ (joined ++ j ∷ [], runs)
      ]
      | some (err x) ↦ accept_each dial servers calls joined
      | some fault ↦ (joined, panicked)
    ]

-- BasicProxySetupJava, whose address is that of UVConfig
unfoldable pub basic_proxy_setup_java :
    (GoString → Bool)
    → (GoString → Outcome ℕ)
    → Table GoString
    → List Accepted
    → List Joined × Ended
basic_proxy_setup_java listens dial servers calls =
    elim (create_listener listens (bytes_of ":25565")) [
      | none ↦ ([], not_listening)
      | some addr ↦ accept_each dial servers calls []
    ]

-- Run up to its endless wait: what is served, and the map Servers. `bedrock` and `java` are what
-- ReadBedrockConfigs and ReadJavaConfigs give. The error of the Java listener is dropped with its
-- goroutine.
unfoldable pub run :
    (GoString → Bool)
    → Outcome (List BedrockServerConfig)
    → Outcome (List JavaConfig)
    → Outcome (List GoString × Table GoString)
run listens bedrock java = continue bedrock (λ cfgs.
    continue (listen_each listens cfgs)
      (λ addrs. continue java (λ java_cfgs. ok (addrs, register java_cfgs []))))
