-- ===== src/Agents.antt =====
-- module/state_agent.go, module/status_cache.go, module/handshake_modifier.go: what a backend is
-- told about its server. A dial to the server is answered by the outside: each call gets that
-- answer as an argument. `clock k` is read as in Limiter.antt.
pub mod Probe
pub mod Cache
use ipojknm.Prelude.{
  Bool, true, false, ℕ, Option, none, some, ◌+◌, ◌-◌, List, [], ◌∷◌, ltb, leb, if◌then◌else◌,
}
use ipojknm.Prelude.Text.{GoString, bytes_of}
use ipojknm.Errors.{GoError, status_ping, Outcome, ok, err, fault, continue}
use ipojknm.Mc.Packet.{Packet, no_packet, marshal, read_packet}
use ipojknm.Mc.Handshake.{ServerBoundHandshake, marshal_handshake}
use ipojknm.Mc.Login.{marshal_request}
use ipojknm.Mc.RealIp.{upgrade_to_old_real_ip, upgrade_to_new_real_ip}
use ipojknm.Core.{ServerState, unknown, online, offline}
use ipojknm.Limiter.{since}

-- McServerState
pub record McServerState : Type 0 where
  pub state : ServerState
  pub cooldown : ℕ
  pub start_time : ℕ

-- NewMcServerState
unfoldable pub new_mc_server_state : ℕ → McServerState
new_mc_server_state cooldown = record { state = unknown; cooldown = cooldown; start_time = 0 }

-- A dial: the error, or none where a connection was made.
abbrev pub Dial : Type 0
Dial = Option GoError

unfoldable pub state_of_dial : Dial → ServerState
state_of_dial none = online
state_of_dial (some e) = offline

-- McServerState.State
unfoldable pub probe : (ℕ → ℕ) → Dial → McServerState → ServerState × McServerState
unfolding state_of_dial
probe clock dial server =
    if leb (since (clock 0) server.start_time) server.cooldown
    then (server.state, server)
    else (state_of_dial dial, record server { start_time = clock 1; state = state_of_dial dial })

-- StateAgent
pub data StateAgent : Type 0 where
  always_online always_offline : StateAgent
  mc_server : McServerState → StateAgent

-- StateAgent.State
unfoldable pub agent_state : (ℕ → ℕ) → Dial → StateAgent → ServerState × StateAgent
unfolding probe
agent_state clock dial always_online = (online, always_online)
agent_state clock dial always_offline = (offline, always_offline)
agent_state clock dial (mc_server server) =
    let (s, server') = probe clock dial server in (s, mc_server server')

-- What the outside does in one status request: the dial, the two writes, and the bytes that the
-- server sends with the error that the connection gives behind them.
pub record Exchange : Type 0 where
  pub dial : Dial
  pub write_handshake : Option GoError
  pub write_request : Option GoError
  pub answer : List ℕ
  pub at_end : GoError

-- statusCache
pub record StatusCache : Type 0 where
  pub status : Packet
  pub cooldown : ℕ
  pub cache_time : ℕ
  pub handshake : ServerBoundHandshake

-- NewStatusCache
unfoldable pub new_status_cache : ℕ → ℕ → StatusCache
new_status_cache protocol cooldown = record {
  status = no_packet;
  cooldown = cooldown;
  cache_time = 0;
  handshake = record {
    protocol_version = protocol;
    server_address = bytes_of "Ultraviolet";
    server_port = 25565;
    next_state = 1;
  };
}

-- What one `newStatus` does to its connection: the frames written, and whether it was opened and
-- closed again.
pub record Traffic : Type 0 where
  pub sent : List (List ℕ)
  pub opened : Bool
  pub closed : Bool

-- The last step of newStatus: `mcConn.ReadPacket`, and `conn.Close` only behind a success.
read_answer : List (List ℕ) → Outcome (Packet × List ℕ) → Outcome Packet × Traffic
read_answer sent (ok (pk, rest)) = (ok pk, record { sent = sent; opened = true; closed = true })
read_answer sent (err e) = (err e, record { sent = sent; opened = true; closed = false })
read_answer sent fault = (fault, record { sent = sent; opened = true; closed = false })

-- statusCache.newStatus
unfoldable pub new_status : Exchange → StatusCache → Outcome Packet × Traffic
unfolding read_answer
new_status x cache =
    let hello = marshal (marshal_handshake cache.handshake) in
    let request = marshal marshal_request in
    elim x.dial [
      | some e ↦ (err e, record { sent = []; opened = false; closed = false })
      | none ↦ elim x.write_handshake [
        | some e ↦ (err e, record { sent = []; opened = true; closed = false })
        | none ↦ elim x.write_request [
          | some e ↦ (err e, record { sent = hello ∷ []; opened = true; closed = false })
          | none ↦ read_answer (hello ∷ request ∷ []) (read_packet x.at_end x.answer)
        ]
      ]
    ]

-- What Status makes of newStatus's answer: an error other than ErrStatusPing is handed on beside
-- the old packet. ErrStatusPing comes with an empty packet, which is cached.
store_answer : ℕ → StatusCache → Outcome Packet → Outcome ((Packet × Option GoError) × StatusCache)
store_answer now cache (ok pk) = ok ((pk, none), record cache { cache_time = now; status = pk })
store_answer now cache (err status_ping) =
    ok ((no_packet, none), record cache { cache_time = now; status = no_packet })
store_answer now cache (err e) = ok ((cache.status, some e), cache)
store_answer now cache fault = fault

-- statusCache.Status
unfoldable pub cached_status :
    (ℕ → ℕ) → Exchange → StatusCache → Outcome ((Packet × Option GoError) × StatusCache)
unfolding store_answer
cached_status clock x cache =
    if ltb (since (clock 0) cache.cache_time) cache.cooldown
    then ok ((cache.status, none), cache)
    else store_answer (clock 1) cache (new_status x cache).0

-- HandshakeModifier: RealIP 2.4, or 2.5 with what signs by the server's key; none is a nil key.
pub data HandshakeModifier : Type 0 where
  real_ip_2_4 : HandshakeModifier
  real_ip_2_5 : Option (GoString → Option GoString) → HandshakeModifier

-- HandshakeModifier.Modify; `stamp` is time.Now().Unix(). Signing with a nil key panics.
unfoldable pub modify :
    HandshakeModifier → GoString → ℕ → ServerBoundHandshake → Outcome ServerBoundHandshake
modify real_ip_2_4 addr stamp hs = ok (upgrade_to_old_real_ip addr stamp hs)
modify (real_ip_2_5 none) addr stamp hs = fault
modify (real_ip_2_5 (some sign)) addr stamp hs = ok (upgrade_to_new_real_ip sign addr stamp hs)
