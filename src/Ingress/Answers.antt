-- ===== src/Ingress/Answers.antt =====
-- worker/worker.go: a worker's loop, what it does with the answer of a backend, and the reading of a
-- connection that it does not use yet.
pub mod Replies
use ipojknm.Prelude.{Bool, true, false, ℕ, Option, none, some, List, [], ◌∷◌, ◌++◌}
use ipojknm.Prelude.Text.{GoString, bytes_of}
use ipojknm.Errors.{GoError, not_valid_handshake, Outcome, ok, err, fault, continue}
use ipojknm.Mc.Packet.{Packet, no_packet, read_packet, read_packet3, marshal}
use ipojknm.Mc.Handshake.{
  HandshakeState, unknown_state, status, login, ServerBoundHandshake, no_handshake, request_state,
  read_packet3_handshake,
}
use ipojknm.Mc.Login.{ServerLoginStart, marshal_status, unmarshal_login_start}
use ipojknm.Mc.RealIp.{parse_server_address}
use ipojknm.Core.{RequestData, ServerCatalog, new_empty_server_catalog}
use ipojknm.Config.Convert.{Outside}
use ipojknm.Config.Ultraviolet.{WorkerConfig}
use ipojknm.Backend.{BackendAction, BackendAnswer, ConnFunc, run_conn_func, new_close_answer}
use ipojknm.Agents.{Dial}
use ipojknm.Ingress.{process_connection}
use ipojknm.Root.Client.{Client, close, receive, write_packet}

-- What became of a client: a proxy runs to a server that was sent these packets and told this
-- address, or ProcessAnswer has returned.
pub data Fate : Type 0 where
  joined : Option GoString → List (List ℕ) → Client → Fate
  left : Client → Fate
  crashed : Fate

-- The ping of a status: read with a deadline, and sent back.
echo : Outcome Packet × Client → Fate
echo (ok ping, c) = left (close (write_packet ping c).1)
echo (err e, c) = left (close c)
echo (fault, c) = crashed

-- `sConn, err := ans.ServerConn()` and what follows; the errors of the writes are dropped.
join_server : BackendAnswer → Client → Outcome (Option GoString) → Fate
join_server ans c (ok announced) =
    joined announced (marshal ans.first_packet ∷ marshal ans.second_packet ∷ []) c
join_server ans c (err e) = left (close c)
join_server ans c fault = crashed

-- Without a connFunc the call of nil panics.
to_server : Dial → Option GoError → BackendAnswer → Client → Option ConnFunc → Fate
unfolding join_server
to_server dial header ans c none = crashed
to_server dial header ans c (some f) = join_server ans c (run_conn_func dial header f)

-- The switch of ProcessAnswer.
by_action : Dial → Option GoError → BackendAnswer → Client → BackendAction → Fate
unfolding to_server echo
by_action dial header ans c BackendAction.proxy = to_server dial header ans c ans.server_conn_func
by_action dial header ans c BackendAction.disconnect =
    left (close (write_packet ans.first_packet c).1)
by_action dial header ans c BackendAction.send_status =
    echo (receive read_packet (write_packet ans.first_packet c).1)
by_action dial header ans c BackendAction.close = left (close c)
by_action dial header ans c BackendAction.error = left c

-- BasicWorker.ProcessAnswer: `dial` and `header` are what the dial and header.WriteTo return.
unfoldable pub process_answer : Dial → Option GoError → Client → BackendAnswer → Fate
unfolding by_action
process_answer dial header c ans = by_action dial header ans c ans.action

-- `loginStart, _ := mc.UnmarshalServerBoundLoginStart(packet)` with the zero value for an error
name_or_empty : Outcome ServerLoginStart → GoString
name_or_empty (ok start) = start.name
name_or_empty _ = []

named : HandshakeState → RequestData → Packet → RequestData
unfolding name_or_empty
named login req packet = record req { username = name_or_empty (unmarshal_login_start packet) }
named _ req packet = req

-- Where the packet could not be read it is the zero value.
packet_or_empty {ℓ} : {A : Type ℓ} → Outcome (Packet × A) → Outcome Packet
packet_or_empty (ok p) = ok p.0
packet_or_empty (err e) = ok no_packet
packet_or_empty fault = fault

-- An error of ReadPacket3_Handshake leaves the next state 0, which is unknown.
with_handshake :
    Option GoString → GoError → Outcome (ServerBoundHandshake × List ℕ) → Outcome RequestData
unfolding named packet_or_empty
with_handshake addr e (ok (handshake, b)) = elim (request_state handshake.next_state) [
  | unknown_state ↦ err not_valid_handshake
  | t ↦ continue (packet_or_empty (read_packet3 e b)) (λ packet. ok (
      named t
        (record {
          type = t;
          handshake = handshake;
          server_addr = parse_server_address handshake;
          addr = addr;
          username = [];
        })
        packet))
]
with_handshake addr e (err x) = err not_valid_handshake
with_handshake addr e fault = fault

-- NotSafeYet_ProcessConnection: `e` is the error behind the last byte.
unfoldable pub not_safe_yet_process_connection :
    Option GoString → GoError → List ℕ → Outcome RequestData
unfolding with_handshake
not_safe_yet_process_connection addr e b = with_handshake addr e (read_packet3_handshake e b)

-- NewWorker: the catalog and the close answer that a worker starts with.
unfoldable pub new_worker : {V : Type 0} → Outside → WorkerConfig → ServerCatalog V × BackendAnswer
new_worker out cfg = (
  new_empty_server_catalog (marshal_status out.json_marshal cfg.default_status) no_packet,
  record new_close_answer { server_name = bytes_of "unknown" },
)

-- What the select of Work may take: a connection, the close channel, or a new catalog.
pub data Event (V : Type 0) : Type 0 where
  connected : Option GoString → GoError → List ℕ → Event V
  closing : Event V
  updated : ServerCatalog V → Event V

module _ {V : Type 0} where
  served :
      Outcome ((V × RequestData) × List ℕ)
      → List (Outcome (V × RequestData))
      → List (Outcome (V × RequestData))
  served (ok p) later = ok p.0 ∷ later
  served (err e) later = err e ∷ later
  served fault later = fault ∷ []

  -- What ProcessConnection hands to ProcessServer, or its error, for each connection, in the order in
  -- which Work takes them; errors are logged, and a panic ends the process.
  unfoldable pub work : ServerCatalog V → List (Event V) → List (Outcome (V × RequestData))
  unfolding served
  work servers [] = []
  work servers (connected addr e bs ∷ events) =
      served (process_connection addr servers e bs) (work servers events)
  work servers (closing ∷ events) = []
  work servers (updated servers' ∷ events) = work servers' events
