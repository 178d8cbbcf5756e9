-- ===== src/Ingress.antt =====
-- worker/worker.go: how a worker reads what a client sends. A connection is its address, the bytes
-- that are still to come, and the error that ends them: the one of a deadline where the client stalls.
pub mod Logins
pub mod Answers
pub mod Sessions
pub mod Backends
use ipojknm.Prelude.{Bool, true, false, Option, List, ℕ, [], ◌∷◌, if◌then◌else◌}
use ipojknm.Prelude.Text.{GoString, to_lower}
use ipojknm.Errors.{
  GoError, client_to_slow, not_valid_handshake, is_deadline, Outcome, ok, err, fault, continue,
}
use ipojknm.Mc.Reader.{Decoder}
use ipojknm.Mc.Packet.{Packet, read_packet}
use ipojknm.Mc.Handshake.{
  HandshakeState, unknown_state, status, login, ServerBoundHandshake, no_handshake, request_state,
  unmarshal_handshake,
}
use ipojknm.Mc.Login.{unmarshal_login_start}
use ipojknm.Mc.RealIp.{parse_server_address}
use ipojknm.Core.{RequestData, ServerCatalog, find}

-- `if errors.Is(err, os.ErrDeadlineExceeded) { return …, core.ErrClientToSlow }` behind ReadPacket
slow_or : GoError → GoError
slow_or x = if is_deadline x then client_to_slow else x

to_slow {ℓ} : {A : Type ℓ} → Outcome A → Outcome A
unfolding slow_or
to_slow (ok a) = ok a
to_slow (err x) = err (slow_or x)
to_slow fault = fault

unfoldable pub read_frame : Decoder Packet
unfolding to_slow
read_frame e bs = to_slow (read_packet e bs)

-- An error of UnmarshalServerBoundHandshake is only logged; the handshake is then the zero value.
handshake_or_zero : Outcome ServerBoundHandshake → Outcome ServerBoundHandshake
handshake_or_zero (ok hs) = ok hs
handshake_or_zero (err x) = ok no_handshake
handshake_or_zero fault = fault

unfoldable pub request_of : HandshakeState → Option GoString → ServerBoundHandshake → RequestData
request_of type addr hs = record {
  type = type;
  handshake = hs;
  server_addr = to_lower (parse_server_address hs);
  addr = addr;
  username = [];
}

-- What ReadConnection makes of the second packet.
finish : HandshakeState → RequestData → Packet → Outcome RequestData
finish login req pk =
    continue (unmarshal_login_start pk) (λ start. ok (record req { username = start.name }))
finish _ req pk = ok req

-- The part behind the test of the request's type.
second_frame : HandshakeState → Option GoString → ServerBoundHandshake → Decoder RequestData
unfolding finish
second_frame unknown_state addr hs e bs = err not_valid_handshake
second_frame type addr hs e bs =
    continue (read_frame e bs)
      (λ p. continue (finish type (request_of type addr hs) p.0) (λ req. ok (req, p.1)))

-- BasicWorker.ReadConnection, with the bytes that it leaves
unfoldable pub read_connection : Option GoString → Decoder RequestData
unfolding second_frame handshake_or_zero
read_connection addr e bs = continue (read_frame e bs) (λ p.
    continue (handshake_or_zero (unmarshal_handshake p.0))
      (λ hs. second_frame (request_state hs.next_state) addr hs e p.1))

-- BasicWorker.ProcessConnection up to its call of ProcessServer: the server and the request
unfoldable pub process_connection :
    {V : Type 0} → Option GoString → ServerCatalog V → Decoder (V × RequestData)
process_connection addr catalog e bs =
    continue (read_connection addr e bs)
      (λ p. continue (find p.0.server_addr catalog) (λ server. ok ((server, p.0), p.1)))
