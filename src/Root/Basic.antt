-- ===== src/Root/Basic.antt =====
-- basic.go: a connection is read, looked up, and answered or handed to the proxy.
pub mod Runs
pub mod Closing
use ipojknm.Prelude.{Bool, true, false, ℕ, Option, none, some, List, [], ◌∷◌, ◌++◌, if◌then◌else◌}
use ipojknm.Prelude.Text.{GoString, to_lower}
use ipojknm.Errors.{
  GoError, no_server_found, client_to_slow, not_valid_handshake, is_deadline, Outcome, ok, err,
  fault, continue,
}
use mathlib.Core.Option
use ipojknm.Mc.Reader.{Decoder, raise, lift, ◌>>=◌}
use ipojknm.Mc.Packet.{Packet, no_packet, read_packet}
use ipojknm.Mc.Handshake.{
  HandshakeState, unknown_state, status, login, ServerBoundHandshake, no_handshake, request_state,
  unmarshal_handshake,
}
use ipojknm.Mc.Login.{unmarshal_login_start}
use ipojknm.Mc.RealIp.{parse_server_address}
use ipojknm.Core.{RequestData, ServerAction, ServerCatalog, find}
use ipojknm.Limiter.{is_status}
use ipojknm.Root.Client.{Client, close, receive, write_packet}
use ipojknm.Root.Server.{Server}

-- `if errors.Is(err, os.ErrDeadlineExceeded) { err = core.ErrClientToSlow; return }`
in_time {ℓ} : {A : Type ℓ} → Decoder A → Decoder A
in_time m e bs = elim (m e bs) [
  | ok p ↦ ok p
  | err x ↦ err (if is_deadline x then client_to_slow else x)
  | fault ↦ fault
]

-- The handshake of a packet that is none is the zero value; the error is logged.
parsed : Outcome ServerBoundHandshake → Outcome ServerBoundHandshake
parsed (ok hs) = ok hs
parsed (err x) = ok no_handshake
parsed fault = fault

-- The request, with the username of a login.
named_request : HandshakeState → RequestData → Packet → Outcome RequestData
named_request login req packet =
    continue (unmarshal_login_start packet) (λ start. ok (record req { username = start.name }))
named_request _ req packet = ok req

read_request : Option GoString → ServerBoundHandshake → HandshakeState → Decoder RequestData
unfolding in_time named_request
read_request addr hs unknown_state = raise not_valid_handshake
read_request addr hs type = do
  packet ← in_time read_packet
  lift (
      named_request type
        (record {
          type = type;
          handshake = hs;
          server_addr = to_lower (parse_server_address hs);
          addr = addr;
          username = [];
        })
        packet)

-- ReadStuff
unfoldable pub read_stuff : Option GoString → Decoder RequestData
unfolding in_time parsed read_request
read_stuff addr = do
  packet ← in_time read_packet
  handshake ← lift (parsed (unmarshal_handshake packet))
  read_request addr handshake (request_state handshake.next_state)

-- The part of SendResponse for a ping: the error of the write back is dropped.
pong : Outcome Packet × Client → Outcome (Unit {0}) × Client
pong (ok packet, c) = (ok tt, (write_packet packet c).1)
pong (err e, c) = (err e, c)
pong (fault, c) = (fault, c)

after_write : Bool → Outcome (Unit {0}) × Client → Outcome (Unit {0}) × Client
unfolding pong
after_write true (ok _, c) = pong (receive read_packet c)
after_write false (ok _, c) = (ok tt, c)
after_write with_ping (err e, c) = (err e, c)
after_write with_ping (fault, c) = (fault, c)

-- SendResponse
unfoldable pub send_response : Packet → Bool → Client → Outcome (Unit {0}) × Client
unfolding after_write
send_response pk with_ping c = after_write with_ping (write_packet pk c)

-- What a run ends in (a Close gives no error here): the connection is handed to the goroutine of ProxyConnection, or the run
-- returns an error or nil, or a server's method panics.
pub data Ending (S : Type 0) : Type 0 where
  proxied : RequestData → Client → S → Ending S
  returned : Outcome (Unit {0}) → Client → S → Ending S
  crashed : Ending S

-- `defer conn.Close()` of what SendResponse returns
closing : {S : Type 0} → S → Outcome (Unit {0}) × Client → Ending S
closing s (r, c) = returned r (close c) s

-- The three results of ProcessRequest; CLOSE is the zero value of the first.
abbrev pub Processed : Type 0
Processed = ServerAction × Packet × Option GoError

module _ {V S : Type 0} (ops : Server V S) where
  respond_status : Client → Option (Packet × S) → Ending S
  unfolding closing
  respond_status c none = crashed
  respond_status c (some (pk, s)) = closing s (send_response pk true c)

  -- The switch of ProcessServer.
  unfoldable pub respond : V → RequestData → Client → ServerAction → S → Ending S
  unfolding respond_status closing
  respond server req c ServerAction.proxy s = proxied req c s
  respond server req c ServerAction.send_status s = respond_status c (ops.status server s)
  respond server req c ServerAction.close s = returned (ok tt) (close c) s
  respond server req c _ s = closing s (send_response no_packet false c)

  unfoldable pub acted : V → RequestData → Client → Option (ServerAction × S) → Ending S
  unfolding respond
  acted server req c none = crashed
  acted server req c (some (action, s)) = respond server req c action s

  -- ProcessServer
  unfoldable pub process_server : V → RequestData → Client → S → Ending S
  unfolding acted
  process_server server req c s = acted server req c (ops.conn_action server req s)

  not_found : ServerCatalog V → RequestData → Client → S → Ending S
  not_found catalog req c s = elim (is_status req.type) [
    | true ↦ let (r, c') = send_response catalog.default_status_pk true c in returned r c' s
    | false ↦ returned (ok tt) (close c) s
  ]

  looked_up : ServerCatalog V → RequestData → Client → S → Outcome V → Ending S
  unfolding not_found
  looked_up catalog req c s (ok server) = process_server server req c s
  looked_up catalog req c s (err no_server_found) = not_found catalog req c s
  looked_up catalog req c s (err e) = returned (ok tt) (close c) s
  looked_up catalog req c s fault = crashed

  was_read : ServerCatalog V → S → Outcome RequestData × Client → Ending S
  unfolding looked_up
  was_read catalog s (ok req, c) = looked_up catalog req c s (find req.server_addr catalog)
  was_read catalog s (err e, c) = returned (err e) c s
  was_read catalog s (fault, c) = crashed

  -- FullRun
  unfoldable pub full_run : ServerCatalog V → Client → S → Ending S
  unfolding was_read
  full_run catalog c s = was_read catalog s (receive (read_stuff c.addr) c)

  -- The switch of ProcessRequest.
  verify_or_status : ServerCatalog V → V → ServerAction → S → Option (Processed × S)
  verify_or_status catalog server ServerAction.verify_conn s =
      some ((ServerAction.verify_conn, catalog.verify_conn_pk, none), s)
  verify_or_status catalog server ServerAction.send_status s =
      Option.map (λ p. ((ServerAction.send_status, p.0, none), p.1)) (ops.status server s)
  verify_or_status catalog server action s = some ((action, no_packet, none), s)

  process_acted : ServerCatalog V → V → Option (ServerAction × S) → Option (Processed × S)
  unfolding verify_or_status
  process_acted catalog server none = none
  process_acted catalog server (some (action, s)) = verify_or_status catalog server action s

  process_found : ServerCatalog V → RequestData → S → Outcome V → Option (Processed × S)
  unfolding process_acted
  process_found catalog req s (ok server) =
      process_acted catalog server (ops.conn_action server req s)
  process_found catalog req s (err no_server_found) = some (
    (
      ServerAction.close,
      (if is_status req.type then catalog.default_status_pk else no_packet),
      some no_server_found,
    ),
    s,
  )
  process_found catalog req s (err e) = some ((ServerAction.close, no_packet, some e), s)
  process_found catalog req s fault = none

  -- ProcessRequest
  unfoldable pub process_request : RequestData → ServerCatalog V → S → Option (Processed × S)
  unfolding process_found
  process_request req catalog s = process_found catalog req s (find req.server_addr catalog)
