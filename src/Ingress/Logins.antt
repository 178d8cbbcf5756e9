-- ===== src/Ingress/Logins.antt =====
-- What a worker makes of a client that logs in, and of one that stalls.
use ipojknm.Prelude.{Option, some, List, [], ◌++◌, ◌+◌, ◌^◌, ◌<◌, ◌≡◌, refl, length, ℕ}
use ipojknm.Prelude.Text.{GoString, to_lower, to_lower_idem}
use ipojknm.Prelude.Table.{lookup}
use ipojknm.Errors.{GoError, client_to_slow, deadline_exceeded, read_content_failed, ok, err}
use ipojknm.Mc.VarInt.{encode, read_var_int, decode_loop}
use ipojknm.Mc.Packet.{Packet, marshal, read_packet}
use ipojknm.Mc.Packet.RoundTrip.{read_packet-marshal}
use ipojknm.Mc.Packet.Failures.{read_packet_cut}
use ipojknm.Mc.Handshake.{ServerBoundHandshake, login, marshal_handshake, request_state}
use ipojknm.Mc.Handshake.RoundTrip.{IsWire, unmarshal_handshake-marshal_handshake}
use ipojknm.Mc.Login.{
  ServerLoginStart, marshal_login_start, unmarshal_login_start-marshal_login_start,
}
use ipojknm.Mc.RealIp.{parse_server_address}
use ipojknm.Core.{ServerCatalog, find}
use ipojknm.Ingress.{
  read_frame, to_slow, handshake_or_zero, second_frame, finish, request_of, read_connection,
  process_connection,
}

read_frame-marshal :
    (pk : Packet) (e : GoError) (rest : List ℕ)
    → length pk.content + 1 < 2 ^ 31
    → read_frame e (marshal pk ++ rest) ≡ ok (pk, rest)
unfolding read_frame
read_frame-marshal pk e rest h = rw (read_packet-marshal pk e rest h)

-- A client that sends a handshake for a login and a login start, whatever it sends behind them: the
-- request has the handshake as it was sent, its host in lower case without the Forge and RealIP
-- suffixes, and the username of the login start; what follows the two frames is left.
pub read_connection_login :
    (addr : Option GoString) (hs : ServerBoundHandshake) (start : ServerLoginStart) (e : GoError)
    (rest : List ℕ)
    → IsWire hs
    → hs.next_state ≡ 2
    → length (marshal_handshake hs).content + 1 < 2 ^ 31
    → length start.name < 2 ^ 31
    → length (marshal_login_start start).content + 1 < 2 ^ 31
    → read_connection addr e
        (marshal (marshal_handshake hs) ++ (marshal (marshal_login_start start) ++ rest))
      ≡ ok (
        record {
          type = login;
          handshake = hs;
          server_addr = to_lower (parse_server_address hs);
          addr = addr;
          username = start.name;
        },
        rest,
      )
unfolding read_connection handshake_or_zero second_frame request_state finish request_of
read_connection_login addr hs start e rest wire next small name small' =
    rw
      (
        read_frame-marshal (marshal_handshake hs) e (marshal (marshal_login_start start) ++ rest)
            small,
        unmarshal_handshake-marshal_handshake hs wire,
        next,
        read_frame-marshal (marshal_login_start start) e rest small',
        unmarshal_login_start-marshal_login_start start name,
      )
      refl

empty_stalls : read_packet deadline_exceeded [] ≡ err deadline_exceeded
unfolding read_packet read_var_int decode_loop
empty_stalls = refl

-- A client that sends a handshake for a login and a login start, whatever it sends behind them, where
-- the catalog holds a server under the host's name in lower case: that server gets a request with the
-- handshake as it was sent, that name and the username; what follows the two frames is left.
pub process_connection_login :
    {V : Type 0} (addr : Option GoString) (catalog : ServerCatalog V) (server : V)
    (hs : ServerBoundHandshake) (start : ServerLoginStart) (e : GoError) (rest : List ℕ)
    → lookup (to_lower (parse_server_address hs)) catalog.server_dict ≡ some server
    → IsWire hs
    → hs.next_state ≡ 2
    → length (marshal_handshake hs).content + 1 < 2 ^ 31
    → length start.name < 2 ^ 31
    → length (marshal_login_start start).content + 1 < 2 ^ 31
    → process_connection addr catalog e
        (marshal (marshal_handshake hs) ++ (marshal (marshal_login_start start) ++ rest))
      ≡ ok (
        (
          server,
          record {
            type = login;
            handshake = hs;
            server_addr = to_lower (parse_server_address hs);
            addr = addr;
            username = start.name;
          },
        ),
        rest,
      )
unfolding process_connection find
process_connection_login addr catalog server hs start e rest known wire next small name small' =
    rw
      (
        read_connection_login addr hs start e rest wire next small name small',
        to_lower_idem (parse_server_address hs),
        known,
      )
      refl

-- A client that stalls until the deadline: before its first byte it is reported as too slow, but
-- inside the frame that it has begun it is not.
pub read_connection_stalled :
    (addr : Option GoString) (k : ℕ) (s : List ℕ)
    → 0 < k
    → k < 2 ^ 31
    → length s < k
    → (read_connection addr deadline_exceeded [] ≡ err client_to_slow)
      × (read_connection addr deadline_exceeded (encode k ++ s) ≡ err read_content_failed)
unfolding read_connection read_frame to_slow
read_connection_stalled addr k s pos small short =
    (rw empty_stalls, rw (read_packet_cut k s deadline_exceeded pos small short))
