-- ===== src/Root/Basic/Closing.antt =====
-- Which connections FullRun leaves open.
use ipojknm.Prelude.{
  ℕ, Bool, true, false, not, ◌&&◌, ◌||◌, Option, none, some, ◌≡◌, refl, List, arith, Option-cases,
  inl, inr, ◌∙◌,
}
use ipojknm.Errors.{Outcome, ok, err, fault, is_ok}
use ipojknm.Mc.Packet.{Packet, read_packet, concat}
use ipojknm.Core.{RequestData, ServerCatalog, ServerAction, find, find-cases}
use ipojknm.Limiter.{is_status}
use ipojknm.Root.Client.{Client, close, receive, consumed, write_packet}
use ipojknm.Root.Server.{Server}
use ipojknm.Root.Basic.{
  Ending, proxied, returned, crashed, closing, read_stuff, pong, after_write, send_response,
  respond_status, respond, acted, process_server, not_found, looked_up, was_read, full_run,
}

-- The connection is open still where the run is over: it has returned, or it has handed the connection
-- to the goroutine of ProxyConnection, which returns too.
abbrev pub leaves_open : {S : Type 0} → Ending S → Bool
leaves_open (returned r c s) = not c.closed
leaves_open (proxied req c s) = not c.closed
leaves_open crashed = false

-- What was read asks for the status of a server that is not in the catalog.
abbrev pub wants_default : {V : Type 0} → ServerCatalog V → Outcome RequestData → Bool
wants_default catalog (ok req) = is_status req.type && not (is_ok (find req.server_addr catalog))
wants_default catalog (err e) = true
wants_default catalog fault = false

-- What was read asks for a server of the catalog that answers with PROXY.
abbrev pub is_proxy : {S : Type 0} → Option (ServerAction × S) → Bool
is_proxy none = false
is_proxy (some (ServerAction.proxy, s)) = true
is_proxy (some (ServerAction.send_status, s)) = false
is_proxy (some (ServerAction.close, s)) = false
is_proxy (some (ServerAction.default_status, s)) = false
is_proxy (some (ServerAction.verify_conn, s)) = false
is_proxy (some (ServerAction.disconnect, s)) = false
is_proxy (some (ServerAction.proxy_realip_2_4, s)) = false
is_proxy (some (ServerAction.proxy_realip_2_5, s)) = false

abbrev found_proxies : {V S : Type 0} → Server V S → RequestData → S → Outcome V → Bool
found_proxies ops req s (ok server) = is_proxy (ops.conn_action server req s)
found_proxies ops req s (err e) = false
found_proxies ops req s fault = false

abbrev pub wants_proxy :
    {V S : Type 0} → Server V S → ServerCatalog V → S → Outcome RequestData → Bool
wants_proxy ops catalog s (ok req) = found_proxies ops req s (find req.server_addr catalog)
wants_proxy ops catalog s (err e) = false
wants_proxy ops catalog s fault = false

write_packet-closed : (pk : Packet) (c : Client) → (write_packet pk c).1.closed ≡ c.closed
unfolding write_packet
write_packet-closed pk c = ground arith

receive-closed {ℓ} :
    {A : Type ℓ} (c : Client) (o : Outcome (A × List ℕ)) → (consumed c o).1.closed ≡ c.closed
unfolding consumed
receive-closed c (ok (a, rest)) = refl
receive-closed c (err e) = refl
receive-closed c fault = refl

pong-closed : (o : Outcome Packet) (c : Client) → (pong (o, c)).1.closed ≡ c.closed
unfolding pong
pong-closed (ok pk) c = write_packet-closed pk c
pong-closed (err e) c = refl
pong-closed fault c = refl

after_write-closed :
    (with_ping : Bool) (o : Outcome (Unit {0})) (c : Client)
    → (after_write with_ping (o, c)).1.closed ≡ c.closed
unfolding after_write receive
after_write-closed true (ok _) c =
    let r = consumed c (read_packet c.at_end (concat c.incoming)) in
    pong-closed r.0 r.1 ∙ receive-closed c (read_packet c.at_end (concat c.incoming))
after_write-closed false (ok _) c = refl
after_write-closed with_ping (err e) c = refl
after_write-closed with_ping fault c = refl

send_response-closed :
    (pk : Packet) (with_ping : Bool) (c : Client)
    → (send_response pk with_ping c).1.closed ≡ c.closed
unfolding send_response
send_response-closed pk with_ping c =
    after_write-closed with_ping (write_packet pk c).0 (write_packet pk c).1
    ∙ write_packet-closed pk c

module _ {V S : Type 0} (ops : Server V S) where
  respond_closes :
      (server : V) (req : RequestData) (c : Client) (r : Option (ServerAction × S))
      → c.closed ≡ false
      → leaves_open (acted ops server req c r) ≡ is_proxy r
  unfolding acted respond respond_status closing close
  respond_closes server req c none opened = refl
  respond_closes server req c (some (ServerAction.proxy, s)) opened = rw opened refl
  respond_closes server req c (some (ServerAction.send_status, s)) opened =
      elim (Option-cases (ops.status server s)) [
        | inl panics ↦ rw panics refl
        | inr (p, answers) ↦ rw answers refl
      ]
  respond_closes server req c (some (ServerAction.close, s)) opened = refl
  respond_closes server req c (some (ServerAction.default_status, s)) opened = refl
  respond_closes server req c (some (ServerAction.verify_conn, s)) opened = refl
  respond_closes server req c (some (ServerAction.disconnect, s)) opened = refl
  respond_closes server req c (some (ServerAction.proxy_realip_2_4, s)) opened = refl
  respond_closes server req c (some (ServerAction.proxy_realip_2_5, s)) opened = refl

  unknown_server :
      (catalog : ServerCatalog V) (req : RequestData) (c : Client) (s : S)
      → c.closed ≡ false
      → leaves_open (not_found ops catalog req c s) ≡ is_status req.type
  unfolding not_found close
  unknown_server catalog req c s opened =
      ground (arith, send_response-closed catalog.default_status_pk true c)

  was_read_closes :
      (catalog : ServerCatalog V) (o : Outcome RequestData) (c : Client) (s : S)
      → c.closed ≡ false
      → leaves_open (was_read ops catalog s (o, c))
        ≡ (wants_default catalog o || wants_proxy ops catalog s o)
  unfolding was_read looked_up process_server
  was_read_closes catalog (ok req) c s opened = elim (find-cases req.server_addr catalog) [
    | inl absent ↦ rw absent (ground (arith, unknown_server catalog req c s opened))
    | inr (server, there) ↦
        rw there (ground (arith, respond_closes server req c (ops.conn_action server req s) opened))
  ]
  was_read_closes catalog (err e) c s opened = rw opened refl
  was_read_closes catalog fault c s opened = refl

-- FullRun returns without having closed the client's connection in exactly three cases: where the
-- request could not be read, where it asks for the status of a server that the catalog does not have,
-- and where a server of the catalog answers PROXY, so that ProxyConnection has the connection.
pub leaves_open-full_run :
    {V S : Type 0} (ops : Server V S) (catalog : ServerCatalog V) (c : Client) (s : S)
    → c.closed ≡ false
    → leaves_open (full_run ops catalog c s) ≡ (
        wants_default catalog (receive (read_stuff c.addr) c).0
        || wants_proxy ops catalog s (receive (read_stuff c.addr) c).0)
unfolding full_run receive
leaves_open-full_run ops catalog c s opened =
    let o = read_stuff c.addr c.at_end (concat c.incoming) in
    was_read_closes ops catalog (consumed c o).0 (consumed c o).1 s (receive-closed c o ∙ opened)
