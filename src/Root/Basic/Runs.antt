-- ===== src/Root/Basic/Runs.antt =====
-- What a client sees of FullRun.
use ipojknm.Prelude.{
  ℕ, zero, suc, ◌+◌, ◌-◌, ◌^◌, ◌<◌, ◌≤◌, Option, none, ◌≡◌, refl, ap, ◌∙◌, List, [], ◌∷◌, ◌++◌,
  length, length-append, arith,
}
use ipojknm.Prelude.Text.{GoString, to_lower, to_lower_idem}
use ipojknm.Prelude.Table.{lookup}
use ipojknm.Errors.{GoError, Outcome, ok, err}
use ipojknm.Mc.Packet.{Packet, read_packet, marshal, concat}
use ipojknm.Mc.Packet.RoundTrip.{read_packet-marshal}
use ipojknm.Mc.Handshake.{status, ServerBoundHandshake, marshal_handshake, request_state}
use ipojknm.Mc.Handshake.RoundTrip.{IsWire, unmarshal_handshake-marshal_handshake}
use ipojknm.Mc.RealIp.{parse_server_address}
use ipojknm.Mc.VarInt.{encode, to_u32, read_var_int, decode_loop}
use mathlib.Core.List.{append_assoc}
use ipojknm.Core.{RequestData, ServerCatalog, find}
use ipojknm.Root.Client.{Client, unread, receive, consumed, wrote, write_packet-none}
use ipojknm.Root.Server.{Server}
use ipojknm.Root.Basic.{
  in_time, parsed, named_request, read_request, read_stuff, returned, pong, after_write,
  send_response, not_found, looked_up, was_read, full_run,
}

in_time-marshal :
    (pk : Packet) (e : GoError) (rest : List ℕ)
    → length pk.content + 1 < 2 ^ 31
    → in_time read_packet e (marshal pk ++ rest) ≡ ok (pk, rest)
unfolding in_time
in_time-marshal pk e rest h = rw (read_packet-marshal pk e rest h, in_time)

nothing_left : (e : GoError) → read_packet e [] ≡ err e
unfolding read_packet read_var_int decode_loop
nothing_left e = refl

-- The request of a handshake for the status.
abbrev pub status_of : Option GoString → ServerBoundHandshake → RequestData
status_of addr hs = record {
  type = status;
  handshake = hs;
  server_addr = to_lower (parse_server_address hs);
  addr = addr;
  username = [];
}

read_stuff_status :
    (addr : Option GoString) (hs : ServerBoundHandshake) (pk : Packet) (e : GoError) (rest : List ℕ)
    → IsWire hs
    → hs.next_state ≡ 1
    → length (marshal_handshake hs).content + 1 < 2 ^ 31
    → length pk.content + 1 < 2 ^ 31
    → read_stuff addr e (marshal (marshal_handshake hs) ++ (marshal pk ++ rest))
      ≡ ok (status_of addr hs, rest)
unfolding read_stuff parsed read_request named_request request_state
read_stuff_status addr hs pk e rest wire next small small' =
    rw
      (
        in_time-marshal (marshal_handshake hs) e (marshal pk ++ rest) small,
        unmarshal_handshake-marshal_handshake hs wire,
        next,
        in_time-marshal pk e rest small',
      )
      refl

-- A reader that ends in the first segment loses the rest of it.
unread_first :
    (n : ℕ) (s : List ℕ) (ss : List (List ℕ)) → 0 < n → n ≤ length s → unread n (s ∷ ss) ≡ ss
unfolding unread
unread_first zero s ss pos h = absurd (omega arith)
unread_first (suc n) s ss pos h = ground arith

marshal-pos : (pk : Packet) → 0 < length (marshal pk)
unfolding marshal
marshal-pos pk =
    omega
      (arith, length-append (encode (to_u32 (length (pk.id ∷ pk.content)))) (pk.id ∷ pk.content))

-- The client that has sent these bytes in one segment, and these segments behind it.
abbrev pub sending : Client → List ℕ → List (List ℕ) → Client
sending c segment later = record c { incoming = segment ∷ later }

-- The two frames of a request, with bytes that come in the same segment.
abbrev pub frames : ServerBoundHandshake → Packet → List ℕ → List ℕ
frames hs pk extra = marshal (marshal_handshake hs) ++ (marshal pk ++ extra)

module _ (c : Client) (hs : ServerBoundHandshake) (pk : Packet) (extra : List ℕ)
    (later : List (List ℕ)) (wire : IsWire hs) (next : hs.next_state ≡ 1)
    (small : length (marshal_handshake hs).content + 1 < 2 ^ 31)
    (small' : length pk.content + 1 < 2 ^ 31) where
  regroup :
      frames hs pk extra ++ concat later
      ≡ marshal (marshal_handshake hs) ++ (marshal pk ++ (extra ++ concat later))
  regroup = simp append_assoc

  read_frames :
      read_stuff c.addr c.at_end (frames hs pk extra ++ concat later)
      ≡ ok (status_of c.addr hs, extra ++ concat later)
  read_frames =
      rw regroup
        (read_stuff_status c.addr hs pk c.at_end (extra ++ concat later) wire next small small')

  taken : ℕ
  taken = length (frames hs pk extra ++ concat later) - length (extra ++ concat later)

  taken_bounds : (0 < taken) × (taken ≤ length (frames hs pk extra))
  unfolding taken
  taken_bounds = omega (
    arith,
    length-append (frames hs pk extra) (concat later),
    length-append extra (concat later),
    length-append (marshal (marshal_handshake hs)) (marshal pk ++ extra),
    length-append (marshal pk) extra,
    marshal-pos pk,
  )

  receive-frames :
      receive (read_stuff c.addr) (sending c (frames hs pk extra) later)
      ≡ (ok (status_of c.addr hs), record c { incoming = later })
  unfolding receive consumed taken
  receive-frames = rw read_frames (
      ap (λ (ss : List (List ℕ)). (ok (status_of c.addr hs), record c { incoming = ss }))
        (unread_first taken (frames hs pk extra) later taken_bounds.0 taken_bounds.1))

module _ {V S : Type 0} (ops : Server V S) (catalog : ServerCatalog V) (c : Client)
    (hs : ServerBoundHandshake) (pk : Packet) (extra : List ℕ) (s : S) (wire : IsWire hs)
    (next : hs.next_state ≡ 1) (small : length (marshal_handshake hs).content + 1 < 2 ^ 31)
    (small' : length pk.content + 1 < 2 ^ 31) (writes : c.write_error ≡ none)
    (absent : lookup (to_lower (parse_server_address hs)) catalog.server_dict ≡ none) where
  answered_default :
      (later : List (List ℕ))
      → full_run ops catalog (sending c (frames hs pk extra) later) s
        ≡ not_found ops catalog (status_of c.addr hs) (record c { incoming = later }) s
  unfolding full_run was_read looked_up find
  answered_default later =
      rw (receive-frames c hs pk extra, to_lower_idem (parse_server_address hs), absent) refl

  -- The status was written, and the ping is what the connection still holds.
  waits_for_ping :
      (c' : Client)
      → c'.write_error ≡ none
      → let r = pong (receive read_packet (wrote catalog.default_status_pk c')) in
        not_found ops catalog (status_of c.addr hs) c' s ≡ returned r.0 r.1 s
  unfolding not_found send_response after_write
  waits_for_ping c' fine = rw (write_packet-none catalog.default_status_pk c' fine) refl

  echoed : Packet → List ℕ → List (List ℕ) → Client
  echoed ping rest later = wrote ping (record (wrote catalog.default_status_pk c) {
    incoming = unread (length (concat later) - length rest) later;
  })

  ping_comes :
      (ping : Packet) (rest : List ℕ) (later : List (List ℕ))
      → length ping.content + 1 < 2 ^ 31
      → concat later ≡ marshal ping ++ rest
      → pong (receive read_packet (wrote catalog.default_status_pk (record c { incoming = later })))
        ≡ (ok tt, echoed ping rest later)
  unfolding pong receive consumed echoed
  ping_comes ping rest later small_ping comes =
      let reads : read_packet c.at_end (concat later) ≡ ok (ping, rest) =
        rw comes (read_packet-marshal ping c.at_end rest small_ping) in
      rw reads
        (ap (λ (r : Outcome (Unit {0}) × Client). (ok tt, r.1)) (write_packet-none ping _ writes))

  -- A client asks for the status of a server that the catalog does not have, and sends a ping once
  -- the handshake and the request are read: it gets the default status and its ping back, whatever
  -- stood behind the request in one segment with it.
  pub full_run_default_status :
      (ping : Packet) (rest : List ℕ) (later : List (List ℕ))
      → length ping.content + 1 < 2 ^ 31
      → concat later ≡ marshal ping ++ rest
      → (c' : Client) × (full_run ops catalog (sending c (frames hs pk extra) later) s
          ≡ returned (ok tt) c' s)
        × (c'.written ≡ (c.written ++ marshal catalog.default_status_pk ∷ []) ++ marshal ping ∷ [])
  unfolding echoed
  full_run_default_status ping rest later small_ping comes = (
    echoed ping rest later,
    answered_default later
        ∙ (waits_for_ping (record c { incoming = later }) writes
            ∙ ap (λ (r : Outcome (Unit {0}) × Client). returned r.0 r.1 s)
                (ping_comes ping rest later small_ping comes)),
    refl,
  )

  -- A ping that comes in one segment with the request is lost with the first buffered reader: where
  -- nothing comes behind that segment, the run ends in the connection's error, and no ping was sent
  -- back, whatever the segment held behind the request.
  pub full_run_lost_ping :
      full_run ops catalog (sending c (frames hs pk extra) []) s
      ≡ returned (err c.at_end) (wrote catalog.default_status_pk (record c { incoming = [] })) s
  unfolding pong receive consumed
  full_run_lost_ping =
      answered_default []
      ∙ (waits_for_ping (record c { incoming = [] }) writes ∙ rw (nothing_left c.at_end) refl)
