-- ===== src/Root/Client.antt =====
-- A client's net.Conn as basic.go uses it: what each Read returns, what was written, and whether it
-- was closed.
use ipojknm.Prelude.{
  Bool, true, ℕ, zero, suc, ◌-◌, Option, none, some, List, [], ◌∷◌, ◌++◌, leb, length, ◌≡◌, ap,
  if◌then◌else◌,
}
use ipojknm.Prelude.Text.{GoString}
use ipojknm.Errors.{GoError, Outcome, ok, err, fault}
use ipojknm.Mc.Reader.{Decoder}
use ipojknm.Mc.Packet.{Packet, marshal, concat}

-- `incoming` has one element for each Read, `at_end` is the error behind them, and `write_error` what
-- every Write gives.
pub record Client : Type 0 where
  pub addr : Option GoString
  pub incoming : List (List ℕ)
  pub at_end : GoError
  pub write_error : Option GoError
  pub written : List (List ℕ)
  pub closed : Bool

-- conn.Close()
unfoldable pub close : Client → Client
close c = record c { closed = true }

-- A bufio.Reader takes whole what one Read returned. Of the bytes that come later a new reader sees
-- none of those that the old one still held: `unread n` is what is left for it when the old one has
-- handed on n bytes.
unfoldable pub unread : ℕ → List (List ℕ) → List (List ℕ)
unread n [] = []
unread zero (s ∷ ss) = s ∷ ss
unread (suc n) (s ∷ ss) =
    let more = unread (suc n - length s) ss in if leb (suc n) (length s) then ss else more

unfoldable pub consumed {ℓ} : {A : Type ℓ} → Client → Outcome (A × List ℕ) → Outcome A × Client
consumed c (ok (a, rest)) =
    (ok a, record c { incoming = unread (length (concat c.incoming) - length rest) c.incoming })
consumed c (err e) = (err e, c)
consumed c fault = (fault, c)

-- A decoder run on a new bufio.Reader of the connection. After an error nothing reads on.
unfoldable pub receive {ℓ} : {A : Type ℓ} → Decoder A → Client → Outcome A × Client
unfolding consumed
receive m c = consumed c (m c.at_end (concat c.incoming))

abbrev pub wrote : Packet → Client → Client
wrote pk c = record c { written = c.written ++ marshal pk ∷ [] }

write_by : Option GoError → Packet → Client → Outcome (Unit {0}) × Client
write_by none pk c = (ok tt, wrote pk c)
write_by (some e) pk c = (err e, c)

-- mcConn.WritePacket
unfoldable pub write_packet : Packet → Client → Outcome (Unit {0}) × Client
unfolding write_by
write_packet pk c = write_by c.write_error pk c

-- mcConn.WriteMcPacket of a value that makes its packet itself
unfoldable pub write_mc_packet {ℓ} :
    {A : Type ℓ} → (A → Packet) → A → Client → Outcome (Unit {0}) × Client
write_mc_packet marshal_packet s c = write_packet (marshal_packet s) c

pub write_packet-none :
    (pk : Packet) (c : Client) → c.write_error ≡ none → write_packet pk c ≡ (ok tt, wrote pk c)
unfolding write_packet
write_packet-none pk c fine = ap (λ (o : Option GoError). write_by o pk c) fine
