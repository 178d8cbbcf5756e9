-- ===== src/Mc/Handshake/Ranges.antt =====
-- mc/packet.go, mc/packet_login.go and mc/type.go: a handshake that was read from bytes is sent on.
use mathlib.Core.Path.{subst}
use ipojknm.Prelude.{
  ℕ, zero, suc, ◌%◌, ◌^◌, ◌==◌, ◌≡◌, refl, List, [], ◌∷◌, arith, All, length, take, drop, ltb, Bool,
  true, false, if◌then◌else◌, Bool-cases, inl, inr,
}
use ipojknm.Errors.{GoError, eof, packet_too_short, Outcome, ok, err, fault, continue, ok_inj}
use ipojknm.Mc.Reader.{raise, ◌>>=◌, lift}
use ipojknm.Mc.VarInt.{IsByte, IsU32, to_u32, int_of_int32, decode, read_var_int}
use ipojknm.Mc.Field.{decode_string, decode_short}
use ipojknm.Mc.Packet.{Packet, scan, read_full, packet_of, is_below_one, read_packet}
use ipojknm.Mc.Handshake.{
  ServerBoundHandshake, McTypesHandshake, server_bound_handshake_packet_id, marshal_handshake,
  scan_handshake, unmarshal_handshake,
}
use ipojknm.Mc.Handshake.RoundTrip.{IsWire, unmarshal_handshake-marshal_handshake}
use ipojknm.Mc.Field.Ranges.{
  Gives, IsU16, IsString, bind-Gives, decode-Gives, pure-Gives, decode_string-Gives, lift-Gives,
  decode_short-Gives,
}

record ScannedFits (pk : McTypesHandshake) : Type 0 where
  version_fits : IsU32 pk.protocol_version
  address_fits : IsString pk.server_address
  port_fits : IsU16 pk.server_port

scan_handshake-Gives : Gives ScannedFits scan_handshake
unfolding scan_handshake
scan_handshake-Gives = bind-Gives IsU32 ScannedFits decode _ decode-Gives (λ version v.
    bind-Gives IsString ScannedFits decode_string _ decode_string-Gives (λ address a.
      bind-Gives IsU16 ScannedFits decode_short _ decode_short-Gives (λ port p.
        bind-Gives IsU32 ScannedFits decode _ decode-Gives (λ state s.
          pure-Gives ScannedFits _
            (record { version_fits = v; address_fits = a; port_fits = p })))))

-- The int of a 32-bit pattern is one that an int32 holds.
int_of_int32-fits : (v : ℕ) → IsU32 v → int_of_int32 (to_u32 (int_of_int32 v)) ≡ int_of_int32 v
unfolding int_of_int32
int_of_int32-fits v h = ground arith

unmarshal_handshake-IsWire :
    (pk : Packet) (hs : ServerBoundHandshake)
    → All IsByte pk.content
    → unmarshal_handshake pk ≡ ok hs
    → IsWire hs
unfolding unmarshal_handshake scan
unmarshal_handshake-IsWire pk hs all h =
    elim (Bool-cases (pk.id == server_bound_handshake_packet_id)) [
      | inl is ↦ by_scan (scan_handshake eof pk.content) refl (rw is at h)
      | inr other ↦ cc (rw other at h)
    ]
  where
    by_scan :
        (r : Outcome (McTypesHandshake × List ℕ))
        → scan_handshake eof pk.content ≡ r
        → continue (continue r (λ p. ok p.0)) (λ x. ok (record {
          protocol_version = int_of_int32 x.protocol_version;
          server_address = x.server_address;
          server_port = x.server_port;
          next_state = x.next_state % 2 ^ 8;
        }))
          ≡ ok hs
        → IsWire hs
    by_scan (ok (x, rest)) first second =
        let s = (scan_handshake-Gives eof pk.content x rest all first).0 in
        subst IsWire (ok_inj second) (record {
          version = int_of_int32-fits x.protocol_version s.version_fits;
          address = s.address_fits.1;
          port = s.port_fits;
          next = omega arith;
        })
    by_scan (err x) first second = cc
    by_scan fault first second = cc

take-All : (n : ℕ) (bs : List ℕ) → All IsByte bs → All IsByte (take n bs)
take-All zero bs all = tt
take-All (suc n) [] all = tt
take-All (suc n) (b ∷ bs) all = (all.0, take-All n bs all.1)

drop-All : (n : ℕ) (bs : List ℕ) → All IsByte bs → All IsByte (drop n bs)
drop-All zero bs all = all
drop-All (suc n) [] all = tt
drop-All (suc n) (b ∷ bs) all = drop-All n bs all.1

read_full-Gives : (n : ℕ) → Gives (All IsByte) (read_full n)
unfolding read_full
read_full-Gives n e bs a rest all h = elim (Bool-cases (ltb (length bs) n)) [
  | inl short ↦ cc (rw short at h)
  | inr enough ↦
      subst (λ p. All IsByte p.0 × All IsByte p.1) (ok_inj (rw enough at h))
        (take-All n bs all, drop-All n bs all)
]

abbrev PacketBytes : Packet → Type 0
PacketBytes pk = IsByte pk.id × All IsByte pk.content

packet_of-bytes :
    (bs : List ℕ) (pk : Packet) → All IsByte bs → packet_of bs ≡ ok pk → PacketBytes pk
unfolding packet_of
packet_of-bytes [] pk all h = cc
packet_of-bytes (b ∷ bs) pk all h = subst PacketBytes (ok_inj h) all

framed-Gives :
    (n : ℕ) (below : Bool)
    → Gives PacketBytes (λ e bs.
      (if below
          then raise packet_too_short
          else (read_full n >>= (λ frame. lift (packet_of frame))))
        e bs)
framed-Gives n true = λ e bs pk rest all h. cc
framed-Gives n false =
    bind-Gives (All IsByte) PacketBytes (read_full n) (λ frame. lift (packet_of frame))
      (read_full-Gives n)
      (λ frame all. lift-Gives PacketBytes (packet_of frame) (λ pk. packet_of-bytes frame pk all))

read_packet-Gives : Gives PacketBytes read_packet
unfolding read_packet read_var_int decode
read_packet-Gives =
    bind-Gives IsU32 PacketBytes decode _ decode-Gives (λ n _. framed-Gives n (is_below_one n))

-- A handshake that is read from any frame of bytes, however its numbers are encoded there, is read
-- from the packet that it is sent on in as it was: the receiver has the same version, address, port and
-- state.
pub read_packet-unmarshal_handshake_again :
    (e : GoError) (bs rest : List ℕ) (pk : Packet) (hs : ServerBoundHandshake)
    → All IsByte bs
    → read_packet e bs ≡ ok (pk, rest)
    → unmarshal_handshake pk ≡ ok hs
    → unmarshal_handshake (marshal_handshake hs) ≡ ok hs
read_packet-unmarshal_handshake_again e bs rest pk hs all frame is =
    unmarshal_handshake-marshal_handshake hs
      (unmarshal_handshake-IsWire pk hs (read_packet-Gives e bs pk rest all frame).0.1 is)
