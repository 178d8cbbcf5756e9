-- ===== src/V2/Raknet.antt =====
-- src/packet.go: the packets of RakNet that ping and answer. An int64 is held as its 64-bit pattern,
-- and the reader is a bytes.Buffer.
pub mod RoundTrip
use ipojknm.Prelude.{
  Bool, ℕ, zero, suc, ◌^◌, Option, none, some, List, [], ◌∷◌, ◌++◌, length, take, drop, leb,
  if◌then◌else◌,
}
use ipojknm.Prelude.Text.{GoString}
use ipojknm.Errors.{GoError, eof, other, Outcome, ok, err, fault}
use ipojknm.Mc.Field.{encode_long, long_of, encode_short, short_of}
use ipojknm.V2.Source.{zeros}

abbrev pub id_unconnected_ping : ℕ
id_unconnected_ping = 0x01

abbrev pub id_unconnected_ping_open_connections : ℕ
id_unconnected_ping_open_connections = 0x02

abbrev pub id_unconnected_pong : ℕ
id_unconnected_pong = 0x1c

abbrev pub unconnected_message_sequence : List ℕ
unconnected_message_sequence =
    0x00 ∷ 0xff ∷ 0xff ∷ 0x00 ∷ 0xfe ∷ 0xfe ∷ 0xfe ∷ 0xfe ∷ 0xfd ∷ 0xfd ∷ 0xfd ∷ 0xfd ∷ 0x12 ∷ 0x34
    ∷ 0x56 ∷ 0x78 ∷ []

pub record UnconnectedPing : Type 0 where
  pub send_timestamp : ℕ
  pub magic : List ℕ
  pub client_guid : ℕ

-- `text` is the field Data.
pub record UnconnectedPong : Type 0 where
  pub send_timestamp : ℕ
  pub magic : List ℕ
  pub server_guid : ℕ
  pub text : GoString

-- The values that `UnconnectedPing{}` and `UnconnectedPong{}` hold.
unfoldable pub empty_ping : UnconnectedPing
unfolding zeros
empty_ping = record { send_timestamp = 0; magic = zeros 16; client_guid = 0 }

unfoldable pub empty_pong : UnconnectedPong
unfolding zeros
empty_pong = record { send_timestamp = 0; magic = zeros 16; server_guid = 0; text = [] }

-- io.ErrUnexpectedEOF
abbrev pub unexpected_eof : GoError
unexpected_eof = other 4

at_end : List ℕ → GoError
at_end [] = eof
at_end (b ∷ bs) = unexpected_eof

-- The bytes of binary.Read: all n or none. With too few of them the buffer is empty behind the call.
unfoldable pub read_full : ℕ → List ℕ → Outcome (List ℕ) × List ℕ
unfolding at_end
read_full n bs = if leb n (length bs) then (ok (take n bs), drop n bs) else (err (at_end bs), [])

-- A field behind its binary.Read: it keeps its value where the read failed.
unfoldable pub long_or : ℕ → Outcome (List ℕ) → ℕ
long_or old (ok bb) = elim (long_of bb) [ ok n ↦ n | err _ ↦ old | fault ↦ old ]
long_or old (err e) = old
long_or old fault = old

unfoldable pub short_or : ℕ → Outcome (List ℕ) → ℕ
short_or old (ok bb) = elim (short_of bb) [ ok n ↦ n | err _ ↦ old | fault ↦ old ]
short_or old (err e) = old
short_or old fault = old

unfoldable pub bytes_or : List ℕ → Outcome (List ℕ) → List ℕ
bytes_or old (ok bb) = bb
bytes_or old (err e) = old
bytes_or old fault = old

unfoldable pub error_of : Outcome (List ℕ) → Option GoError
error_of (ok bb) = none
error_of (err e) = some e
error_of fault = none

-- UnconnectedPing.Write
unfoldable pub write_ping : UnconnectedPing → List ℕ
write_ping pk =
    id_unconnected_ping ∷ encode_long pk.send_timestamp
    ++ (unconnected_message_sequence ++ encode_long pk.client_guid)

-- UnconnectedPing.Read: the packet and the error of the last of its reads.
unfoldable pub read_ping : UnconnectedPing → List ℕ → UnconnectedPing × Option GoError
unfolding read_full
read_ping pk r =
    let (timestamp, r1) = read_full 8 r in
    let (magic, r2) = read_full 16 r1 in
    let (guid, r3) = read_full 8 r2 in
    (
      record {
        send_timestamp = long_or pk.send_timestamp timestamp;
        magic = bytes_or pk.magic magic;
        client_guid = long_or pk.client_guid guid;
      },
      error_of guid,
    )

-- UnconnectedPong.Write; the length is converted to an int16.
unfoldable pub write_pong : UnconnectedPong → List ℕ
write_pong pk =
    id_unconnected_pong ∷ encode_long pk.send_timestamp
    ++ (encode_long pk.server_guid
        ++ (unconnected_message_sequence ++ (encode_short (length pk.text) ++ pk.text)))

-- `n, err := r.Read(readB)` of a bytes.Buffer: the bytes that it has, up to n.
unfoldable pub read_some : ℕ → List ℕ → List ℕ × Option GoError
read_some zero r = ([], none)
read_some (suc n) [] = ([], some eof)
read_some (suc n) (b ∷ bs) = (take (suc n) (b ∷ bs), none)

-- UnconnectedPong.Read behind the length; `make` panics on a negative one.
unfoldable pub read_data : UnconnectedPong → ℕ → List ℕ → Outcome (UnconnectedPong × Option GoError)
unfolding read_some
read_data pk l r =
    let (bb, error) = read_some l r in
    if leb (2 ^ 15) l then fault else ok (record pk { text = bb }, error)

-- UnconnectedPong.Read
unfoldable pub read_pong : UnconnectedPong → List ℕ → Outcome (UnconnectedPong × Option GoError)
unfolding read_full
read_pong pk r =
    let (timestamp, r1) = read_full 8 r in
    let (guid, r2) = read_full 8 r1 in
    let (magic, r3) = read_full 16 r2 in
    let (l, r4) = read_full 2 r3 in
    read_data
      (record {
        send_timestamp = long_or pk.send_timestamp timestamp;
        magic = bytes_or pk.magic magic;
        server_guid = long_or pk.server_guid guid;
        text = pk.text;
      })
      (short_or 0 l) r4
