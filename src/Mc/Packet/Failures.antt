-- ===== src/Mc/Packet/Failures.antt =====
-- When reading a frame fails, and the three readers against one another.
use ipojknm.Prelude.{
  ℕ, zero, suc, ◌+◌, ◌^◌, ◌<◌, ◌≡◌, ◌≢◌, refl, List, [], ◌∷◌, ◌++◌, length, arith, if◌then◌else◌,
}
use ipojknm.Errors.{
  GoError, Outcome, ok, err, fault, continue, read_content_failed, packet_too_short,
}
use ipojknm.Mc.VarInt.{
  encode, decode, decode_loop, add_group, read_var_int, read_var_int_byte_reader,
}
use ipojknm.Mc.VarInt.RoundTrip.{read_var_int-encode}
use ipojknm.Mc.Reader.{Decoder, raise, lift, ◌>>=◌}
use ipojknm.Mc.Packet.{
  Packet, read_full, packet_of, read_packet, read_packet3, read_packet_old, read_packet_bytes,
  is_below_one,
}

decode_loop-ne-fault : (bs : List ℕ) (i n : ℕ) (e : GoError) → decode_loop i n e bs ≢ fault
unfolding decode_loop
decode_loop-ne-fault [] i n e h = cc
decode_loop-ne-fault (b ∷ bs) i n e h =
    ground (arith, decode_loop-ne-fault bs (i + 1) (add_group n b i) e)

-- What follows the length in ReadPacket. A frame of k bytes is never empty once k is not below one,
-- so indexing it cannot panic.
abbrev framed : ℕ → Decoder Packet
framed k =
    if is_below_one k
    then raise packet_too_short
    else do frame ← read_full k; lift (packet_of frame)

framed-ne-fault : (k : ℕ) (e : GoError) (bs : List ℕ) → framed k e bs ≢ fault
unfolding read_full packet_of
framed-ne-fault zero e bs h = cc
framed-ne-fault (suc k) e [] h = ground arith
framed-ne-fault (suc k) e (b ∷ bs) h = ground arith

read-framed :
    (o : Outcome (ℕ × List ℕ)) (e : GoError)
    → o ≢ fault
    → continue o (λ p. framed p.0 e p.1) ≢ fault
read-framed (ok (k, rest)) e h f = framed-ne-fault k e rest f
read-framed (err x) e h f = cc
read-framed fault e h f = h refl

-- ReadPacket never panics, whatever bytes and end the connection has.
pub read_packet-ne-fault : (e : GoError) (bs : List ℕ) → read_packet e bs ≢ fault
unfolding read_packet read_var_int
read_packet-ne-fault e bs = read-framed (decode_loop 0 0 e bs) e (decode_loop-ne-fault bs 0 0 e)

-- ReadPacketOld is ReadPacket, on every reader.
pub read_packet_old-read_packet :
    (e : GoError) (bs : List ℕ) → read_packet_old e bs ≡ read_packet e bs
unfolding read_packet_old read_packet read_packet_bytes read_var_int decode
read_packet_old-read_packet e bs = ground arith

-- ReadPacket3 is ReadPacket wherever the length is no negative int32.
pub read_packet3-read_packet :
    (e : GoError) (bs : List ℕ) {v : ℕ} {rest : List ℕ}
    → decode e bs ≡ ok (v, rest)
    → v < 2 ^ 31
    → read_packet3 e bs ≡ read_packet e bs
unfolding read_packet3 read_packet read_var_int decode read_var_int_byte_reader
read_packet3-read_packet e bs h l = rw h (ground arith)

-- A connection that ends inside a frame gives the wrapped error, whatever its own error is: also
-- where a deadline passed.
pub read_packet_cut :
    (k : ℕ) (s : List ℕ) (e : GoError)
    → 0 < k
    → k < 2 ^ 31
    → length s < k
    → read_packet e (encode k ++ s) ≡ err read_content_failed
unfolding read_packet read_full
read_packet_cut k s e h l short = rw (read_var_int-encode k e s (omega arith)) (ground arith)
