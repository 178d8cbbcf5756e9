-- ===== src/V2/Raknet/RoundTrip.antt =====
-- The packets of RakNet, written and read back.
use mathlib.Core.List.{append-nil}
use ipojknm.Prelude.{
  ℕ, ◌^◌, ◌<◌, ◌≤◌, none, ◌≡◌, refl, sym, ◌∙◌, ap, List, [], ◌∷◌, ◌++◌, length, length-append, drop,
  take-append_self, drop-append_self, take_all, arith,
}
use ipojknm.Prelude.Text.{GoString}
use ipojknm.Errors.{ok, fault}
use ipojknm.Mc.Field.{encode_long, encode_short}
use ipojknm.Mc.Field.Shorts.{long_of-encode_long, short_of-encode_short}
use ipojknm.V2.Raknet.{
  UnconnectedPing, UnconnectedPong, unconnected_message_sequence, read_full, long_or, short_or,
  bytes_or, error_of, write_ping, read_ping, write_pong, read_some, read_data, read_pong,
}

read_full-append : (bb rest : List ℕ) → read_full (length bb) (bb ++ rest) ≡ (ok bb, rest)
unfolding read_full
read_full-append bb rest =
    ground (arith, length-append bb rest, take-append_self bb rest, drop-append_self bb rest)

read_full_exact : (bb : List ℕ) → read_full (length bb) bb ≡ (ok bb, [])
read_full_exact bb = ap (read_full (length bb)) (sym (append-nil bb)) ∙ read_full-append bb []

eight : (n : ℕ) → length (encode_long n) ≡ 8
unfolding encode_long
eight n = refl

read_long :
    (n : ℕ) (rest : List ℕ) → read_full 8 (encode_long n ++ rest) ≡ (ok (encode_long n), rest)
read_long n rest = rw (← eight n) (read_full-append (encode_long n) rest)

read_last_long : (n : ℕ) → read_full 8 (encode_long n) ≡ (ok (encode_long n), [])
read_last_long n =
    ap (λ (k : ℕ). read_full k (encode_long n)) (sym (eight n)) ∙ read_full_exact (encode_long n)

read_two :
    (n : ℕ) (rest : List ℕ) → read_full 2 (encode_short n ++ rest) ≡ (ok (encode_short n), rest)
read_two n rest = rw (← two n) (read_full-append (encode_short n) rest)
  where
    two : (n : ℕ) → length (encode_short n) ≡ 2
    two n = unfold encode_short in refl

long_or-encode_long : (old n : ℕ) → n < 2 ^ 64 → long_or old (ok (encode_long n)) ≡ n
unfolding long_or
long_or-encode_long old n h = rw (long_of-encode_long n h, long_or) refl

short_or-encode_short : (old n : ℕ) → n < 2 ^ 16 → short_or old (ok (encode_short n)) ≡ n
unfolding short_or
short_or-encode_short old n h = rw (short_of-encode_short n h, short_or) refl

-- A ping that was written is read back, whatever the packet held before, with the fixed bytes as its
-- magic.
pub read_ping-write_ping :
    (old pk : UnconnectedPing)
    → pk.send_timestamp < 2 ^ 64
    → pk.client_guid < 2 ^ 64
    → read_ping old (drop 1 (write_ping pk))
      ≡ (record pk { magic = unconnected_message_sequence }, none)
unfolding read_ping write_ping bytes_or error_of
read_ping-write_ping old pk ht hg =
    rw
      (
        read_long pk.send_timestamp (unconnected_message_sequence ++ encode_long pk.client_guid),
        read_full-append unconnected_message_sequence (encode_long pk.client_guid),
        read_last_long pk.client_guid,
        long_or-encode_long old.send_timestamp pk.send_timestamp ht,
        long_or-encode_long old.client_guid pk.client_guid hg,
      )
      refl

read_some_all : (s : GoString) → read_some (length s) s ≡ (s, none)
unfolding read_some
read_some_all [] = refl
read_some_all (b ∷ bs) =
    ap (λ (t : List ℕ). (t, none)) (take_all (length (b ∷ bs)) (b ∷ bs) (omega arith))

read_header :
    (old pk : UnconnectedPong)
    → pk.send_timestamp < 2 ^ 64
    → pk.server_guid < 2 ^ 64
    → length pk.text < 2 ^ 16
    → read_pong old (drop 1 (write_pong pk))
      ≡ read_data
          (record pk { magic = unconnected_message_sequence; text = old.text })
          (length pk.text)
          pk.text
unfolding read_pong write_pong bytes_or
read_header old pk ht hg hl =
    let len : List ℕ = encode_short (length pk.text) in
    rw
      (
        read_long pk.send_timestamp
            (encode_long pk.server_guid ++ (unconnected_message_sequence ++ (len ++ pk.text))),
        read_long pk.server_guid (unconnected_message_sequence ++ (len ++ pk.text)),
        read_full-append unconnected_message_sequence (len ++ pk.text),
        read_two (length pk.text) pk.text,
        long_or-encode_long old.send_timestamp pk.send_timestamp ht,
        long_or-encode_long old.server_guid pk.server_guid hg,
        short_or-encode_short 0 (length pk.text) hl,
      )
      refl

whole_text :
    (pk : UnconnectedPong) (s : GoString)
    → length s < 2 ^ 15
    → read_data pk (length s) s ≡ ok (record pk { text = s }, none)
unfolding read_data
whole_text pk s h = ground (arith, read_some_all s)

negative_text :
    (pk : UnconnectedPong) (s : GoString) → 2 ^ 15 ≤ length s → read_data pk (length s) s ≡ fault
unfolding read_data
negative_text pk s h = ground arith

-- A pong that was written is read back where its text is shorter than 2 ^ 15 bytes.
pub read_pong-write_pong :
    (old pk : UnconnectedPong)
    → pk.send_timestamp < 2 ^ 64
    → pk.server_guid < 2 ^ 64
    → length pk.text < 2 ^ 15
    → read_pong old (drop 1 (write_pong pk))
      ≡ ok (record pk { magic = unconnected_message_sequence }, none)
read_pong-write_pong old pk ht hg hl =
    read_header old pk ht hg (omega arith) ∙ whole_text _ pk.text hl

-- Between 2 ^ 15 and 2 ^ 16 bytes the length that is read is negative, and Read panics.
pub read_pong_long :
    (old pk : UnconnectedPong)
    → pk.send_timestamp < 2 ^ 64
    → pk.server_guid < 2 ^ 64
    → 2 ^ 15 ≤ length pk.text
    → length pk.text < 2 ^ 16
    → read_pong old (drop 1 (write_pong pk)) ≡ fault
read_pong_long old pk ht hg long hl = read_header old pk ht hg hl ∙ negative_text _ pk.text long
