-- ===== src/Mc/Field/RoundTrip.antt =====
-- Strings, and the three ways to read a field against one another.
use ipojknm.Prelude.{
  ◌≢◌, ℕ, zero, suc, ◌^◌, ◌≤◌, ◌<◌, ◌≡◌, refl, ◌∙◌, List, [], ◌∷◌, ◌++◌, length, arith,
}
use mathlib.Core.List.{append_assoc}
use ipojknm.Prelude.Text.{GoString}
use ipojknm.Errors.{GoError, ok, fault}
use ipojknm.Mc.VarInt.{IsU32, to_u32, int_of_int32, encode}
use ipojknm.Mc.VarInt.RoundTrip.{decode-encode, read_var_int_byte_reader-encode}
use ipojknm.Mc.Field.{
  read_loop, read_n_bytes, encode_string, decode_string, read_string_byte_reader,
}

read_loop-append :
    (s : List ℕ) (e : GoError) (rest : List ℕ) → read_loop (length s) e (s ++ rest) ≡ ok (s, rest)
unfolding read_loop
read_loop-append [] e rest = refl
read_loop-append (b ∷ s) e rest = ground (arith, read_loop-append s e rest)

pub read_n_bytes-append :
    (s : List ℕ) (e : GoError) (rest : List ℕ)
    → length s < 2 ^ 63
    → read_n_bytes (length s) e (s ++ rest) ≡ ok (s, rest)
unfolding read_n_bytes
read_n_bytes-append s e rest h = ground (arith, read_loop-append s e rest)

int_of_small : (n : ℕ) → n < 2 ^ 31 → int_of_int32 n ≡ n
unfolding int_of_int32
int_of_small n h = ground arith

-- A string shorter than 2 GiB is read back, and the bytes that follow it are left.
pub decode_string-encode_string :
    (s : GoString) (e : GoError) (rest : List ℕ)
    → length s < 2 ^ 31
    → decode_string e (encode_string s ++ rest) ≡ ok (s, rest)
unfolding decode_string encode_string
decode_string-encode_string s e rest h =
    rw (append_assoc, decode-encode (to_u32 (length s)) e (s ++ rest) (omega arith), same)
      (read_n_bytes-append s e rest (omega arith))
  where
    same : int_of_int32 (to_u32 (length s)) ≡ length s
    same = int_of_small _ (omega arith) ∙ omega arith

-- ReadString_ByteReader reads the same strings back.
pub read_string_byte_reader-encode_string :
    (s : GoString) (e : GoError) (rest : List ℕ)
    → length s < 2 ^ 31
    → read_string_byte_reader e (encode_string s ++ rest) ≡ ok (s, rest)
unfolding read_string_byte_reader encode_string
read_string_byte_reader-encode_string s e rest h =
    rw
      (
        append_assoc,
        read_var_int_byte_reader-encode (to_u32 (length s)) e (s ++ rest) (omega arith),
        same,
      )
      (read_n_bytes-append s e rest (omega arith))
  where
    same : to_u32 (length s) ≡ length s
    same = omega arith

-- A string whose length has the sign bit set panics: `make` is asked for a negative length.
pub decode_string_negative :
    (l : ℕ) (e : GoError) (rest : List ℕ)
    → 2 ^ 31 ≤ l
    → IsU32 l
    → decode_string e (encode l ++ rest) ≡ fault
unfolding decode_string int_of_int32 read_n_bytes
decode_string_negative l e rest h u = rw (decode-encode l e rest u) (ground arith)

read_loop-ne-fault : (n : ℕ) (e : GoError) (bs : List ℕ) → read_loop n e bs ≢ fault
unfolding read_loop
read_loop-ne-fault zero e bs h = cc
read_loop-ne-fault (suc n) e [] h = cc
read_loop-ne-fault (suc n) e (b ∷ bs) h = ground (arith, read_loop-ne-fault n e bs)

pub read_n_bytes-ne-fault :
    (n : ℕ) (e : GoError) (bs : List ℕ) → n < 2 ^ 63 → read_n_bytes n e bs ≢ fault
unfolding read_n_bytes
read_n_bytes-ne-fault n e bs h f = ground (arith, read_loop-ne-fault n e bs)
