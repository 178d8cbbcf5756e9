-- ===== src/Mc/Field.antt =====
-- mc/type.go: the other fields of a packet. A Byte, an UnsignedShort (or int16) and a Long are held
-- as their bit patterns, a String as its bytes.
pub mod Shorts
pub mod RoundTrip
pub mod Ranges
use ipojknm.Prelude.{
  ℕ, zero, suc, ◌+◌, ◌*◌, ◌/◌, ◌%◌, ◌^◌, bit_or, List, [], ◌∷◌, ◌++◌, length, if◌then◌else◌,
}
use ipojknm.Prelude.Text.{GoString}
use ipojknm.Errors.{GoError, Outcome, ok, err, fault, continue}
use ipojknm.Mc.Reader.{Decoder, pure, lift, ◌>>=◌, read_byte}
use ipojknm.Mc.VarInt.{
  to_u32, int_of_int32, is_negative, encode, decode, read_var_int, read_var_int_byte_reader,
}

-- The loop of ReadNBytes: one ReadByte for each element of the slice.
unfoldable pub read_loop : ℕ → Decoder (List ℕ)
read_loop zero e bs = ok ([], bs)
read_loop (suc n) e [] = err e
read_loop (suc n) e (b ∷ bs) = continue (read_loop n e bs) (λ p. ok (b ∷ p.0, p.1))

-- ReadNBytes: `make([]byte, n)` panics at a negative n.
unfoldable pub read_n_bytes : ℕ → Decoder (List ℕ)
unfolding read_loop
read_n_bytes n e bs = if is_negative n then fault else read_loop n e bs

-- String.Encode. The length is converted to an int32.
unfoldable pub encode_string : GoString → List ℕ
encode_string s = encode (to_u32 (length s)) ++ s

-- String.Decode
unfoldable pub decode_string : Decoder GoString
decode_string = do l ← decode; read_n_bytes (int_of_int32 l)

-- ReadString
unfoldable pub read_string : Decoder GoString
read_string = do l ← read_var_int; read_n_bytes (int_of_int32 l)

-- ReadNBytes_ByteReader, which is ReadNBytes over an io.ByteReader
abbrev pub read_n_bytes_byte_reader : ℕ → Decoder (List ℕ)
read_n_bytes_byte_reader n = read_n_bytes n

-- ReadString_ByteReader: here the length is the uint32 itself, which is never negative.
unfoldable pub read_string_byte_reader : Decoder GoString
read_string_byte_reader = do length' ← read_var_int_byte_reader; read_n_bytes_byte_reader length'

-- Byte.Encode, Byte.Decode
unfoldable pub encode_byte : ℕ → List ℕ
encode_byte b = (b % 2 ^ 8) ∷ []

unfoldable pub decode_byte : Decoder ℕ
decode_byte = read_byte

-- ReadByte, which keeps the bits of the byte
unfoldable pub read_byte_field : Decoder ℕ
read_byte_field = do v ← read_byte; pure v

-- UnsignedShort.Encode
unfoldable pub encode_short : ℕ → List ℕ
encode_short n = (n / 2 ^ 8 % 2 ^ 8) ∷ (n % 2 ^ 8) ∷ []

-- int16(bb[0])<<8 | int16(bb[1])
unfoldable pub short_of : List ℕ → Outcome ℕ
short_of (b0 ∷ b1 ∷ bb) = ok (bit_or (b0 * 2 ^ 8 % 2 ^ 16) b1)
short_of _ = fault

-- UnsignedShort.Decode
unfoldable pub decode_short : Decoder ℕ
decode_short = do bb ← read_n_bytes 2; lift (short_of bb)

-- ReadUnsignedShort
unfoldable pub read_unsigned_short : Decoder ℕ
read_unsigned_short = do bb ← read_n_bytes 2; lift (short_of bb)

-- ReadShot_ByteReader
unfoldable pub read_short_byte_reader : Decoder ℕ
read_short_byte_reader = do bb ← read_n_bytes_byte_reader 2; lift (short_of bb)

-- Long.Encode
unfoldable pub encode_long : ℕ → List ℕ
encode_long n =
    (n / 2 ^ 56 % 2 ^ 8)
    ∷ (n / 2 ^ 48 % 2 ^ 8)
    ∷ (n / 2 ^ 40 % 2 ^ 8)
    ∷ (n / 2 ^ 32 % 2 ^ 8)
    ∷ (n / 2 ^ 24 % 2 ^ 8)
    ∷ (n / 2 ^ 16 % 2 ^ 8)
    ∷ (n / 2 ^ 8 % 2 ^ 8)
    ∷ (n % 2 ^ 8)
    ∷ []

-- int64(bb[0])<<56 | … | int64(bb[7])
abbrev pub shl64 : ℕ → ℕ → ℕ
shl64 b k = b * 2 ^ k % 2 ^ 64

unfoldable pub long_of : List ℕ → Outcome ℕ
long_of (b0 ∷ b1 ∷ b2 ∷ b3 ∷ b4 ∷ b5 ∷ b6 ∷ b7 ∷ bb) = ok (
    bit_or
      (bit_or
        (bit_or
          (bit_or (bit_or (bit_or (bit_or (shl64 b0 56) (shl64 b1 48)) (shl64 b2 40)) (shl64 b3 32))
            (shl64 b4 24))
          (shl64 b5 16))
        (shl64 b6 8))
      b7)
long_of _ = fault

-- Long.Decode
unfoldable pub decode_long : Decoder ℕ
decode_long = do bb ← read_n_bytes 8; lift (long_of bb)
