-- ===== src/Mc/Field/Shorts.antt =====
-- The numbers of fixed width: what was written is read back.
use ipojknm.Prelude.{
  ℕ, ◌+◌, ◌*◌, ◌/◌, ◌%◌, ◌^◌, ◌<◌, ◌≡◌, refl, ap, ◌∙◌, bit_or, List, [], ◌∷◌, ◌++◌, arith,
}
use native.Mathlib.Nat.{one-le-pow}
use ipojknm.Prelude.Bits.{bit_or_below}
use ipojknm.Errors.{GoError, ok}
use ipojknm.Mc.Field.{
  encode_short, short_of, decode_short, read_n_bytes, encode_long, long_of, decode_long,
}

short_of-bytes : (hi lo : ℕ) → hi < 256 → lo < 256 → bit_or (hi * 2 ^ 8 % 2 ^ 16) lo ≡ hi * 256 + lo
short_of-bytes hi lo h l = rw (fits) (bit_or_below 8 hi lo l)
  where
    fits : hi * 2 ^ 8 % 2 ^ 16 ≡ hi * 2 ^ 8
    fits = omega arith

pub short_of-encode_short : (n : ℕ) → n < 2 ^ 16 → short_of (encode_short n) ≡ ok n
unfolding short_of encode_short
short_of-encode_short n h =
    ap (λ (t : ℕ). ok t)
      (short_of-bytes (n / 2 ^ 8 % 2 ^ 8) (n % 2 ^ 8) (omega arith) (omega arith) ∙ omega arith)

-- A uint16 (or the pattern of an int16) is read back, and the bytes that follow it are left.
pub decode_short-encode_short :
    (n : ℕ) (e : GoError) (rest : List ℕ)
    → n < 2 ^ 16
    → decode_short e (encode_short n ++ rest) ≡ ok (n, rest)
unfolding decode_short encode_short read_n_bytes
decode_short-encode_short n e rest h = rw (short_of-encode_short n h) refl

scaled : (b p : ℕ) → b < 256 → 0 < p → b * p < 256 * p
scaled b p h k = grind arith

-- One more byte below what is there already: `a << k | b << j`, where k is j + 8.
or_byte :
    (k j a b : ℕ)
    → 2 ^ k ≡ 256 * 2 ^ j
    → b < 256
    → b * 2 ^ j < 2 ^ 64
    → bit_or (a * 2 ^ k) (b * 2 ^ j % 2 ^ 64) ≡ (a * 256 + b) * 2 ^ j
or_byte k j a b p hb fits =
    rw small (omega (arith, bit_or_below k a (b * 2 ^ j) below, ap (λ (t : ℕ). a * t) p))
  where
    small : b * 2 ^ j % 2 ^ 64 ≡ b * 2 ^ j
    small = omega arith

    below : b * 2 ^ j < 2 ^ k
    below = omega (arith, scaled b (2 ^ j) hb (one-le-pow j 2 (omega arith)))

abbrev byte_at : ℕ → ℕ → ℕ
byte_at n k = n / 2 ^ k % 2 ^ 8

bytes_sum :
    (b0 b1 b2 b3 b4 b5 b6 b7 : ℕ)
    → b0 < 256
    → b1 < 256
    → b2 < 256
    → b3 < 256
    → b4 < 256
    → b5 < 256
    → b6 < 256
    → b7 < 256
    → long_of (b0 ∷ b1 ∷ b2 ∷ b3 ∷ b4 ∷ b5 ∷ b6 ∷ b7 ∷ [])
      ≡ ok (
          ((((((b0 * 256 + b1) * 256 + b2) * 256 + b3) * 256 + b4) * 256 + b5) * 256 + b6) * 256
          + b7)
unfolding long_of
bytes_sum b0 b1 b2 b3 b4 b5 b6 b7 h0 h1 h2 h3 h4 h5 h6 h7 =
    rw
      (
        top,
        or_byte 56 48 b0 b1 refl h1 (omega arith),
        or_byte 48 40 (b0 * 256 + b1) b2 refl h2 (omega arith),
        or_byte 40 32 ((b0 * 256 + b1) * 256 + b2) b3 refl h3 (omega arith),
        or_byte 32 24 (((b0 * 256 + b1) * 256 + b2) * 256 + b3) b4 refl h4 (omega arith),
        or_byte 24 16 ((((b0 * 256 + b1) * 256 + b2) * 256 + b3) * 256 + b4) b5 refl h5
            (omega arith),
        or_byte 16 8 (((((b0 * 256 + b1) * 256 + b2) * 256 + b3) * 256 + b4) * 256 + b5) b6 refl h6
            (omega arith),
        bit_or_below 8
            ((((((b0 * 256 + b1) * 256 + b2) * 256 + b3) * 256 + b4) * 256 + b5) * 256 + b6) b7 h7,
      )
      refl
  where
    top : b0 * 2 ^ 56 % 2 ^ 64 ≡ b0 * 2 ^ 56
    top = omega arith

digits_of :
    (n : ℕ)
    → n < 2 ^ 64
    → ((((((byte_at n 56 * 256 + byte_at n 48) * 256 + byte_at n 40) * 256 + byte_at n 32) * 256
                    + byte_at n 24)
                  * 256
                + byte_at n 16)
              * 256
            + byte_at n 8)
          * 256
        + n % 2 ^ 8
      ≡ n
digits_of n h = omega arith

pub long_of-encode_long : (n : ℕ) → n < 2 ^ 64 → long_of (encode_long n) ≡ ok n
unfolding encode_long
long_of-encode_long n h =
    bytes_sum (byte_at n 56) (byte_at n 48) (byte_at n 40) (byte_at n 32) (byte_at n 24)
      (byte_at n 16) (byte_at n 8) (n % 2 ^ 8) (small 56) (small 48) (small 40) (small 32)
      (small 24) (small 16) (small 8) (omega arith)
    ∙ ap (λ (t : ℕ). ok t) (digits_of n h)
  where
    small : (k : ℕ) → byte_at n k < 256
    small k = omega arith

-- An int64, as its 64-bit pattern, is read back, and the bytes that follow it are left.
pub decode_long-encode_long :
    (n : ℕ) (e : GoError) (rest : List ℕ)
    → n < 2 ^ 64
    → decode_long e (encode_long n ++ rest) ≡ ok (n, rest)
unfolding decode_long encode_long read_n_bytes
decode_long-encode_long n e rest h = rw (long_of-encode_long n h) refl
