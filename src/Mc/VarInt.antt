-- ===== src/Mc/VarInt.antt =====
-- mc/type.go: VarInt. A VarInt (int32) is held as its bit pattern, a number below 2 ^ 32.
pub mod Groups
pub mod RoundTrip
pub mod Bounds
use mathlib.Core.Logic.{dite}
use mathlib.Core.WellFounded.{Acc}
use ipojknm.Prelude.{
  Bool, ℕ, zero, suc, ◌+◌, ◌-◌, ◌*◌, ◌/◌, ◌%◌, ◌^◌, ◌<◌, bit_and, bit_or, List, [], ◌∷◌, Option,
  none, some, ltb, leb, ◌==◌, if◌then◌else◌, dec_lt, arith, get_elem?,
}
use ipojknm.Prelude.WellFounded.{lt_wf}
use ipojknm.Errors.{GoError, var_int_size, Outcome, ok, err, fault}
use ipojknm.Mc.Reader.{Decoder}

abbrev pub IsByte : ℕ → Type 0
IsByte b = b < 256

abbrev pub IsU32 : ℕ → Type 0
IsU32 n = n < 2 ^ 32

-- `int32(x)` and `uint32(x)` of a wider number keep its low 32 bits.
abbrev pub to_u32 : ℕ → ℕ
to_u32 x = x % 2 ^ 32

-- `int(v)` of an int32: the sign bit fills the upper half of the 64-bit pattern.
unfoldable pub int_of_int32 : ℕ → ℕ
int_of_int32 p = if ltb p (2 ^ 31) then p else p + (2 ^ 64 - 2 ^ 32)

-- A 64-bit pattern that stands for a negative int.
abbrev pub is_negative : ℕ → Bool
is_negative n = leb (2 ^ 63) n

-- The loop of `Encode`: it ends when no bit is left to write.
encode_loop : (num : ℕ) → Acc ◌<◌ num → List ℕ
encode_loop num (Acc.intro _ smaller) =
    let b = bit_and num 0x7f in
    dite (dec_lt 0 (num / 2 ^ 7))
      (λ more. bit_or b 0x80 ∷ encode_loop (num / 2 ^ 7) (smaller (num / 2 ^ 7) (omega arith)))
      (λ _. b ∷ [])

-- VarInt.Encode
unfoldable pub encode : ℕ → List ℕ
unfolding encode_loop lt_wf dec_lt
encode num = encode_loop num (lt_wf.apply num)

-- n |= uint32(sec&0x7F) << uint32(7*i)
abbrev pub add_group : ℕ → ℕ → ℕ → ℕ
add_group n sec i = bit_or n (bit_and sec 0x7f * 2 ^ (7 * i) % 2 ^ 32)

-- The loop of `Decode`: `i` counts the bytes read, `n` holds their bits.
unfoldable pub decode_loop : ℕ → ℕ → Decoder ℕ
decode_loop i n e [] = err e
decode_loop i n e (sec ∷ bs) =
    let n' = add_group n sec i in
    let more = decode_loop (i + 1) n' e bs in
    if leb 5 i then err var_int_size else if bit_and sec 0x80 == 0 then ok (n', bs) else more

-- VarInt.Decode
unfoldable pub decode : Decoder ℕ
unfolding decode_loop
decode = decode_loop 0 0

-- ReadVarInt
unfoldable pub read_var_int : Decoder ℕ
unfolding decode_loop
read_var_int = decode_loop 0 0

-- ReadVarInt_ByteReader returns `int(n)` of the uint32, which is never negative.
unfoldable pub read_var_int_byte_reader : Decoder ℕ
unfolding decode_loop
read_var_int_byte_reader = decode_loop 0 0

-- The loop of ReadPacketSize_Bytes indexes a slice, so it panics where the bytes end. It returns
-- the int32's value as an int, and the index of the last byte read.
size_loop : ℕ → ℕ → List ℕ → Outcome (ℕ × ℕ)
unfolding int_of_int32
size_loop i n [] = fault
size_loop i n (sec ∷ bs) =
    let n' = add_group n sec i in
    let more = size_loop (i + 1) n' bs in
    if leb 5 i
    then err var_int_size
    else if bit_and sec 0x80 == 0
    then ok (int_of_int32 n', i)
    else more

-- ReadPacketSize_Bytes
unfoldable pub read_packet_size_bytes : List ℕ → Outcome (ℕ × ℕ)
unfolding size_loop
read_packet_size_bytes bytes = size_loop 0 0 bytes
