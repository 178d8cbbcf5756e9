-- ===== src/Mc/VarInt/Bounds.antt =====
-- `decode` on any bytes, and the loop over a slice against it.
use ipojknm.Prelude.{ℕ, ◌+◌, ◌-◌, ◌≤◌, ◌<◌, ◌≡◌, refl, ◌∙◌, List, [], ◌∷◌, ◌++◌, arith, length, All}
use ipojknm.Prelude.Bits.{bit_and_top, bit_or-lt}
use ipojknm.Errors.{GoError, eof, Outcome, ok, err, fault, var_int_size}
use ipojknm.Mc.VarInt.{
  IsU32, int_of_int32, decode_loop, decode, add_group, size_loop, read_packet_size_bytes,
}

add_group-IsU32 : (n sec i : ℕ) → IsU32 n → IsU32 (add_group n sec i)
add_group-IsU32 n sec i h = bit_or-lt 32 n _ h (omega arith)

decode_loop_takes :
    (bs : List ℕ) (i n : ℕ) (e : GoError) (v : ℕ) (rest : List ℕ)
    → i ≤ 5
    → IsU32 n
    → decode_loop i n e bs ≡ ok (v, rest)
    → IsU32 v × (length rest < length bs) × (length bs + i ≤ length rest + 5)
unfolding decode_loop
decode_loop_takes [] i n e v rest hi hn h = cc
decode_loop_takes (sec ∷ bs) i n e v rest hi hn h =
    ground
      (arith, add_group-IsU32 n sec i hn, decode_loop_takes bs (i + 1) (add_group n sec i) e v rest)

-- A successful decode takes one to five bytes and gives a 32-bit pattern.
pub decode_takes :
    (bs : List ℕ) (e : GoError) (v : ℕ) (rest : List ℕ)
    → decode e bs ≡ ok (v, rest)
    → IsU32 v × (length rest < length bs) × (length bs ≤ length rest + 5)
unfolding decode
decode_takes bs e v rest h = ground (arith, decode_loop_takes bs 0 0 e v rest)

-- A byte with the top bit set is not the last one.
goes_on :
    (sec i n : ℕ) (e : GoError) (bs : List ℕ)
    → 128 ≤ sec
    → sec < 256
    → i ≤ 4
    → decode_loop i n e (sec ∷ bs) ≡ decode_loop (i + 1) (add_group n sec i) e bs
unfolding decode_loop
goes_on sec i n e bs h b hi = ground (arith, bit_and_top sec)

abbrev pub IsMore : ℕ → Type 0
IsMore b = (128 ≤ b) × (b < 256)

abbrev pub refusal : GoError → List ℕ → Outcome (ℕ × List ℕ)
refusal e [] = err e
refusal e (b ∷ bs) = err var_int_size

too_long :
    (b : List ℕ) (i n : ℕ) (e : GoError) (rest : List ℕ)
    → All IsMore b
    → length b + i ≡ 5
    → decode_loop i n e (b ++ rest) ≡ refusal e rest
unfolding decode_loop
too_long [] i n e [] h l = refl
too_long [] i n e (x ∷ rest) h l = ground arith
too_long (b ∷ bs) i n e rest h l =
    goes_on b i n e (bs ++ rest) h.0.0 h.0.1 (omega arith)
    ∙ too_long bs (i + 1) (add_group n b i) e rest h.1 (omega arith)

-- After five bytes with the top bit set `decode` reads one byte more, and then refuses whatever
-- that byte is; where there is none the reader's own error comes first.
pub decode_too_long :
    (b : List ℕ) (e : GoError) (rest : List ℕ)
    → All IsMore b
    → length b ≡ 5
    → decode e (b ++ rest) ≡ refusal e rest
unfolding decode
decode_too_long b e rest h l = too_long b 0 0 e rest h (omega arith)

-- What the loop over a slice should return, told by `decode` from a reader of the same bytes.
abbrev pub sized : (total : ℕ) → Outcome (ℕ × List ℕ) → Outcome (ℕ × ℕ)
sized total (ok (v, rest)) = ok (int_of_int32 v, total - length rest - 1)
sized total (err var_int_size) = err var_int_size
sized total (err _) = fault
sized total fault = fault

size_loop-decode_loop :
    (bs : List ℕ) (i n total : ℕ)
    → length bs + i ≡ total
    → size_loop i n bs ≡ sized total (decode_loop i n eof bs)
unfolding size_loop decode_loop
size_loop-decode_loop [] i n total h = refl
size_loop-decode_loop (sec ∷ bs) i n total h =
    ground (arith, size_loop-decode_loop bs (i + 1) (add_group n sec i) total (omega arith))

-- ReadPacketSize_Bytes agrees with `decode`, with the index of the number's last byte, and panics
-- exactly where `decode` meets the end of the input.
pub read_packet_size_bytes-decode :
    (bs : List ℕ) → read_packet_size_bytes bs ≡ sized (length bs) (decode eof bs)
unfolding read_packet_size_bytes decode
read_packet_size_bytes-decode bs = size_loop-decode_loop bs 0 0 (length bs) (omega arith)
