-- ===== src/Mc/Field/Ranges.antt =====
-- mc/type.go: what the decoders give where they read from bytes.
use mathlib.Core.Path.{subst}
use ipojknm.Prelude.{
  ℕ, zero, suc, ◌+◌, ◌*◌, ◌%◌, ◌^◌, ◌<◌, ◌≡◌, refl, List, [], ◌∷◌, arith, All, length, false,
  Bool-cases, inl, inr,
}
use ipojknm.Prelude.Bits.{bit_or-lt}
use ipojknm.Prelude.Text.{GoString}
use ipojknm.Errors.{GoError, Outcome, ok, err, fault, continue, ok_inj}
use ipojknm.Mc.Reader.{Decoder, ◌>>=◌, pure, lift}
use ipojknm.Mc.VarInt.{IsByte, IsU32, is_negative, int_of_int32, decode, decode_loop, add_group}
use ipojknm.Mc.VarInt.Bounds.{decode_takes}
use ipojknm.Mc.Field.{read_loop, read_n_bytes, decode_string, decode_short, short_of}

-- Where a decoder reads from bytes, what it gives is as said, and it leaves bytes.
abbrev pub Gives : {A : Type 0} → (A → Type 0) → Decoder A → Type 0
Gives {A} P m =
    (e : GoError) (bs : List ℕ) (a : A) (rest : List ℕ)
    → All IsByte bs
    → m e bs ≡ ok (a, rest)
    → P a × All IsByte rest

-- The second decoder runs on what the first one leaves.
pub bind-Gives :
    {A B : Type 0} (P : A → Type 0) (Q : B → Type 0) (m : Decoder A) (f : A → Decoder B)
    → Gives P m
    → ((a : A) → P a → Gives Q (f a))
    → Gives Q (m >>= f)
bind-Gives {A} {B} P Q m f g h e bs b rest all given = by_first (m e bs) refl given
  where
    by_first :
        (r : Outcome (A × List ℕ))
        → m e bs ≡ r
        → continue r (λ p. f p.0 e p.1) ≡ ok (b, rest)
        → Q b × All IsByte rest
    by_first (ok (a, left)) first second =
        let s = g e bs a left all first in h a s.0 e left b rest s.1 second
    by_first (err x) first second = cc
    by_first fault first second = cc

decode_loop-rest :
    (bs : List ℕ) (i n : ℕ) (e : GoError) (v : ℕ) (rest : List ℕ)
    → All IsByte bs
    → decode_loop i n e bs ≡ ok (v, rest)
    → All IsByte rest
unfolding decode_loop
decode_loop-rest [] i n e v rest all h = cc
decode_loop-rest (b ∷ bs) i n e v rest all h =
    ground (arith, decode_loop-rest bs (i + 1) (add_group n b i) e v rest)

pub decode-Gives : Gives IsU32 decode
unfolding decode
decode-Gives e bs v rest all h =
    ((decode_takes bs e v rest h).0, decode_loop-rest bs 0 0 e v rest all h)

pub pure-Gives : {A : Type 0} (P : A → Type 0) (a : A) → P a → Gives P (pure a)
pure-Gives P a holds e bs b rest all h = subst (λ p. P p.0 × All IsByte p.1) (ok_inj h) (holds, all)

-- A slice of n bytes.
abbrev pub Bytes : ℕ → List ℕ → Type 0
Bytes n bb = All IsByte bb × (length bb ≡ n)

read_loop-Gives : (n : ℕ) → Gives (Bytes n) (read_loop n)
unfolding read_loop
read_loop-Gives zero e bs a rest all h = pure-Gives (Bytes 0) [] (tt, refl) e bs a rest all h
read_loop-Gives (suc n) e [] a rest all h = cc
read_loop-Gives (suc n) e (b ∷ bs) a rest all h =
    bind-Gives (Bytes n) (Bytes (suc n)) (read_loop n) (λ more. pure (b ∷ more)) (read_loop-Gives n)
      (λ more m. pure-Gives (Bytes (suc n)) (b ∷ more) ((all.0, m.0), (omega (arith, m.1)))) e bs a
      rest all.1 h

pub read_n_bytes-Gives :
    (n : ℕ) → Gives (λ bb. Bytes n bb × (is_negative n ≡ false)) (read_n_bytes n)
unfolding read_n_bytes
read_n_bytes-Gives n e bs a rest all h = elim (Bool-cases (is_negative n)) [
  | inl negative ↦ cc (rw negative at h)
  | inr fine ↦ let s = read_loop-Gives n e bs a rest all (rw fine at h) in ((s.0, fine), s.1)
]

-- A string that a VarInt gives the length of.
abbrev pub IsString : GoString → Type 0
IsString s = All IsByte s × (length s < 2 ^ 31)

short_length :
    (l n : ℕ) → IsU32 l → n ≡ int_of_int32 l → is_negative (int_of_int32 l) ≡ false → n < 2 ^ 31
unfolding int_of_int32
short_length l n h e fine = ground (arith, e, fine)

pub decode_string-Gives : Gives IsString decode_string
unfolding decode_string
decode_string-Gives =
    bind-Gives IsU32 IsString decode (λ l. read_n_bytes (int_of_int32 l)) decode-Gives
      (λ l h e bs a rest all given.
        let s = read_n_bytes-Gives (int_of_int32 l) e bs a rest all given in
        ((s.0.0.0, short_length l (length a) h s.0.0.1 s.0.1), s.1))

abbrev pub IsU16 : ℕ → Type 0
IsU16 n = n < 2 ^ 16

short_of-IsU16 : (bb : List ℕ) (n : ℕ) → All IsByte bb → short_of bb ≡ ok n → IsU16 n
unfolding short_of
short_of-IsU16 [] n all h = cc
short_of-IsU16 (b ∷ []) n all h = cc
short_of-IsU16 (b0 ∷ (b1 ∷ bb)) n all h =
    subst IsU16 (ok_inj h)
      (bit_or-lt 16 (b0 * 2 ^ 8 % 2 ^ 16) b1 (omega arith) (omega (arith, all.1.0)))

pub lift-Gives :
    {A : Type 0} (P : A → Type 0) (r : Outcome A) → ((a : A) → r ≡ ok a → P a) → Gives P (lift r)
lift-Gives P (ok a) holds e bs b rest all h = pure-Gives P a (holds a refl) e bs b rest all h
lift-Gives P (err x) holds e bs b rest all h = cc
lift-Gives P fault holds e bs b rest all h = cc

pub decode_short-Gives : Gives IsU16 decode_short
unfolding decode_short
decode_short-Gives =
    bind-Gives (λ bb. Bytes 2 bb × (is_negative 2 ≡ false)) IsU16 (read_n_bytes 2)
      (λ bb. lift (short_of bb)) (read_n_bytes-Gives 2)
      (λ bb all. lift-Gives IsU16 (short_of bb) (λ n. short_of-IsU16 bb n all.0.0))
