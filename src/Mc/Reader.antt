-- ===== src/Mc/Reader.antt =====
-- mc.DecodeReader: a source of bytes. A decoder gets the error that the source gives once its bytes
-- are used up (io.EOF of a bytes.Reader; a closed connection's or a deadline's error) and the bytes
-- that are left, and hands on the bytes that it did not take.
use ipojknm.Prelude.{ℕ, List, [], ◌∷◌}
use ipojknm.Errors.{GoError, Outcome, ok, err, continue}

abbrev pub Decoder {ℓ} : Type ℓ → Type ℓ
Decoder A = GoError → List ℕ → Outcome (A × List ℕ)

module _ {ℓ} {A : Type ℓ} where
  abbrev pub pure : A → Decoder A
  pure a e bs = ok (a, bs)

  abbrev pub raise : GoError → Decoder A
  raise x e bs = err x

  -- A computation that reads nothing.
  abbrev pub lift : Outcome A → Decoder A
  lift m e bs = continue m (λ a. ok (a, bs))

infixl 5 ◌>>=◌
abbrev pub ◌>>=◌ {ℓ κ} : {A : Type ℓ} {B : Type κ} → Decoder A → (A → Decoder B) → Decoder B
◌>>=◌ m f e bs = continue (m e bs) (λ p. f p.0 e p.1)

-- r.ReadByte()
unfoldable pub read_byte : Decoder ℕ
read_byte e [] = err e
read_byte e (b ∷ bs) = ok (b, bs)
