-- ===== src/V2/Writer.antt =====
-- What a call writes to an io.Writer; none where a loop in it does not end.
use ipojknm.Prelude.{Option, none, some}

infixl 5 ◌>>=◌
abbrev pub ◌>>=◌ {ℓ κ} : {A : Type ℓ} {B : Type κ} → Option A → (A → Option B) → Option B
none >>= f = none
some a >>= f = f a
