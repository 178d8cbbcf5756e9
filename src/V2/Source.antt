-- ===== src/V2/Source.antt =====
-- An io.Reader: the bytes of the segment at hand, and the segments that later calls of Read give. A
-- bytes.Reader has one segment. An int is held as its 64-bit pattern.
use ipojknm.Prelude.{ℕ, zero, suc, ◌-◌, List, [], ◌∷◌, ◌++◌, length, take, drop}
use ipojknm.Errors.{GoError, Outcome, ok, err, continue}

abbrev pub Source : Type 0
Source = List ℕ × List (List ℕ)

-- src/type.go: ReadByte. The error of binary.Read is dropped, so behind the end it gives 0.
unfoldable pub next_byte : List ℕ → List (List ℕ) → ℕ × Source
next_byte (b ∷ bs) ss = (b, (bs, ss))
next_byte [] [] = (0, ([], []))
next_byte [] (s ∷ ss) = next_byte s ss

unfoldable pub read_byte : Source → ℕ × Source
unfolding next_byte
read_byte (s, ss) = next_byte s ss

-- `make([]byte, n)` filled by what was read.
unfoldable pub zeros : ℕ → List ℕ
zeros zero = []
zeros (suc n) = 0 ∷ zeros n

unfoldable pub fill : ℕ → List ℕ → List ℕ
unfolding zeros
fill n bs = take n bs ++ zeros (n - length bs)

-- One call of Read for n bytes takes no more than the segment at hand holds. `e` is the error behind
-- the last segment.
unfoldable pub one_read : ℕ → GoError → List ℕ → List (List ℕ) → Outcome (List ℕ × Source)
unfolding fill
one_read n e (b ∷ bs) ss = ok (fill n (b ∷ bs), (drop n (b ∷ bs), ss))
one_read n e [] [] = err e
one_read n e [] (s ∷ ss) = one_read n e s ss

-- `bb := make([]byte, n); _, err := r.Read(bb)`
unfoldable pub read_into : ℕ → GoError → Source → Outcome (List ℕ × Source)
unfolding one_read
read_into n e (s, ss) = one_read n e s ss

-- binary.Read of n bytes: io.ReadFull, which goes on over the segments.
unfoldable pub gather : ℕ → GoError → List ℕ → List (List ℕ) → Outcome (List ℕ × Source)
gather zero e s ss = ok ([], (s, ss))
gather (suc n) e (b ∷ bs) ss = continue (gather n e bs ss) (λ p. ok (b ∷ p.0, p.1))
gather (suc n) e [] (s ∷ ss) = gather (suc n) e s ss
gather (suc n) e [] [] = err e

unfoldable pub read_exactly : ℕ → GoError → Source → Outcome (List ℕ × Source)
unfolding gather
read_exactly n e (s, ss) = gather n e s ss
