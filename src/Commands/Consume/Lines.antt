-- ===== src/Commands/Consume/Lines.antt =====
-- The lines that `consumeCmd` of cmd/logship-cli/main.go prints of a partition, and lists of records.
use logship.Prelude.{
  arith, ℕ, zero, suc, ◌+◌, ◌≡◌, ◌≤◌, refl, ap, List, [], ◌∷◌, ◌++◌, length, length-drop, take,
  drop, if◌then◌else◌,
}
use logship.Prelude.Int.{ℤ, eq_ℤ}
use logship.Protocol.{WireRecord}
use logship.Commands.Consume.{Line}

-- The records printed of a partition.
unfoldable pub lines_of : ℤ → List Line → List WireRecord
lines_of p [] = []
lines_of p (l ∷ ls) =
    let rest = lines_of p ls in if eq_ℤ p l.partition then l.printed ∷ rest else rest

pub lines_of-append :
    (p : ℤ) (ls ms : List Line) → lines_of p (ls ++ ms) ≡ lines_of p ls ++ lines_of p ms
unfolding lines_of
lines_of-append p [] ms = refl
lines_of-append p (l ∷ ls) ms = ground (arith, lines_of-append p ls ms)

-- A log whose offsets count up.
abbrev pub Counted : ℕ → List WireRecord → Type 0
Counted base [] = Unit
Counted base (r ∷ rs) = (r.offset ≡ base) × Counted (suc base) rs

pub Counted-drop :
    (n base : ℕ) (rs rest : List WireRecord) (r : WireRecord)
    → Counted base rs
    → drop n rs ≡ r ∷ rest
    → r.offset ≡ base + n
Counted-drop zero base [] rest r c e = cc
Counted-drop zero base (x ∷ xs) rest r c e = omega (arith, c.0, ap first_offset e)
  where
    first_offset : List WireRecord → ℕ
    first_offset [] = 0
    first_offset (y ∷ ys) = y.offset
Counted-drop (suc n) base [] rest r c e = cc
Counted-drop (suc n) base (x ∷ xs) rest r c e =
    omega (arith, Counted-drop n (suc base) xs rest r c.1 e)

pub take_next :
    (k : ℕ) (rs rest : List WireRecord) (r : WireRecord)
    → drop k rs ≡ r ∷ rest
    → take (suc k) rs ≡ take k rs ++ r ∷ []
take_next zero [] rest r e = cc
take_next zero (x ∷ xs) rest r e = ap (take 1) e
take_next (suc k) [] rest r e = cc
take_next (suc k) (x ∷ xs) rest r e = ap (λ l. x ∷ l) (take_next k xs rest r e)

pub inside_drop :
    (n : ℕ) (rs rest : List WireRecord) (r : WireRecord) → drop n rs ≡ r ∷ rest → suc n ≤ length rs
inside_drop n rs rest r e = omega (arith, ap length e, length-drop n rs)

pub drop_next :
    (n : ℕ) (rs rest : List WireRecord) (r : WireRecord)
    → drop n rs ≡ r ∷ rest
    → drop (suc n) rs ≡ rest
drop_next zero [] rest r e = cc
drop_next zero (x ∷ xs) rest r e = ap (drop 1) e
drop_next (suc n) [] rest r e = cc
drop_next (suc n) (x ∷ xs) rest r e = drop_next n xs rest r e
