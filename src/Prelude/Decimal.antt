-- ===== src/Prelude/Decimal.antt =====
-- strconv.Itoa and strconv.Atoi of Go, on lists of bytes and the integers of `Int`.
use Prim.Native.Nat.{ℕ, zero, suc, ◌+◌, ◌-◌, ◌*◌, ◌/◌, ◌%◌, ◌^◌, ◌≤◌, ◌<◌}
use mathlib.Core.Path.{◌≡◌, refl, ◌∙◌, sym, ap}
use mathlib.Core.Bool.{◌&&◌}
use mathlib.Core.Logic.{◌≢◌, inl, inr}
use mathlib.Core.Option.{Option, none, some}
use mathlib.Core.List.{[], ◌∷◌, ◌++◌, append_assoc, append-nil}
use native.Mathlib.Omega.{arith}
use logship.Prelude.Tests.{
  ltb, leb, ◌==◌, if◌then◌else◌, Bool-cases, lt→ltb, ltb→lt, le→leb, ne→==-false, ltb-false→le,
}
use logship.Prelude.Lists.{All, All-append, All-map}
use logship.Prelude.Wire.{Bytes}
use logship.Prelude.Int.{ℤ, pos, negsuc}

digits : ℕ → ℕ → Bytes
digits zero n = []
digits (suc fuel) n =
    let front = digits fuel (n / 10) in
    if ltb n 10 then (48 + n) ∷ [] else front ++ (48 + n % 10) ∷ []

-- A number has no more digits than its value and one.
unfoldable pub itoa : ℤ → Bytes
unfolding digits
itoa (pos n) = digits (n + 1) n
itoa (negsuc n) = 45 ∷ digits (n + 2) (n + 1)

-- The value of a row of digits behind others of value `acc`.
value_from : ℕ → Bytes → Option ℕ
value_from acc [] = some acc
value_from acc (c ∷ cs) = if leb 48 c && leb c 57 then value_from (acc * 10 + (c - 48)) cs else none

within : ℕ → (ℕ → ℤ) → Option ℕ → Option ℤ
within limit sign none = none
within limit sign (some n) = if ltb n limit then some (sign n) else none

negative : ℕ → ℤ
negative zero = pos 0
negative (suc n) = negsuc n

unsigned : ℕ → (ℕ → ℤ) → Bytes → Option ℤ
unsigned limit sign [] = none
unsigned limit sign (c ∷ cs) = within limit sign (value_from 0 (c ∷ cs))

-- `none` where Atoi has an error: no digits, another byte than a digit behind the sign, or a value
-- outside the int of 64 bits.
unfoldable pub atoi : Bytes → Option ℤ
unfolding unsigned within negative value_from
atoi [] = none
atoi (c ∷ cs) =
    if c == 45
    then unsigned (2 ^ 63 + 1) negative cs
    else if c == 43
    then unsigned (2 ^ 63) pos cs
    else unsigned (2 ^ 63) pos (c ∷ cs)

value_from-digit :
    (acc d : ℕ) (rest : Bytes)
    → d < 10
    → value_from acc ((48 + d) ∷ rest) ≡ value_from (acc * 10 + d) rest
unfolding value_from
value_from-digit acc d rest h =
    let value : 48 + d - 48 ≡ d = omega arith in
    rw (le→leb 48 (48 + d) (omega arith), le→leb (48 + d) 57 (omega arith), value)

value_from-digits :
    (fuel n : ℕ) (rest : Bytes)
    → n < fuel
    → value_from 0 (digits fuel n ++ rest) ≡ value_from n rest
unfolding digits
value_from-digits zero n rest h = absurd (omega arith)
value_from-digits (suc fuel) n rest h = elim (Bool-cases (ltb n 10)) [
  | inl one ↦
      let value : 0 * 10 + n ≡ n = omega arith in
      rw one (value_from-digit 0 n rest (ltb→lt n 10 one) ∙ ap (λ v. value_from v rest) value)
  | inr more ↦
      let large = ltb-false→le n 10 more in
      let value : n / 10 * 10 + n % 10 ≡ n = omega arith in
      rw (more, append_assoc (digits fuel (n / 10)) ((48 + n % 10) ∷ []) rest)
        (value_from-digits fuel (n / 10) ((48 + n % 10) ∷ rest) (omega arith)
          ∙ value_from-digit (n / 10) (n % 10) rest (omega arith)
          ∙ ap (λ v. value_from v rest) value)
]

-- The digits begin with a digit, and all are digits.
abbrev pub IsDigit : ℕ → Type 0
IsDigit c = (48 ≤ c) × (c ≤ 57)

digits-All : (fuel n : ℕ) → All IsDigit (digits fuel n)
unfolding digits
digits-All zero n = tt
digits-All (suc fuel) n = elim (Bool-cases (ltb n 10)) [
  | inl one ↦ rw one (let small = ltb→lt n 10 one in ((omega arith, omega arith), tt))
  | inr more ↦ rw more (
      All-append IsDigit (digits fuel (n / 10)) _ (digits-All fuel (n / 10))
        ((omega arith, omega arith), tt))
]

digits-cons : (fuel n : ℕ) → n < fuel → (c : ℕ) × (cs : Bytes) × (digits fuel n ≡ c ∷ cs)
unfolding digits
digits-cons zero n h = absurd (omega arith)
digits-cons (suc fuel) n h = elim (Bool-cases (ltb n 10)) [
  | inl one ↦ (48 + n, [], rw one)
  | inr more ↦
      let large = ltb-false→le n 10 more in
      let (c, cs, e) = digits-cons fuel (n / 10) (omega arith) in
      (c, cs ++ (48 + n % 10) ∷ [], rw (more, e))
]

value_from-nil : (n : ℕ) → value_from n [] ≡ some n
unfolding value_from
value_from-nil n = refl

value_from-whole : (fuel n : ℕ) → n < fuel → value_from 0 (digits fuel n) ≡ some n
value_from-whole fuel n h =
    ap (value_from 0) (sym (append-nil (digits fuel n)))
    ∙ value_from-digits fuel n [] h
    ∙ value_from-nil n

unsigned-eq_value :
    (limit : ℕ) (sign : ℕ → ℤ) (cs bs : Bytes) (c n : ℕ)
    → bs ≡ c ∷ cs
    → value_from 0 bs ≡ some n
    → n < limit
    → unsigned limit sign bs ≡ some (sign n)
unfolding unsigned within
unsigned-eq_value limit sign cs bs c n e v fits = rw (e, rw e at v, lt→ltb n limit fits)

unsigned-digits :
    (limit : ℕ) (sign : ℕ → ℤ) (fuel n : ℕ)
    → n < fuel
    → n < limit
    → unsigned limit sign (digits fuel n) ≡ some (sign n)
unsigned-digits limit sign fuel n h fits =
    let (c, cs, e) = digits-cons fuel n h in
    unsigned-eq_value limit sign cs (digits fuel n) c n e (value_from-whole fuel n h) fits

unfoldable pub FitsInt : ℤ → Type 0
FitsInt (pos n) = n < 2 ^ 63
FitsInt (negsuc n) = n < 2 ^ 63

-- A row of digits is read without a sign.
atoi-digits :
    (bs cs : Bytes) (c : ℕ) → bs ≡ c ∷ cs → All IsDigit bs → atoi bs ≡ unsigned (2 ^ 63) pos bs
unfolding atoi
atoi-digits bs cs c e h =
    let digit = rw e at h in
    rw (
      e,
      ne→==-false c 45 (λ q. omega (arith, digit.0)),
      ne→==-false c 43 (λ q. omega (arith, digit.0)),
    )

atoi-negative : (n : ℕ) → n < 2 ^ 63 → atoi (45 ∷ digits (n + 2) (n + 1)) ≡ some (negsuc n)
unfolding atoi negative
atoi-negative n h =
    let next : n + 1 ≡ suc n = omega arith in
    unsigned-digits (2 ^ 63 + 1) negative (n + 2) (n + 1) (omega arith) (omega arith) ∙ rw next

pub atoi-itoa : (n : ℤ) → FitsInt n → atoi (itoa n) ≡ some n
unfolding itoa FitsInt
atoi-itoa (pos n) h =
    let (c, cs, e) = digits-cons (n + 1) n (omega arith) in
    atoi-digits (digits (n + 1) n) cs c e (digits-All (n + 1) n)
    ∙ unsigned-digits (2 ^ 63) pos (n + 1) n (omega arith) h
atoi-itoa (negsuc n) h = atoi-negative n h

-- No byte of a number is a slash.
pub itoa-All : (n : ℤ) → All (λ c. c ≢ 47) (itoa n)
unfolding itoa
itoa-All (pos n) = All-map (digits (n + 1) n) (λ c d e. omega arith) (digits-All (n + 1) n)
itoa-All (negsuc n) = (
  λ e. omega arith,
  All-map (digits (n + 2) (n + 1)) (λ c d e. omega arith) (digits-All (n + 2) (n + 1)),
)

-- The bytes of a number are a minus sign and digits.
pub itoa-bounds : (n : ℤ) → All (λ c. (45 ≤ c) × (c ≤ 57)) (itoa n)
unfolding itoa
itoa-bounds (pos n) =
    All-map (digits (n + 1) n) (λ c d. (omega (arith, d), omega (arith, d))) (digits-All (n + 1) n)
itoa-bounds (negsuc n) = (
  (omega arith, omega arith),
  All-map (digits (n + 2) (n + 1)) (λ c d. (omega (arith, d), omega (arith, d)))
      (digits-All (n + 2) (n + 1)),
)
