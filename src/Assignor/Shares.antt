-- ===== src/Assignor/Shares.antt =====
-- What the members hold of one topic after `assignRange`, internal/assignor/range.go.
use logship.Prelude.{
  ℕ, zero, suc, ◌+◌, ◌-◌, ◌*◌, ◌/◌, ◌%◌, ◌≡◌, ◌<◌, refl, sym, ap, ◌∙◌, Bool, true, false, Option,
  some, List, [], ◌∷◌, ◌++◌, arith, ◌==◌, if◌then◌else◌, length, take, drop, drop-drop, take-all,
  Bool-cases, inl, inr, min, Bytes, str_eq, str_eq_refl, str_eq→eq, lookup, insert, lookup-insert,
  empty_of_length, lt→ltb, ltb→lt, ne→==-false, All, ==_iff,
}
use native.Mathlib.Omega.{div_any}
use logship.Assignor.{Assignment, or_empty, held, give, count_at, assign_members, assign_range}

or_empty-if {ℓ} :
    {A : Type ℓ} (b : Bool) (xs : List A) (o : Option (List A))
    → or_empty (if b then some xs else o) ≡ (if b then xs else or_empty o)
unfolding or_empty
or_empty-if true xs o = refl
or_empty-if false xs o = refl

-- What one more piece for `m` of `topic` changes.
held-give :
    (m topic m' topic' : Bytes) (parts : List ℕ) (out : Assignment)
    → held m' topic' (give m topic parts out) ≡ (
        if str_eq m m'
        then if str_eq topic topic' then held m topic out ++ parts else held m' topic' out
        else held m' topic' out)
unfolding held give or_empty
held-give m topic m' topic' parts out = elim (Bool-cases (str_eq m m')) [
  | inl same ↦
      rw
        (
          lookup-insert m m'
              (insert topic (or_empty (lookup topic (or_empty (lookup m out))) ++ parts)
                (or_empty (lookup m out)))
              out,
          same,
          lookup-insert topic topic' (or_empty (lookup topic (or_empty (lookup m out))) ++ parts)
              (or_empty (lookup m out)),
          str_eq→eq m m' same,
        )
        (or_empty-if (str_eq topic topic') _ _)
  | inr other ↦ rw (
    lookup-insert m m'
        (insert topic (or_empty (lookup topic (or_empty (lookup m out))) ++ parts)
          (or_empty (lookup m out)))
        out,
    other,
  )
]

str_eq_comm_false : (a b : Bytes) → str_eq a b ≡ false → str_eq b a ≡ false
str_eq_comm_false a b h = grind (arith, str_eq→eq b a, str_eq_refl a)

-- No two are equal.
unfoldable pub IsDistinct : List Bytes → Type 0
IsDistinct [] = Unit
IsDistinct (m ∷ ms) = All (λ j. str_eq j m ≡ false) ms × IsDistinct ms

-- The members' partitions of a topic, one member after the other.
unfoldable pub gathered : List Bytes → Bytes → Assignment → List ℕ
gathered [] topic out = []
gathered (m ∷ ms) topic out = held m topic out ++ gathered ms topic out

-- Members that come later do not change what one holds.
held-assign_members :
    (ms : List Bytes) (m topic : Bytes) (parts : List ℕ) (per extra i idx : ℕ) (out : Assignment)
    → All (λ j. str_eq j m ≡ false) ms
    → held m topic (assign_members ms topic parts per extra i idx out) ≡ held m topic out
unfolding assign_members
held-assign_members [] m topic parts per extra i idx out h = refl
held-assign_members (j ∷ ms) m topic parts per extra i idx out (h, hs) =
    let count = count_at per extra i in
    let out1 = give j topic (take count (drop idx parts)) out in
    elim (Bool-cases (count == 0)) [
      | inl nothing ↦ rw nothing (held-assign_members ms m topic parts per extra (i + 1) idx out hs)
      | inr some_parts ↦ rw (
        some_parts,
        held-assign_members ms m topic parts per extra (i + 1) (idx + count) out1 hs,
        held-give j topic m topic (take count (drop idx parts)) out,
        h,
      )
    ]

total : ℕ → ℕ → ℕ → ℕ → ℕ
total per extra i zero = 0
total per extra i (suc k) = count_at per extra i + total per extra (i + 1) k

take-add {ℓ} :
    {A : Type ℓ} (a b : ℕ) (xs : List A) → take (a + b) xs ≡ take a xs ++ take b (drop a xs)
take-add zero b xs = ap (λ k. take k xs) (omega arith)
take-add (suc a) b [] =
    let sum : suc a + b ≡ suc (a + b) = omega arith in rw sum (sym (take-all b [] (omega arith)))
take-add (suc a) b (x ∷ xs) =
    let sum : suc a + b ≡ suc (a + b) = omega arith in rw sum (ap (λ l. x ∷ l) (take-add a b xs))

zero_add : (n : ℕ) → 0 + n ≡ n
zero_add n = omega arith

AllEmpty : List Bytes → Bytes → Assignment → Type 0
AllEmpty ms topic out = All (λ m. held m topic out ≡ []) ms

give-AllEmpty :
    (ms : List Bytes) (j topic : Bytes) (parts : List ℕ) (out : Assignment)
    → All (λ m. str_eq m j ≡ false) ms
    → AllEmpty ms topic out
    → AllEmpty ms topic (give j topic parts out)
unfolding AllEmpty
give-AllEmpty [] j topic parts out h e = tt
give-AllEmpty (m ∷ ms) j topic parts out (h, hs) (e, es) = (
  rw (held-give j topic m topic parts out, str_eq_comm_false m j h) e,
  give-AllEmpty ms j topic parts out hs es,
)

gathered-assign_members :
    (ms : List Bytes) (topic : Bytes) (parts : List ℕ) (per extra i idx : ℕ) (out : Assignment)
    → IsDistinct ms
    → AllEmpty ms topic out
    → gathered ms topic (assign_members ms topic parts per extra i idx out)
      ≡ take (total per extra i (length ms)) (drop idx parts)
unfolding gathered assign_members total IsDistinct AllEmpty
gathered-assign_members [] topic parts per extra i idx out d e = refl
gathered-assign_members (m ∷ ms) topic parts per extra i idx out (h, d) (e, es) =
    let count = count_at per extra i in
    let piece = take count (drop idx parts) in
    let out1 = give m topic piece out in
    elim (Bool-cases (count == 0)) [
      | inl nothing ↦ rw (
        nothing,
        held-assign_members ms m topic parts per extra (i + 1) idx out h,
        e,
        gathered-assign_members ms topic parts per extra (i + 1) idx out d es,
        (==_iff count 0).0 nothing,
        zero_add (total per extra (i + 1) (length ms)),
      )
      | inr some_parts ↦ rw (
        some_parts,
        held-assign_members ms m topic parts per extra (i + 1) (idx + count) out1 h,
        held-give m topic m topic piece out,
        str_eq_refl m,
        str_eq_refl topic,
        e,
        gathered-assign_members ms topic parts per extra (i + 1) (idx + count) out1 d
            (give-AllEmpty ms m topic piece out h es),
        take-add count (total per extra (i + 1) (length ms)) (drop idx parts),
        drop-drop count idx parts,
      )
    ]

suc_times : (k n : ℕ) → suc k * n ≡ n + k * n
suc_times k n = omega arith

-- How many the members from `i` on get.
total-sum : (per extra i k : ℕ) → total per extra i k ≡ k * per + (min (i + k) extra - min i extra)
unfolding total count_at
total-sum per extra i zero = omega arith
total-sum per extra i (suc k) =
    grind (arith, total-sum per extra (i + 1) k, suc_times k per, lt→ltb i extra, ltb→lt i extra)

all_given : (p n : ℕ) → 0 < n → total (p / n) (p % n) 0 n ≡ p
all_given p n h = grind (arith, total-sum (p / n) (p % n) 0 n, div_any p n)

gathered-empty :
    (ms : List Bytes) (topic : Bytes) (out : Assignment)
    → AllEmpty ms topic out
    → gathered ms topic out ≡ []
unfolding gathered AllEmpty
gathered-empty [] topic out e = refl
gathered-empty (m ∷ ms) topic out (e, es) = rw (e, gathered-empty ms topic out es)

-- Distinct members who hold no partitions of a topic get all of them, in order: one after the
-- other, their shares are the partitions.
pub gathered-assign_range :
    (ms : List Bytes) (topic : Bytes) (parts : List ℕ) (out : Assignment)
    → 0 < length ms
    → IsDistinct ms
    → All (λ m. held m topic out ≡ []) ms
    → gathered ms topic (assign_range ms topic parts out) ≡ parts
unfolding assign_range AllEmpty
gathered-assign_range ms topic parts out some_members d e = elim (Bool-cases (length parts == 0)) [
  | inl nothing ↦
      rw (ne→==-false (length ms) 0 (omega arith), nothing)
        (gathered-empty ms topic out e
          ∙ sym (empty_of_length parts (omega (arith, (==_iff (length parts) 0).0 nothing))))
  | inr some_parts ↦
      rw
        (
          ne→==-false (length ms) 0 (omega arith),
          some_parts,
          gathered-assign_members ms topic parts (length parts / length ms)
              (length parts % length ms) 0 0 out d e,
        )
        (take-all _ parts (omega (arith, all_given (length parts) (length ms) some_members)))
]
