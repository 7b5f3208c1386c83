-- ===== src/Log/Skip.antt =====
-- `Read` of internal/log/log.go where the byte budget stops inside a segment.
use logship.Prelude.{
  ℕ, suc, ◌+◌, ◌-◌, ◌≤◌, ◌<◌, ◌≡◌, refl, ap, subst, ◌∙◌, false, ◌&&◌, ◌||◌, inl, inr, List, [], ◌∷◌,
  ◌++◌, arith, append-nil, length, length-append, take, drop, ltb, leb, Bool-cases, lt→ltb,
  lt→leb-false, length-drop, take-all,
}
use logship.Prelude.Int.{pos}
use logship.Record.{Record, encoded_size}
use logship.Segment.{Segment, ok, read_from}
use logship.Segment.Contents.{Holds, Consecutive, size_of, Consecutive-drop}
use logship.Segment.Read.{budget, read_from-Holds}
use logship.Log.{Log, leo, read_segments, next_from, read}
use logship.Log.Chain.{LogHolds, Chain}
use logship.Log.Read.{next_from-Consecutive}

-- A budget takes a first part of the records, and at least one.
budget-Consecutive :
    (max_bytes n base : ℕ) (rs : List Record)
    → Consecutive base rs
    → Consecutive base (budget max_bytes n rs)
unfolding budget
budget-Consecutive max_bytes n base [] c = tt
budget-Consecutive max_bytes n base (r ∷ rs) c =
    let used = n + encoded_size r in
    elim (Bool-cases (ltb 0 n && ltb max_bytes used)) [
      | inl over ↦ rw over tt
      | inr fits ↦ elim (Bool-cases (leb max_bytes used)) [
        | inl full ↦ rw (fits, full) (c.0, tt)
        | inr more ↦ rw (fits, more) (c.0, budget-Consecutive max_bytes used (base + 1) rs c.1)
      ]
    ]

budget-pos : (max_bytes : ℕ) (rs : List Record) → 0 < length rs → 0 < length (budget max_bytes 0 rs)
unfolding budget
budget-pos max_bytes [] h = absurd (omega arith)
budget-pos max_bytes (r ∷ rs) h = ground arith

-- One round, by what the segment gives.
round :
    (s : Segment) (ss : List Segment) (max_bytes limit from n left used behind : ℕ)
    (out recs : List Record)
    → from < s.next_offset
    → s.base_offset < limit
    → max_bytes - n ≡ left
    → n + size_of recs ≡ used
    → next_from s (pos from) recs ≡ pos behind
    → read_from s (pos from) left (pos limit) ≡ ok recs
    → used < max_bytes
    → read_segments (s ∷ ss) max_bytes limit (pos from) n out
      ≡ read_segments ss max_bytes limit (pos behind) used (out ++ recs)
unfolding read_segments
round s ss max_bytes limit from n left used behind out recs hi lt rest sum next got room = rw (
  lt→leb-false s.next_offset from hi,
  lt→leb-false limit s.base_offset lt,
  rest,
  got,
  sum,
  lt→leb-false max_bytes used room,
  next,
)

last_round :
    (s : Segment) (max_bytes limit from n : ℕ) (out recs : List Record)
    → from < s.next_offset
    → s.base_offset < limit
    → read_from s (pos from) (max_bytes - n) (pos limit) ≡ ok recs
    → read_segments (s ∷ []) max_bytes limit (pos from) n out ≡ ok (out ++ recs)
unfolding read_segments
last_round s max_bytes limit from n out recs hi lt got =
    rw (lt→leb-false s.next_offset from hi, lt→leb-false limit s.base_offset lt, got) (ground arith)

-- In front of its first record a segment gives nothing.
read_from-before :
    (s : Segment) (max_bytes from limit : ℕ)
    → from < s.base_offset
    → read_from s (pos from) max_bytes (pos limit) ≡ ok []
unfolding read_from
read_from-before s max_bytes from limit h = rw (lt→ltb from s.base_offset h)

next_from-nil :
    (s : Segment) (from : ℕ) → from < s.next_offset → next_from s (pos from) [] ≡ pos s.next_offset
unfolding next_from
next_from-nil s from h = rw (lt→ltb from s.next_offset h)

-- From an offset on, with a limit that is not met, a segment gives what the budget takes.
read_from-rest :
    (s : Segment) (c : List Record) (base from max_bytes limit : ℕ)
    → Holds s c
    → s.base_offset ≡ base
    → base ≤ from
    → from < base + length c
    → base + length c ≤ limit
    → read_from s (pos from) max_bytes (pos limit) ≡ ok (budget max_bytes 0 (drop (from - base) c))
read_from-rest s c base from max_bytes limit held e lo hi le =
    read_from-Holds s c held from max_bytes limit (omega (arith, e)) (omega (arith, held.next, e))
      (omega arith)
    ∙ ap (λ b. ok (budget max_bytes 0 (take (limit - from) (drop (from - b) c)))) e
    ∙ ap (λ rs. ok (budget max_bytes 0 rs))
        (take-all (limit - from) (drop (from - base) c)
          (omega (arith, length-drop (from - base) c)))

gap-not_Consecutive :
    (base other : ℕ) (rs ss : List Record)
    → 0 < length ss
    → Consecutive other ss
    → base + length rs < other
    → ¬ (Consecutive base (rs ++ ss))
gap-not_Consecutive base other [] [] h c lt all = absurd (omega arith)
gap-not_Consecutive base other [] (s ∷ ss) h c lt all = absurd (omega (arith, c.0, all.0))
gap-not_Consecutive base other (r ∷ rs) ss h c lt all =
    gap-not_Consecutive (base + 1) other rs ss h c (omega arith) all.1

from_sum : (base from : ℕ) → base ≤ from → base + (from - base) ≡ from
from_sum base from h = omega arith

three_rounds :
    (s1 s2 s3 : Segment) (c1 c2 c3 : List Record) (base from mb limit : ℕ)
    → Holds s1 c1
    → Holds s2 c2
    → Holds s3 c3
    → s1.base_offset ≡ base
    → s2.base_offset ≡ base + length c1
    → s3.base_offset ≡ base + length c1 + length c2
    → base ≤ from
    → 0 < length c2
    → 0 < length c3
    → base + length c1 + length c2 + length c3 ≤ limit
    → size_of (budget mb 0 (drop (from - base) c1)) < mb
    → from + length (budget mb 0 (drop (from - base) c1)) < base + length c1
    → 0 < length (budget mb 0 (drop (from - base) c1))
    → Consecutive from (budget mb 0 (drop (from - base) c1))
    → let got = budget mb 0 (drop (from - base) c1) in
      read_segments (s1 ∷ s2 ∷ s3 ∷ []) mb limit (pos from) 0 []
      ≡ ok (got ++ budget (mb - size_of got) 0 c3)
three_rounds s1 s2 s3 c1 c2 c3 base from mb limit h1 h2 h3 e1 e2 e3 lo some2 some3 le room short
      some1 offsets =
    let got = budget mb 0 (drop (from - base) c1) in
    let behind : ℕ = from + length got in
    let b3 : ℕ = base + length c1 + length c2 in
    let no_shift : b3 - b3 ≡ 0 = omega arith in
    let no_size : size_of got + size_of [] ≡ size_of got = unfold size_of in omega arith in
    round s1 (s2 ∷ s3 ∷ []) mb limit from 0 mb (size_of got) behind [] got
      (omega (arith, h1.next, e1)) (omega (arith, e1)) (omega arith) (omega arith)
      (next_from-Consecutive s1 (pos from) from got offsets some1)
      (read_from-rest s1 c1 base from mb limit h1 e1 lo (omega arith) (omega arith)) room
    ∙ round s2 (s3 ∷ []) mb limit behind (size_of got) (mb - size_of got) (size_of got) b3 got []
        (omega (arith, h2.next, e2)) (omega (arith, e2)) refl no_size
        (next_from-nil s2 behind (omega (arith, h2.next, e2)) ∙ ap pos (omega (arith, h2.next, e2)))
        (read_from-before s2 (mb - size_of got) behind limit (omega (arith, e2))) room
    ∙ last_round s3 mb limit b3 (size_of got) (got ++ []) (budget (mb - size_of got) 0 c3)
        (omega (arith, h3.next, e3)) (omega (arith, e3))
        (read_from-rest s3 c3 b3 b3 (mb - size_of got) limit h3 e3 (omega arith) (omega arith) le
          ∙ ap (λ k. ok (budget (mb - size_of got) 0 (drop k c3))) no_shift)
    ∙ ap (λ l. ok (l ++ budget (mb - size_of got) 0 c3)) (append-nil got)

-- Where the byte limit stops the first of three segments short of its end, `Read` goes on with the
-- third: the rest of the first segment and all of the second are left out, and the offsets of the
-- result have a gap.
pub read-skips_segment :
    (base : ℕ) (l : Log) (s1 s2 : Segment) (c1 c2 c3 : List Record) (from max_bytes : ℕ)
    → l.sealed ≡ s1 ∷ s2 ∷ []
    → LogHolds base l (c1 ∷ c2 ∷ []) c3
    → base ≤ from
    → 0 < length c2
    → 0 < length c3
    → size_of (budget (suc max_bytes) 0 (drop (from - base) c1)) < suc max_bytes
    → from + length (budget (suc max_bytes) 0 (drop (from - base) c1)) < base + length c1
    → let got = budget (suc max_bytes) 0 (drop (from - base) c1) in
      let later = budget (suc max_bytes - size_of got) 0 c3 in
      (read l (pos from) (pos (suc max_bytes)) (pos (leo l)) ≡ ok (got ++ later))
      × ¬ (Consecutive from (got ++ later))
unfolding read
read-skips_segment base l s1 s2 c1 c2 c3 from max_bytes two h lo some2 some3 room short =
    let mb = suc max_bytes in
    let got = budget mb 0 (drop (from - base) c1) in
    let left : length (drop (from - base) c1) ≡ length c1 - (from - base) =
      length-drop (from - base) c1 in
    let chain = subst (λ ss. Chain base ss (c1 ∷ c2 ∷ [])) two h.sealed in
    let b3 : ℕ = base + length c1 + length c2 in
    let parts : length (c1 ++ (c2 ++ [])) ≡ length c1 + length c2 =
      omega (arith, length-append c1 (c2 ++ []), length-append c2 []) in
    let start : l.active.base_offset ≡ b3 = omega (arith, h.active_base, parts) in
    let end : leo l ≡ b3 + length c3 = omega (arith, h.active.next, start) in
    let some1 : 0 < length got = budget-pos mb (drop (from - base) c1) (omega arith) in
    let offsets : Consecutive from got = budget-Consecutive mb 0 from (drop (from - base) c1) (
      subst (λ b. Consecutive b (drop (from - base) c1)) (from_sum base from lo)
        (Consecutive-drop (from - base) base c1
          (subst (λ b. Consecutive b c1) chain.0 chain.1.consecutive))) in
    let later_offsets : Consecutive b3 (budget (mb - size_of got) 0 c3) =
      budget-Consecutive (mb - size_of got) 0 b3 c3
        (subst (λ b. Consecutive b c3) start h.active.consecutive) in
    let in_range : (leb (leo l) from || leb (leo l) from) ≡ false =
      rw (lt→leb-false (leo l) from (omega arith)) refl in
    let rounds =
      three_rounds s1 s2 l.active c1 c2 c3 base from mb (leo l) chain.1 chain.2.1 h.active chain.0
        chain.2.0 start lo some2 some3 (omega arith) room short some1 offsets in
    (
      rw in_range
          (ap (λ ss. read_segments (ss ++ l.active ∷ []) mb (leo l) (pos from) 0 []) two ∙ rounds),
      gap-not_Consecutive from b3 got (budget (mb - size_of got) 0 c3)
          (budget-pos (mb - size_of got) c3 some3) later_offsets (omega arith),
    )
