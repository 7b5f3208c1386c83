-- ===== src/Log/Read.antt =====
-- `Read` of internal/log/log.go over the segments, where the byte budget is not met.
use logship.Prelude.{
  ℕ, zero, suc, ◌+◌, ◌-◌, ◌≤◌, ◌<◌, ◌≡◌, refl, ap, sym, subst, ◌∙◌, true, ◌||◌, inl, inr, List, [],
  ◌∷◌, ◌++◌, arith, append_assoc, append-nil, min, length, take, drop, leb, if◌then◌else◌,
  Bool-cases, ◌⊎◌, leb-false→lt, leb→le, le→leb, lt→leb-false, length-take, length-drop,
}
use logship.Prelude.Int.{ℤ, pos, leb_ℤ}
use native.Mathlib.Decide.{dec_lt}
use logship.Record.{Record, encoded_size}
use logship.Record.Size.{encoded_size-le}
use logship.Segment.{Segment, ok, read_from}
use logship.Segment.Contents.{Holds, Consecutive, size_of, size_of-append, Consecutive-drop}
use logship.Segment.Read.{budget, read_from-Holds}
use logship.Log.{Log, read_segments, next_from, read, segments, byte_limit, offset_limit}
use logship.Log.Stretch.{
  stretch, stretch-append, stretch-skip, stretch_nil, stretch_none, stretch_past,
}
use logship.Log.Chain.{LogHolds, Chain, flat, flat-append, records, leo-LogHolds, Chain-segments}

-- A budget that is not exceeded takes everything.
pub budget-all :
    (max_bytes n : ℕ) (rs : List Record) → n + size_of rs ≤ max_bytes → budget max_bytes n rs ≡ rs
unfolding budget size_of
budget-all max_bytes n [] h = refl
budget-all max_bytes n (r ∷ rs) h =
    ground (arith, budget-all max_bytes (n + encoded_size r) rs, full rs)
  where
    full : (rs : List Record) → size_of rs ≤ 0 → rs ≡ []
    full [] k = refl
    full (x ∷ xs) k = absurd (omega (arith, encoded_size-le x))

pub next_from-Consecutive :
    (s : Segment) (from : ℤ) (base : ℕ) (rs : List Record)
    → Consecutive base rs
    → 0 < length rs
    → next_from s from rs ≡ pos (base + length rs)
unfolding next_from
next_from-Consecutive s from base [] c h = absurd (omega arith)
next_from-Consecutive s from base (r ∷ []) c h = ap pos (omega (arith, c.0))
next_from-Consecutive s from base (r ∷ r' ∷ rs) c h =
    next_from-Consecutive s from (base + 1) (r' ∷ rs) c.1 (omega arith) ∙ ap pos (omega arith)

Consecutive-take :
    (k base : ℕ) (rs : List Record) → Consecutive base rs → Consecutive base (take k rs)
Consecutive-take zero base rs c = tt
Consecutive-take (suc k) base [] c = tt
Consecutive-take (suc k) base (r ∷ rs) c = (c.0, Consecutive-take k (base + 1) rs c.1)

skip_segment :
    (s : Segment) (ss : List Segment) (max_bytes limit n from : ℕ) (out : List Record)
    → s.next_offset ≤ from
    → read_segments (s ∷ ss) max_bytes limit (pos from) n out
      ≡ read_segments ss max_bytes limit (pos from) n out
unfolding read_segments
skip_segment s ss max_bytes limit n from out h = rw (le→leb s.next_offset from h)

-- Where the limit is not past the first segment, the loop stops.
read_segments-stop :
    (ss : List Segment) (cs : List (List Record)) (base max_bytes limit n : ℕ) (from : ℤ)
    (out : List Record)
    → Chain base ss cs
    → limit ≤ base
    → read_segments ss max_bytes limit from n out ≡ ok out
unfolding read_segments
read_segments-stop [] cs base max_bytes limit n from out h le = refl
read_segments-stop (s ∷ ss) [] base max_bytes limit n from out h le = absurd h
read_segments-stop (s ∷ ss) (c ∷ cs) base max_bytes limit n from out h le =
    let here : leb limit s.base_offset ≡ true = le→leb limit s.base_offset (omega (arith, h.0)) in
    let rest =
      read_segments-stop ss cs (base + length c) max_bytes limit n from out h.2 (omega arith) in
    elim (Bool-cases (leb_ℤ (pos s.next_offset) from)) [
      | inl skip ↦ rw skip rest
      | inr stay ↦ rw (stay, here)
    ]

-- One segment that holds the first record of the window, when `more` is what the loop goes on to.
module _ (s : Segment) (c : List Record) (base max_bytes limit n from : ℕ) (held : Holds s c)
    (same_base : s.base_offset ≡ base) (lo : base ≤ from) (hi : from < base + length c)
    (lt : from < limit) where
  abbrev got : List Record
  got = stretch base from limit c

  length-got : length got ≡ min (limit - from) (base + length c - from)
  length-got =
      omega (arith, length-take (limit - from) (drop (from - base) c), length-drop (from - base) c)

  read_from-got :
      n + size_of got ≤ max_bytes → read_from s (pos from) (max_bytes - n) (pos limit) ≡ ok got
  read_from-got room =
      read_from-Holds s c held from (max_bytes - n) limit (omega (arith, same_base))
        (omega (arith, held.next, same_base)) lt
      ∙ ap (λ b. ok (budget (max_bytes - n) 0 (take (limit - from) (drop (from - b) c)))) same_base
      ∙ ap ok (budget-all (max_bytes - n) 0 got (omega arith))

  next_from-got : next_from s (pos from) got ≡ pos (from + length got)
  next_from-got =
      let start : base + (from - base) ≡ from = omega arith in
      next_from-Consecutive s (pos from) from got
        (Consecutive-take (limit - from) from (drop (from - base) c) (
          subst (λ b. Consecutive b (drop (from - base) c)) start
            (Consecutive-drop (from - base) base c
              (subst (λ b. Consecutive b c) same_base held.consecutive))))
        (omega (arith, length-got))

  read_segments-here :
      (ss : List Segment) (out : List Record)
      → n + size_of got ≤ max_bytes
      → read_segments (s ∷ ss) max_bytes limit (pos from) n out ≡ (
          if leb max_bytes (n + size_of got)
          then ok (out ++ got)
          else read_segments ss max_bytes limit
              (pos (from + length got))
              (n + size_of got)
              (out ++ got))
  unfolding read_segments
  read_segments-here ss out room = rw (
    lt→leb-false s.next_offset from (omega (arith, held.next, same_base)),
    lt→leb-false limit s.base_offset (omega (arith, same_base)),
    read_from-got room,
    next_from-got,
  )

size_zero : (rs : List Record) → size_of rs ≤ 0 → rs ≡ []
unfolding size_of
size_zero [] h = refl
size_zero (r ∷ rs) h = absurd (omega (arith, encoded_size-le r))

read_segments-window :
    (ss : List Segment) (cs : List (List Record)) (base max_bytes limit n from : ℕ)
    (out : List Record)
    → Chain base ss cs
    → base ≤ from
    → from < limit
    → n + size_of (stretch base from limit (flat cs)) ≤ max_bytes
    → read_segments ss max_bytes limit (pos from) n out
      ≡ ok (out ++ stretch base from limit (flat cs))
read_segments-window [] [] base max_bytes limit n from out h lo lt room =
    unfold read_segments in
    ap ok (sym (append-nil out) ∙ ap (λ l. out ++ l) (sym (stretch_nil base from limit)))
read_segments-window [] (c ∷ cs) base max_bytes limit n from out h lo lt room = absurd h
read_segments-window (s ∷ ss) [] base max_bytes limit n from out h lo lt room = absurd h
read_segments-window (s ∷ ss) (c ∷ cs) base max_bytes limit n from out h lo lt room =
    elim (dec_lt from (base + length c)) [
      | no past ↦
          let skip = stretch-skip base from limit c (flat cs) (omega arith) in
          let ih =
            read_segments-window ss cs (base + length c) max_bytes limit n from out h.2
              (omega arith) lt (subst (λ l. n + size_of l ≤ max_bytes) skip room) in
          skip_segment s ss max_bytes limit n from out (omega (arith, h.0, h.1.next))
          ∙ ih
          ∙ ap (λ l. ok (out ++ l)) (sym skip)
      | yes inside ↦
          let here = stretch base from limit c in
          let later = stretch (base + length c) (base + length c) limit (flat cs) in
          let split : stretch base from limit (c ++ flat cs) ≡ here ++ later =
            stretch-append base from limit c (flat cs) lo (omega arith) in
          let sizes : n + (size_of here + size_of later) ≤ max_bytes =
            subst (λ k. n + k ≤ max_bytes) (ap size_of split ∙ size_of-append here later) room in
          let step =
            read_segments-here s c base max_bytes limit n from h.1 h.0 lo inside lt ss out
              (omega arith) in
          let len = length-got s c base max_bytes limit n from h.1 h.0 lo inside lt in
          let done : out ++ here ≡ out ++ (here ++ []) =
            ap (λ l. out ++ l) (sym (append-nil here)) in
          step ∙ elim (Bool-cases (leb max_bytes (n + size_of here))) [
            | inl full ↦
                let nothing : later ≡ [] =
                  size_zero later (omega (arith, leb→le max_bytes (n + size_of here) full)) in
                rw (full, split, nothing) (ap ok done)
            | inr more ↦ elim (dec_lt (base + length c) limit) [
              | no over ↦
                  let nothing : later ≡ [] =
                    stretch_none (base + length c) limit (flat cs) (omega arith) in
                  rw (more, split, nothing)
                    (read_segments-stop ss cs (base + length c) max_bytes limit (n + size_of here)
                        (pos (from + length here)) (out ++ here) h.2 (omega arith)
                      ∙ ap ok done)
              | yes under ↦
                  let next : from + length here ≡ base + length c = omega (arith, len) in
                  rw (more, split, next)
                    (read_segments-window ss cs (base + length c) max_bytes limit (n + size_of here)
                        (base + length c) (out ++ here) h.2 (omega arith) under (omega arith)
                      ∙ ap ok (append_assoc out here later))
            ]
          ]
    ]

past_end :
    {leo end limit from : ℕ}
    → leo ≡ end
    → (leb leo from || leb limit from) ≡ true
    → (end ≤ from) ⊎ (limit ≤ from)
past_end {leo} {end} {limit} {from} e h = elim (Bool-cases (leb leo from)) [
  | inl past ↦ inl (omega (arith, leb→le leo from past))
  | inr before ↦ inr (leb→le limit from (rw before at h))
]

-- `Read` gives the records from the one asked for up to the offset limit, across all segments and in
-- order, if together they fit the byte limit. A negative offset limit is the end of the log, and a
-- byte limit that is not positive is 1 MiB.
pub read-LogHolds :
    (base : ℕ) (l : Log) (parts : List (List Record)) (last : List Record) (from : ℕ)
    (max_bytes max_offset : ℤ)
    → LogHolds base l parts last
    → base ≤ from
    → size_of (stretch base from (offset_limit l max_offset) (records parts last))
      ≤ byte_limit max_bytes
    → read l (pos from) max_bytes max_offset
      ≡ ok (stretch base from (offset_limit l max_offset) (records parts last))
unfolding read
read-LogHolds base l parts last from max_bytes max_offset h lo room =
    let limit = offset_limit l max_offset in
    let whole : flat (parts ++ last ∷ []) ≡ records parts last = flat-append parts last in
    elim (Bool-cases
      (leb_ℤ (pos l.active.next_offset) (pos from) || leb_ℤ (pos limit) (pos from))) [
        | inl out_of_range ↦ rw out_of_range (
            ap ok (
              sym (
                stretch_past base from limit (records parts last)
                  (past_end (leo-LogHolds h) out_of_range))))
        | inr in_range ↦ rw in_range (
            read_segments-window (segments l) (parts ++ last ∷ []) base (byte_limit max_bytes) limit
              0 from [] (Chain-segments h) lo (leb-false→lt limit from (ground arith))
              (rw whole (omega (arith, room)))
            ∙ ap (λ rs. ok (stretch base from limit rs)) whole)
      ]
