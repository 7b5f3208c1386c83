-- ===== src/Log/Members.antt =====
-- `Read` of internal/log/log.go, where the byte budget may be met: which records come out.
use logship.Prelude.{
  ℕ, ◌+◌, ◌-◌, ◌≡◌, refl, subst, sym, ◌&&◌, ◌||◌, List, [], ◌∷◌, ◌++◌, OneOf, OneOf-all, All,
  All-append, All-append_left, All-append_right, length, All-take, All-drop, take, drop, leb, ltb,
  Bool-cases, inl, inr, either_branch, arith, ltb-false→le, leb-false→lt,
}
use logship.Prelude.Int.{ℤ, pos, negsuc, leb_ℤ}
use logship.Record.{Record, encoded_size}
use logship.Segment.{Segment, Result, ok, err, panic, stuck, read_from}
use logship.Segment.Contents.{Holds, size_of}
use logship.Segment.Read.{budget, read_from-Holds}
use logship.Log.{Log, read_segments, read, segments, byte_limit, offset_limit}
use logship.Log.Chain.{LogHolds, Chain, flat, flat-append, records, Chain-segments}

-- All records that come out, if any do, have the property.
abbrev pub Only : (Record → Type 0) → Result (List Record) → Type 0
Only P (ok rs) = All P rs
Only P _ = Unit

module _ (P : Record → Type 0) where
  budget-All : (max_bytes n : ℕ) (rs : List Record) → All P rs → All P (budget max_bytes n rs)
  unfolding budget
  budget-All max_bytes n [] h = tt
  budget-All max_bytes n (r ∷ rs) h =
      let used = n + encoded_size r in
      either_branch (All P) (ltb 0 n && ltb max_bytes used) tt (
        either_branch (All P) (leb max_bytes used) (h.0, tt)
          (h.0, budget-All max_bytes used rs h.1))

  read_from-Only :
      (s : Segment) (rs : List Record) (from : ℤ) (max_bytes max : ℕ)
      → Holds s rs
      → All P rs
      → Only P (read_from s from max_bytes (pos max))
  read_from-Only s rs (negsuc from) max_bytes max h all = unfold read_from in tt
  read_from-Only s rs (pos from) max_bytes max h all =
      elim (Bool-cases (ltb from s.base_offset || leb s.next_offset from)) [
        | inl out ↦ unfold read_from in rw (out, Only) tt
        | inr within ↦ elim (Bool-cases (leb max from)) [
          | inl over ↦ unfold read_from in rw (within, over, Only) tt
          | inr under ↦
              let lo = ltb-false→le from s.base_offset (ground arith) in
              let hi = leb-false→lt s.next_offset from (ground arith) in
              subst (Only P)
                (sym
                  (read_from-Holds s rs h from max_bytes max lo hi (leb-false→lt max from under)))
                (budget-All max_bytes 0 (take (max - from) (drop (from - s.base_offset) rs)) (
                  All-take P (max - from) (drop (from - s.base_offset) rs)
                    (All-drop P (from - s.base_offset) rs all)))
        ]
      ]

  pub segment_round :
      (s : Segment) (ss : List Segment) (max_bytes max : ℕ) (from : ℤ) (n : ℕ) (out : List Record)
      (found : Result (List Record))
      → read_from s from (max_bytes - n) (pos max) ≡ found
      → Only P found
      → All P out
      → ((f : ℤ) (m : ℕ) (o : List Record)
          → All P o
          → Only P (read_segments ss max_bytes max f m o))
      → Only P (read_segments (s ∷ ss) max_bytes max from n out)
  unfolding read_segments
  segment_round s ss max_bytes max from n out (err x) e good all rest =
      rw (e, Only)
        (either_branch (Only P) (leb_ℤ (pos s.next_offset) from) (rest _ _ _ all)
          (either_branch (Only P) (leb max s.base_offset) all tt))
  segment_round s ss max_bytes max from n out panic e good all rest =
      rw (e, Only)
        (either_branch (Only P) (leb_ℤ (pos s.next_offset) from) (rest _ _ _ all)
          (either_branch (Only P) (leb max s.base_offset) all tt))
  segment_round s ss max_bytes max from n out stuck e good all rest =
      rw (e, Only)
        (either_branch (Only P) (leb_ℤ (pos s.next_offset) from) (rest _ _ _ all)
          (either_branch (Only P) (leb max s.base_offset) all tt))
  segment_round s ss max_bytes max from n out (ok recs) e good all rest =
      let both = All-append P out recs all good in
      rw (e, Only)
        (either_branch (Only P) (leb_ℤ (pos s.next_offset) from) (rest _ _ _ all) (
          either_branch (Only P) (leb max s.base_offset) all
            (either_branch (Only P) (leb max_bytes (n + size_of recs)) both (rest _ _ _ both))))

  read_segments-Only :
      (ss : List Segment) (cs : List (List Record)) (base max_bytes max : ℕ) (from : ℤ) (n : ℕ)
      (out : List Record)
      → Chain base ss cs
      → All P (flat cs)
      → All P out
      → Only P (read_segments ss max_bytes max from n out)
  read_segments-Only [] cs base max_bytes max from n out h kept all = unfold read_segments in all
  read_segments-Only (s ∷ ss) [] base max_bytes max from n out h kept all = absurd h
  read_segments-Only (s ∷ ss) (c ∷ cs) base max_bytes max from n out h kept all =
      segment_round s ss max_bytes max from n out (read_from s from (max_bytes - n) (pos max)) refl
        (read_from-Only s c from (max_bytes - n) max h.1 (All-append_left P c (flat cs) kept)) all
        (λ f m o good.
          read_segments-Only ss cs (base + length c) max_bytes max f m o h.2
            (All-append_right P c (flat cs) kept) good)

  pub read-Only :
      (base : ℕ) (l : Log) (parts : List (List Record)) (last : List Record)
      (from max_bytes max : ℤ)
      → LogHolds base l parts last
      → All P (records parts last)
      → Only P (read l from max_bytes max)
  unfolding read
  read-Only base l parts last from max_bytes max h kept =
      either_branch (Only P)
        (leb_ℤ (pos l.active.next_offset) from || leb_ℤ (pos (offset_limit l max)) from) tt
        (read_segments-Only (segments l) (parts ++ last ∷ []) base (byte_limit max_bytes)
          (offset_limit l max) from 0 [] (Chain-segments h) (rw (flat-append parts last) kept) tt)

-- Whatever the request and its byte limit, if `Read` gives records of a log then each of them is one that the log
-- holds, with the offset, the time, the key and the value that it was appended with.
pub read-OneOf :
    (base : ℕ) (l : Log) (parts : List (List Record)) (last : List Record) (from max_bytes max : ℤ)
    (rs : List Record)
    → LogHolds base l parts last
    → read l from max_bytes max ≡ ok rs
    → All (OneOf (records parts last)) rs
read-OneOf base l parts last from max_bytes max rs h e =
    let all = records parts last in
    subst (Only (OneOf all)) e
      (read-Only (OneOf all) base l parts last from max_bytes max h (OneOf-all all all (λ r a. a)))
