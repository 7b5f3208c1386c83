-- ===== src/Log/Visible.antt =====
-- `Read` of internal/log/log.go and its offset limit, whatever the segments hold.
use logship.Prelude.{
  ℕ, zero, suc, ◌+◌, ◌-◌, ◌<◌, ◌≡◌, refl, subst, not, ◌&&◌, ◌||◌, List, [], ◌∷◌, ◌++◌, All,
  All-append, leb, ltb, leb-false→lt, Bool-cases, inl, inr, either_branch,
}
use logship.Prelude.Int.{ℤ, pos, negsuc, leb_ℤ}
use logship.Record
use logship.Record.{Record, decode_at}
use logship.Segment.{Segment, Query, Result, ok, read_loop, read_from}
use logship.Log.Members.{Only, segment_round}
use logship.Log.{Log, read_segments, read, segments, byte_limit}

abbrev pub IsBelow : ℕ → Record → Type 0
IsBelow max r = r.offset < max

-- The records that come out are below `max`.
abbrev pub Below : ℕ → Result (List Record) → Type 0
Below max = Only (IsBelow max)

-- One round, by what is read.
read_round :
    (fuel : ℕ) (q : Query) (at n : ℕ) (out : List Record) (found : Record.Result (Record × ℕ))
    → decode_at q.file at ≡ found
    → All (IsBelow q.max_offset) out
    → ((a m : ℕ) (o : List Record)
        → All (IsBelow q.max_offset) o
        → Below q.max_offset (read_loop fuel q a m o))
    → Below q.max_offset (read_loop (suc fuel) q at n out)
unfolding read_loop
read_round fuel q at n out (Record.err Record.eof) e low rest =
    rw (e, Below) (either_branch (Below q.max_offset) (not (ltb at q.size)) low low)
read_round fuel q at n out (Record.err Record.unexpected_eof) e low rest =
    rw (e, Below) (either_branch (Below q.max_offset) (not (ltb at q.size)) low tt)
read_round fuel q at n out (Record.err Record.corrupt) e low rest =
    rw (e, Below) (either_branch (Below q.max_offset) (not (ltb at q.size)) low tt)
read_round fuel q at n out (Record.err Record.bad_magic) e low rest =
    rw (e, Below) (either_branch (Below q.max_offset) (not (ltb at q.size)) low tt)
read_round fuel q at n out Record.panic e low rest =
    rw (e, Below) (either_branch (Below q.max_offset) (not (ltb at q.size)) low tt)
read_round fuel q at n out (Record.ok (r, sz)) e low rest =
    let P = Below q.max_offset in
    rw (e, Below)
      (either_branch P (not (ltb at q.size)) low (
        either_branch P (ltb r.offset q.from_offset) (rest _ _ _ low)
          (elim (Bool-cases (leb q.max_offset r.offset)) [
            | inl over ↦ rw (over, Below) low
            | inr under ↦
                let longer : All (IsBelow q.max_offset) (out ++ r ∷ []) =
                  All-append (IsBelow q.max_offset) out (r ∷ []) low
                    (leb-false→lt q.max_offset r.offset under, tt) in
                rw (under, Below)
                  (either_branch P (ltb 0 n && ltb q.max_bytes (n + sz)) low
                    (either_branch P (leb q.max_bytes (n + sz)) longer (rest _ _ _ longer)))
          ])))

read_loop-Below :
    (fuel : ℕ) (q : Query) (at n : ℕ) (out : List Record)
    → All (IsBelow q.max_offset) out
    → Below q.max_offset (read_loop fuel q at n out)
read_loop-Below zero q at n out low = unfold read_loop in tt
read_loop-Below (suc fuel) q at n out low =
    read_round fuel q at n out (decode_at q.file at) refl low
      (λ a m o lo. read_loop-Below fuel q a m o lo)

read_from-Below :
    (s : Segment) (from : ℤ) (max_bytes max : ℕ) → Below max (read_from s from max_bytes (pos max))
unfolding read_from
read_from-Below s (negsuc from) max_bytes max = tt
read_from-Below s (pos from) max_bytes max =
    either_branch (Below max) (ltb from s.base_offset || leb s.next_offset from) tt
      (either_branch (Below max) (leb max from) tt (read_loop-Below _ _ _ 0 [] tt))

read_segments-Below :
    (ss : List Segment) (max_bytes max : ℕ) (from : ℤ) (n : ℕ) (out : List Record)
    → All (IsBelow max) out
    → Below max (read_segments ss max_bytes max from n out)
read_segments-Below [] max_bytes max from n out low = unfold read_segments in low
read_segments-Below (s ∷ ss) max_bytes max from n out low =
    segment_round (IsBelow max) s ss max_bytes max from n out
      (read_from s from (max_bytes - n) (pos max)) refl (read_from-Below s from (max_bytes - n) max)
      low (λ f m o lo. read_segments-Below ss max_bytes max f m o lo)

-- Whatever the segments hold, `Read` gives no record at or above an offset limit that is not negative.
pub read-Below :
    (l : Log) (from max_bytes : ℤ) (max : ℕ) (rs : List Record)
    → read l from max_bytes (pos max) ≡ ok rs
    → All (IsBelow max) rs
read-Below l from max_bytes max rs e = subst (Below max) e (
    unfold read in
    either_branch (Below max) (leb_ℤ (pos l.active.next_offset) from || leb_ℤ (pos max) from) tt
      (read_segments-Below (segments l) (byte_limit max_bytes) max from 0 [] tt))
