-- ===== src/Segment/Open/Recovery.antt =====
-- The scan of a whole segment, internal/log/segment.go, after a crash in the middle of an append.
use logship.Prelude.{
  ℕ, zero, suc, ◌+◌, ◌-◌, ◌%◌, ◌≤◌, ◌<◌, ◌^◌, ◌≡◌, refl, ap, sym, subst, ◌∙◌, inl, inr, true, false,
  ◌||◌, List, [], ◌∷◌, ◌++◌, arith, append-nil, empty_of_length, length, length-append, take, drop,
  All, All-append, Bytes, leb, ◌==◌, take-length_append, Bool-cases, length-drop, ==_iff,
}
use logship.Record
use logship.Record.{Record, frame, decode, encoded_size}
use logship.Record.Size.{encoded_size-le}
use logship.Record.RoundTrip.{IsWire}
use logship.Index
use logship.Index.{IndexEntry, SparseIndex}
use logship.Segment.{Segment, Result, ok}
use logship.Segment.Contents.{
  Holds, PointsTo, Consecutive, bytes_of, size_of, length-bytes_of, length-le-size_of,
}
use logship.Segment.Open.{scan_loop, recover_from, recover, cut_tail}
use logship.Segment.Open.Torn.{
  IsTorn, at_end, in_header, in_payload, decode-tail, healthy, Crashed, Split, Split-step,
  read-next, entry-PointsTo, stopped, stopped-Holds,
}

pub encoded_size-le-size_of : (r : Record) (rs : List Record) → encoded_size r ≤ size_of (r ∷ rs)
unfolding size_of
encoded_size-le-size_of r rs = omega arith

-- The segment with one index entry more.
abbrev indexed : Segment → Record → ℕ → Segment
indexed s r at = record s {
  idx =
      (Index.append Index.done s.idx (record {
        rel_offset = (r.offset + 2 ^ 64 - s.base_offset) % 2 ^ 32;
        position = at % 2 ^ 32;
      })).0;
}

-- One round of the scan that reads a record, and then writes an index entry or not.
module _ (fuel : ℕ) (s : Segment) (unread : Bytes) (at next since : ℕ) (r : Record)
    (read : decode unread ≡ Record.ok (r, encoded_size r)) where
  scan-due :
      (since == 0 || leb s.index_interval since) ≡ true
      → scan_loop (suc fuel) healthy s unread at next since
        ≡ scan_loop fuel healthy
            (indexed s r at)
            (drop (encoded_size r) unread)
            (at + encoded_size r)
            (r.offset + 1)
            (encoded_size r)
  unfolding scan_loop Index.append
  scan-due due = rw (read, scan_loop) (rw due)

  scan-not_due :
      (since == 0 || leb s.index_interval since) ≡ false
      → scan_loop (suc fuel) healthy s unread at next since
        ≡ scan_loop fuel healthy s
            (drop (encoded_size r) unread)
            (at + encoded_size r)
            (r.offset + 1)
            (since + encoded_size r)
  unfolding scan_loop Index.append
  scan-not_due fresh = rw (read, scan_loop) (rw fresh)

module _ (base : ℕ) (all : List Record) (torn : Bytes) (consecutive : Consecutive base all)
    (wire : All IsWire all) (small : size_of all < 2 ^ 32) (tail : IsTorn torn) where
  abbrev pub CrashedHere : Segment → Type 0
  CrashedHere = Crashed base all torn consecutive wire small tail

  abbrev pub SplitHere : List Record → List Record → Bytes → ℕ → ℕ → Type 0
  SplitHere = Split base all torn consecutive wire small tail

  abbrev pub StoppedHere : Segment → ℕ → List Record → Segment
  StoppedHere = stopped base all torn consecutive wire small tail

  pub cut :
      (s : Segment) (at since : ℕ) (before : List Record) (next : ℕ)
      → CrashedHere s
      → SplitHere before [] torn at next
      → cut_tail true at (record s { size = at; next_offset = next; bytes_since_index = since })
        ≡ ok (StoppedHere s since before)
  unfolding stopped
  cut s at since before next c v =
      let size : at ≡ length (bytes_of all) =
        v.position ∙ ap size_of (sym (v.whole ∙ append-nil before)) ∙ sym (length-bytes_of all) in
      let front : take at s.log_file ≡ bytes_of all =
        ap (take at) c.file ∙ take-length_append (bytes_of all) torn at size in
      λ i. ok (record s {
        log_file = front i;
        size = v.position i;
        next_offset = v.offset i;
        bytes_since_index = since;
      })

  pub ended :
      (s : Segment) (at since : ℕ) (before : List Record) (next : ℕ)
      → torn ≡ []
      → CrashedHere s
      → SplitHere before [] torn at next
      → Result.ok (record s { size = at; next_offset = next; bytes_since_index = since })
        ≡ ok (StoppedHere s since before)
  unfolding stopped
  ended s at since before next none_torn c v =
      let front : s.log_file ≡ bytes_of all =
        c.file ∙ ap (λ t. bytes_of all ++ t) none_torn ∙ append-nil (bytes_of all) in
      λ i. ok (record s {
        log_file = front i;
        size = v.position i;
        next_offset = v.offset i;
        bytes_since_index = since;
      })

  scan-end :
      (fuel : ℕ) (s : Segment) (before : List Record) (at next since : ℕ)
      → CrashedHere s
      → SplitHere before [] torn at next
      → scan_loop (suc fuel) healthy s torn at next since ≡ ok (StoppedHere s since before)
  unfolding scan_loop
  scan-end fuel s before at next since c v = elim (decode-tail torn tail) [
    | at_end none_torn d ↦ rw (d, scan_loop) (ended s at since before next none_torn c v)
    | in_header d ↦ rw (d, scan_loop) (cut s at since before next c v)
    | in_payload d ↦ rw (d, scan_loop) (cut s at since before next c v)
  ]

  pub scan_loop-Holds :
      (fuel : ℕ) (after before : List Record) (s : Segment) (unread : Bytes) (at next since : ℕ)
      → CrashedHere s
      → SplitHere before after unread at next
      → length unread < fuel
      → (s' : Segment) × (scan_loop fuel healthy s unread at next since ≡ ok s') × Holds s' all
  unfolding bytes_of Index.append
  scan_loop-Holds zero after before s unread at next since c v f = absurd (omega arith)
  scan_loop-Holds (suc fuel) [] before s unread at next since c v f =
      let nothing_left : unread ≡ torn = v.rest in
      (
        StoppedHere s since before,
        rw nothing_left (
            scan-end fuel s before at next since c
              (subst (λ u. SplitHere before [] u at next) nothing_left v)),
        stopped-Holds base all torn consecutive wire small tail s since before c v.whole,
      )
  scan_loop-Holds (suc fuel) (r ∷ after) before s unread at next since c v f =
      let read = read-next base all torn consecutive wire small tail before after r v in
      let v' =
        Split-step base all torn consecutive wire small tail before after r (encoded_size r) v
          refl in
      let shorter : length (drop (encoded_size r) unread) < fuel = omega (
        arith,
        length-drop (encoded_size r) unread,
        encoded_size-le r,
        ap length v.rest,
        length-append (bytes_of (r ∷ after)) torn,
        length-bytes_of (r ∷ after),
        encoded_size-le-size_of r after,
      ) in
      elim (Bool-cases (since == 0 || leb s.index_interval since)) [
        | inl due ↦
            let entry =
              entry-PointsTo base all torn consecutive wire small tail before after r s at c v.whole
                v.position in
            let c' : CrashedHere (indexed s r at) = record {
              same_base = c.same_base;
              file = c.file;
              index = All-append (PointsTo all) s.idx.entries (_ ∷ []) c.index (entry, tt);
            } in
            let ih =
              scan_loop-Holds fuel after (before ++ r ∷ []) (indexed s r at)
                (drop (encoded_size r) unread) (at + encoded_size r) (r.offset + 1) (encoded_size r)
                c' v' shorter in
            (ih.0, scan-due fuel s unread at next since r read due ∙ ih.1, ih.2)
        | inr fresh ↦
            let ih =
              scan_loop-Holds fuel after (before ++ r ∷ []) s (drop (encoded_size r) unread)
                (at + encoded_size r) (r.offset + 1) (since + encoded_size r) c v' shorter in
            (ih.0, scan-not_due fuel s unread at next since r read fresh ∙ ih.1, ih.2)
      ]

empty_of_size : (rs : List Record) → size_of rs ≡ 0 → rs ≡ []
empty_of_size rs e = empty_of_length rs (omega (arith, length-le-size_of rs))

-- When the file system works, an active segment whose file holds records that fit the format, below
-- 4 GiB, and then a torn one is recovered: it holds exactly
-- those records, and it is ready for the next append. Of an empty file the index must be empty too.
pub recover-active :
    (s : Segment) (all : List Record) (torn : Bytes)
    → Consecutive s.base_offset all
    → All IsWire all
    → size_of all < 2 ^ 32
    → IsTorn torn
    → s.log_file ≡ bytes_of all ++ torn
    → s.size ≡ length s.log_file
    → (s.size ≡ 0 → s.idx.entries ≡ [])
    → (s' : Segment) × (recover healthy true s ≡ ok s') × Holds s' all
unfolding recover recover_from bytes_of
recover-active s all torn c w small t file size fresh = elim (Bool-cases (s.size == 0)) [
  | inl e ↦
      let zero_size : s.size ≡ 0 = (==_iff s.size 0).0 e in
      let none_held : all ≡ [] =
        empty_of_size all
          (omega (arith, ap length file, length-append (bytes_of all) torn, length-bytes_of all)) in
      let no_bytes : s.log_file ≡ [] = empty_of_length s.log_file (omega arith) in
      (
        record s { next_offset = s.base_offset },
        rw e refl,
        subst (Holds (record s { next_offset = s.base_offset })) (sym none_held) (record {
          file = no_bytes;
          size = unfold size_of in zero_size;
          next = omega arith;
          consecutive = tt;
          wire = tt;
          index = subst (All (PointsTo [])) (sym (fresh zero_size)) tt;
          small = unfold size_of in omega arith;
        }),
      )
  | inr e ↦
      let found =
        scan_loop-Holds s.base_offset all torn c w small t (suc (length s.log_file)) all []
          (record s { idx = record { file = []; cursor = 0; entries = [] } }) s.log_file 0
          s.base_offset 0 (record { same_base = refl; file = file; index = tt })
          (record {
            whole = refl;
            rest = file;
            position = unfold size_of in refl;
            offset = omega arith;
          })
          (omega arith) in
      (found.0, rw e found.1, found.2)
]
