-- ===== src/Segment/Open/Sealed.antt =====
-- The scan of a segment that is not active: from its last index entry only.
use logship.Prelude.{
  ℕ, zero, suc, ◌+◌, ◌<◌, ◌^◌, ◌≡◌, ◌≢◌, refl, ap, sym, subst, ◌∙◌, true, false, List, [], ◌∷◌,
  ◌++◌, arith, append_assoc, length, length-append, take, drop, take-append-drop, All, Bytes, ◌==◌,
  if◌then◌else◌, drop-length_append, length-take, length-drop, ne→==-false,
}
use logship.Record
use logship.Record.{Record, decode, encoded_size}
use logship.Record.Size.{encoded_size-le}
use logship.Record.RoundTrip.{IsWire}
use logship.Index.{IndexEntry}
use logship.Segment.{Segment, ok}
use logship.Segment.Contents.{
  Holds, PointsTo, Consecutive, bytes_of, size_of, bytes_of-split, length-bytes_of,
}
use logship.Segment.Open.{tail_loop, recover_from, recover, last_entry}
use logship.Segment.Open.Torn.{
  IsTorn, at_end, in_header, in_payload, decode-tail, healthy, Split-step, read-next, stopped-Holds,
}
use logship.Segment.Open.Recovery.{
  CrashedHere, SplitHere, StoppedHere, cut, ended, encoded_size-le-size_of,
}

tail-step :
    (fuel : ℕ) (s : Segment) (unread : Bytes) (at next : ℕ) (r : Record)
    → decode unread ≡ Record.ok (r, encoded_size r)
    → tail_loop (suc fuel) true s unread at next
      ≡ tail_loop fuel true s (drop (encoded_size r) unread) (at + encoded_size r) (r.offset + 1)
unfolding tail_loop
tail-step fuel s unread at next r read = rw (read, tail_loop)

last_entry-All :
    (P : IndexEntry → Type 0) (e : IndexEntry) (es : List IndexEntry)
    → All P (e ∷ es)
    → P (last_entry e es)
last_entry-All P e [] h = h.0
last_entry-All P e (f ∷ es) h = last_entry-All P f es h.1

module _ (base : ℕ) (all : List Record) (torn : Bytes) (consecutive : Consecutive base all)
    (wire : All IsWire all) (small : size_of all < 2 ^ 32) (tail : IsTorn torn) where
  tail-end :
      (fuel : ℕ) (s : Segment) (before : List Record) (at next : ℕ)
      → CrashedHere base all torn consecutive wire small tail s
      → SplitHere base all torn consecutive wire small tail before [] torn at next
      → tail_loop (suc fuel) true s torn at next
        ≡ ok (StoppedHere base all torn consecutive wire small tail s s.bytes_since_index before)
  unfolding tail_loop
  tail-end fuel s before at next c v = elim (decode-tail torn tail) [
    | at_end none_torn d ↦
        rw (d, tail_loop)
          (ended base all torn consecutive wire small tail s at s.bytes_since_index before next
            none_torn c v)
    | in_header d ↦
        rw (d, tail_loop)
          (cut base all torn consecutive wire small tail s at s.bytes_since_index before next c v)
    | in_payload d ↦
        rw (d, tail_loop)
          (cut base all torn consecutive wire small tail s at s.bytes_since_index before next c v)
  ]

  tail_loop-Holds :
      (fuel : ℕ) (after before : List Record) (s : Segment) (unread : Bytes) (at next : ℕ)
      → CrashedHere base all torn consecutive wire small tail s
      → SplitHere base all torn consecutive wire small tail before after unread at next
      → length unread < fuel
      → (s' : Segment) × (tail_loop fuel true s unread at next ≡ ok s') × Holds s' all
  unfolding bytes_of
  tail_loop-Holds zero after before s unread at next c v f = absurd (omega arith)
  tail_loop-Holds (suc fuel) [] before s unread at next c v f =
      let nothing_left : unread ≡ torn = v.rest in
      (
        StoppedHere base all torn consecutive wire small tail s s.bytes_since_index before,
        rw nothing_left (
            tail-end fuel s before at next c (
              subst (λ u. SplitHere base all torn consecutive wire small tail before [] u at next)
                nothing_left v)),
        stopped-Holds base all torn consecutive wire small tail s s.bytes_since_index before c
            v.whole,
      )
  tail_loop-Holds (suc fuel) (r ∷ after) before s unread at next c v f =
      let read = read-next base all torn consecutive wire small tail before after r v in
      let v' =
        Split-step base all torn consecutive wire small tail before after r (encoded_size r) v
          refl in
      let shorter : length (drop (encoded_size r) unread) < fuel = omega (
        arith,
        length-drop (encoded_size r) unread,
        encoded_size-le r,
        ap length v.rest,
        length-append (bytes_of (r ∷ after)) torn,
        length-bytes_of (r ∷ after),
        encoded_size-le-size_of r after,
      ) in
      let ih =
        tail_loop-Holds fuel after (before ++ r ∷ []) s (drop (encoded_size r) unread)
          (at + encoded_size r) (r.offset + 1) c v' shorter in
      (ih.0, tail-step fuel s unread at next r read ∙ ih.1, ih.2)

-- When the file system works, a segment that is not active, with consecutive records that fit the
-- format, below 4 GiB, and then a torn one in its file, is recovered from its last index entry. There
-- is an entry, and the entries name records of the segment: it holds exactly the records in front of the torn one.
pub recover-sealed :
    (s : Segment) (all : List Record) (torn : Bytes)
    → Consecutive s.base_offset all
    → All IsWire all
    → size_of all < 2 ^ 32
    → IsTorn torn
    → s.log_file ≡ bytes_of all ++ torn
    → s.size ≢ 0
    → All (PointsTo all) s.idx.entries
    → s.idx.entries ≢ []
    → (s' : Segment) × (recover healthy false s ≡ ok s') × Holds s' all
unfolding recover recover_from
recover-sealed s all torn c w small t file some_bytes index some_entries =
    from_entries s.idx.entries index some_entries
  where
    from_last :
        (last : IndexEntry)
        → PointsTo all last
        → (s' : Segment) × (tail_loop
              (suc (length s.log_file))
              true
              s
              (drop last.position s.log_file)
              last.position
              (s.base_offset + last.rel_offset)
            ≡ ok s')
          × Holds s' all
    from_last last p =
        tail_loop-Holds s.base_offset all torn c w small t (suc (length s.log_file))
          (drop last.rel_offset all) (take last.rel_offset all) s (drop last.position s.log_file)
          last.position (s.base_offset + last.rel_offset)
          (record { same_base = refl; file = file; index = index })
          (record {
            whole = sym (take-append-drop last.rel_offset all);
            rest =
                ap (drop last.position) (
                  file
                  ∙ ap (λ b. b ++ torn) (bytes_of-split last.rel_offset all)
                  ∙ append_assoc (bytes_of (take last.rel_offset all))
                      (bytes_of (drop last.rel_offset all)) torn)
                ∙ drop-length_append (bytes_of (take last.rel_offset all))
                    (bytes_of (drop last.rel_offset all) ++ torn) last.position
                    (p.1 ∙ sym (length-bytes_of (take last.rel_offset all)));
            position = p.1;
            offset = omega (arith, length-take last.rel_offset all, p.0);
          })
          (omega (arith, length-drop last.position s.log_file))

    from_entries :
        (es : List IndexEntry)
        → All (PointsTo all) es
        → es ≢ []
        → (s' : Segment) × ((if s.size == 0
              then ok (record s { next_offset = s.base_offset })
              else recover_from healthy s es)
            ≡ ok s')
          × Holds s' all
    from_entries [] points ne = absurd (ne refl)
    from_entries (e ∷ es) points ne =
        let found = from_last (last_entry e es) (last_entry-All (PointsTo all) e es points) in
        (found.0, rw (ne→==-false s.size 0 some_bytes) found.1, found.2)
