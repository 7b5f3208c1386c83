-- ===== src/Segment/Append.antt =====
-- `append` of internal/log/segment.go on a segment that holds records.
use logship.Prelude.{
  ℕ, ◌+◌, ◌-◌, ◌%◌, ◌<◌, ◌^◌, ◌≡◌, ◌≢◌, refl, List, [], ◌∷◌, ◌++◌, arith, append-nil, length,
  length-append, All, All-append, All-map, Bool-cases, inl, inr, ne→==-false, eq→==-true,
  take-length_append,
}
use logship.Record.{Record, frame, stamped, encode, encoded_size}
use logship.Record.Size.{length-encode}
use logship.Record.RoundTrip.{IsWire}
use logship.Index
use logship.Index.{IndexEntry, SparseIndex, done, failed}
use logship.Segment.{
  Segment, AppendIo, append, write_log, append_index, entry_for, index_due, counted, ok, err,
  offset_mismatch,
}
use logship.Segment.Contents.{
  Holds, PointsTo, bytes_of, size_of, bytes_of-append, size_of-append, length-le-size_of,
  Consecutive-append, PointsTo-append,
}

-- Every operation of the file system succeeds.
abbrev pub healthy : AppendIo
healthy = record { log_write = done; index_write = done }

size_of-one : (r : Record) → size_of (r ∷ []) ≡ encoded_size r
unfolding size_of
size_of-one r = omega arith

bytes_of-one : (r : Record) → bytes_of (r ∷ []) ≡ frame r
unfolding bytes_of
bytes_of-one r = append-nil (frame r)

pub encoded_size-stamped : (now : ℕ) (r : Record) → encoded_size (stamped now r) ≡ encoded_size r
unfolding encoded_size
encoded_size-stamped now r = refl

module _ (now : ℕ) (rec : Record) (s : Segment) (rs : List Record) (h : Holds s rs)
    (offset : rec.offset ≡ s.next_offset) (wire : IsWire (stamped now rec))
    (room : size_of rs + encoded_size rec < 2 ^ 32) where
  entry-PointsTo : PointsTo (rs ++ stamped now rec ∷ []) (entry_for s rec)
  entry-PointsTo =
      let rel : (rec.offset + 2 ^ 64 - s.base_offset) % 2 ^ 32 ≡ length rs =
        omega (arith, h.next, length-le-size_of rs, h.small) in
      let position : s.size % 2 ^ 32 ≡ size_of rs = omega (arith, h.size, h.small) in
      (
        omega (arith, rel, length-append rs (stamped now rec ∷ [])),
        rw (rel, position, take-length_append rs (stamped now rec ∷ []) (length rs) refl) refl,
      )

  indexed : All (PointsTo (rs ++ stamped now rec ∷ [])) s.idx.entries
  indexed = All-map s.idx.entries (λ e. PointsTo-append rs (stamped now rec ∷ []) e) h.index

  -- The new segment, as far as the index does not matter.
  grown-Holds :
      (since : ℕ) (idx : SparseIndex)
      → All (PointsTo (rs ++ stamped now rec ∷ [])) idx.entries
      → Holds
          (counted since
            (length (encode now rec))
            (record s { log_file = s.log_file ++ encode now rec; idx = idx }))
          (rs ++ stamped now rec ∷ [])
  grown-Holds since idx all =
      let more : size_of (rs ++ stamped now rec ∷ []) ≡ size_of rs + encoded_size rec = omega (
        arith,
        size_of-append rs (stamped now rec ∷ []),
        size_of-one (stamped now rec),
        encoded_size-stamped now rec,
      ) in
      record {
        file =
            rw (h.file, bytes_of-append rs (stamped now rec ∷ []), bytes_of-one (stamped now rec));
        size = omega (arith, more, h.size, length-encode now rec);
        next = omega (arith, h.next, length-append rs (stamped now rec ∷ []));
        consecutive =
            Consecutive-append s.base_offset rs (stamped now rec) h.consecutive
              (omega (arith, h.next, offset));
        wire = All-append IsWire rs (stamped now rec ∷ []) h.wire (wire, tt);
        index = all;
        small = omega (arith, more, room);
      }

  append_index-Holds :
      ((append_index done rec (encode now rec) s).0 ≡ ok rec.offset)
      × Holds (append_index done rec (encode now rec) s).1 (rs ++ stamped now rec ∷ [])
  unfolding append_index Index.append
  append_index-Holds = elim (Bool-cases (index_due s)) [
    | inl due ↦ rw due (
      refl,
      grown-Holds 0 (Index.append done s.idx (entry_for s rec)).0 (
          All-append (PointsTo (rs ++ stamped now rec ∷ [])) s.idx.entries (entry_for s rec ∷ [])
            indexed (entry-PointsTo, tt)),
    )
    | inr fresh ↦ rw fresh (refl, grown-Holds s.bytes_since_index s.idx indexed)
  ]

-- When the writes succeed, a record with the next offset that fits the format is appended to a
-- segment that stays below 4 GiB: the call returns its offset, and the segment holds one record
-- more, with the timestamp that `Encode` gives it.
pub append-Holds :
    (now : ℕ) (rec : Record) (s : Segment) (rs : List Record)
    → Holds s rs
    → rec.offset ≡ s.next_offset
    → IsWire (stamped now rec)
    → size_of rs + encoded_size rec < 2 ^ 32
    → ((append healthy now rec s).0 ≡ ok rec.offset)
      × Holds (append healthy now rec s).1 (rs ++ stamped now rec ∷ [])
unfolding append write_log
append-Holds now rec s rs h offset wire room =
    rw (eq→==-true rec.offset s.next_offset offset)
      (append_index-Holds now rec s rs h offset wire room)

-- Any other offset is refused, whatever the file system does, and nothing changes.
pub append-offset_mismatch :
    (fs : AppendIo) (now : ℕ) (rec : Record) (s : Segment)
    → rec.offset ≢ s.next_offset
    → append fs now rec s ≡ (err (offset_mismatch s.next_offset rec.offset), s)
unfolding append
append-offset_mismatch fs now rec s ne = rw (ne→==-false rec.offset s.next_offset ne)

-- No append moves the base offset.
pub base_offset-append :
    (fs : AppendIo) (now : ℕ) (rec : Record) (s : Segment)
    → (append fs now rec s).1.base_offset ≡ s.base_offset
unfolding append write_log append_index Index.append
base_offset-append fs now rec s = ground arith
