-- ===== src/Segment/Open/Torn.antt =====
-- A segment after a crash: its file holds whole records and then a torn one. Facts that both scans
-- of `recover` use, for a scan that has read some of the records.
use logship.Prelude.{
  ℕ, suc, ◌+◌, ◌-◌, ◌%◌, ◌<◌, ◌^◌, ◌≡◌, refl, ap, sym, subst, ◌∙◌, true, List, [], ◌∷◌, ◌++◌, arith,
  append_assoc, append-nil, length, length-append, take, drop, All, All-append_right, Bytes,
  drop-length_append, take-length_append,
}
use native.Mathlib.Decide.{dec_lt, dec_le}
use logship.Record
use logship.Record.{Record, frame, decode, encoded_size}
use logship.Record.Size.{length-frame}
use logship.Record.RoundTrip.{IsWire, decode-frame}
use logship.Record.Damage.{frame-torn, torn_error}
use logship.Segment.{Segment}
use logship.Segment.Contents.{
  Holds, PointsTo, Consecutive, bytes_of, size_of, length-le-size_of, size_of-append,
}
use logship.Segment.Open.{OpenIo}

-- What a crash in the middle of an append leaves behind the whole records: a proper part of a
-- frame, perhaps none of it.
pub record IsTorn (torn : Bytes) : Type 0 where
  pub rec : Record
  pub kept : ℕ
  pub wire : IsWire rec
  pub short : kept < encoded_size rec
  pub bytes : torn ≡ take kept (frame rec)

pub data TailError (torn : Bytes) : Type 0 where
  at_end : torn ≡ [] → decode torn ≡ Record.err Record.eof → TailError torn
  in_header : decode torn ≡ Record.err Record.unexpected_eof → TailError torn
  in_payload : decode torn ≡ Record.err Record.corrupt → TailError torn

pub decode-tail : (torn : Bytes) → IsTorn torn → TailError torn
decode-tail torn t =
    let read : decode torn ≡ Record.err (torn_error t.kept) =
      ap decode t.bytes ∙ frame-torn t.rec t.kept t.wire t.short in
    elim (dec_le t.kept 0) [
      | yes none_kept ↦
          let zero_kept : t.kept ≡ 0 = omega arith in
          at_end (t.bytes ∙ ap (λ k. take k (frame t.rec)) zero_kept) (rw zero_kept at read)
      | no some_kept ↦ elim (dec_lt t.kept 8) [
        | yes short ↦ in_header (read ∙ ground arith)
        | no long ↦ in_payload (read ∙ ground arith)
      ]
    ]

-- Every operation of the file system succeeds.
abbrev pub healthy : OpenIo
healthy = record { truncate_log = true; truncate_index = true; index_writes = [] }

Consecutive-at :
    (base : ℕ) (before : List Record) (r : Record) (after : List Record)
    → Consecutive base (before ++ r ∷ after)
    → r.offset ≡ base + length before
Consecutive-at base [] r after c = omega (arith, c.0)
Consecutive-at base (x ∷ before) r after c =
    omega (arith, Consecutive-at (base + 1) before r after c.1)

module _ (base : ℕ) (all : List Record) (torn : Bytes) (consecutive : Consecutive base all)
    (wire : All IsWire all) (small : size_of all < 2 ^ 32) (tail : IsTorn torn) where
  -- A segment whose file holds all the records and the torn tail, whatever its counters say.
  pub record Crashed (s : Segment) : Type 0 where
    pub same_base : s.base_offset ≡ base
    pub file : s.log_file ≡ bytes_of all ++ torn
    pub index : All (PointsTo all) s.idx.entries

  -- A loop has read `before` and has `after` in front of it.
  pub record Split (before after : List Record) (unread : Bytes) (at next : ℕ) : Type 0 where
    pub whole : all ≡ before ++ after
    pub rest : unread ≡ bytes_of after ++ torn
    pub position : at ≡ size_of before
    pub offset : next ≡ base + length before

  pub Split-step :
      (before after : List Record) (r : Record) {unread : Bytes} {at next : ℕ} (n : ℕ)
      → Split before (r ∷ after) unread at next
      → n ≡ encoded_size r
      → Split (before ++ r ∷ []) after (drop n unread) (at + encoded_size r) (r.offset + 1)
  unfolding bytes_of size_of
  Split-step before after r n v e = record {
    whole = v.whole ∙ sym (append_assoc before (r ∷ []) after);
    rest =
        ap (drop n) (v.rest ∙ append_assoc (frame r) (bytes_of after) torn)
        ∙ drop-length_append (frame r) (bytes_of after ++ torn) n
            (omega (arith, e, length-frame r));
    position = omega (arith, v.position, size_of-append before (r ∷ []));
    offset = omega (
      arith,
      length-append before (r ∷ []),
      Consecutive-at base before r after (subst (Consecutive base) v.whole consecutive),
    );
  }

  IsWire-here : (before after : List Record) (r : Record) → all ≡ before ++ r ∷ after → IsWire r
  IsWire-here before after r e =
      (All-append_right IsWire before (r ∷ after) (subst (All IsWire) e wire)).0

  pub read-next :
      (before after : List Record) (r : Record) {unread : Bytes} {at next : ℕ}
      → Split before (r ∷ after) unread at next
      → decode unread ≡ Record.ok (r, encoded_size r)
  unfolding bytes_of
  read-next before after r v =
      ap decode (v.rest ∙ append_assoc (frame r) (bytes_of after) torn)
      ∙ decode-frame r (IsWire-here before after r v.whole) (bytes_of after ++ torn)

  pub entry-PointsTo :
      (before after : List Record) (r : Record) (s : Segment) (at : ℕ)
      → Crashed s
      → all ≡ before ++ r ∷ after
      → at ≡ size_of before
      → PointsTo all (record {
        rel_offset = (r.offset + 2 ^ 64 - s.base_offset) % 2 ^ 32;
        position = at % 2 ^ 32;
      })
  entry-PointsTo before after r s at c e l =
      let len : length all ≡ length before + suc (length after) =
        ap length e ∙ length-append before (r ∷ after) in
      let bytes : size_of all ≡ size_of before + size_of (r ∷ after) =
        ap size_of e ∙ size_of-append before (r ∷ after) in
      let rel : (r.offset + 2 ^ 64 - s.base_offset) % 2 ^ 32 ≡ length before = omega (
        arith,
        c.same_base,
        length-le-size_of all,
        Consecutive-at base before r after (subst (Consecutive base) e consecutive),
      ) in
      let front : take (length before) all ≡ before =
        ap (take (length before)) e ∙ take-length_append before (r ∷ after) (length before) refl in
      (omega (arith, rel, len), rw (rel, front) (omega arith))

  -- Where a loop stops, the torn tail has been cut off.
  unfoldable pub stopped : Segment → ℕ → List Record → Segment
  stopped s since before = record s {
    log_file = bytes_of all;
    size = size_of before;
    next_offset = base + length before;
    bytes_since_index = since;
  }

  pub stopped-Holds :
      (s : Segment) (since : ℕ) (before : List Record)
      → Crashed s
      → all ≡ before ++ []
      → Holds (stopped s since before) all
  unfolding stopped
  stopped-Holds s since before c e =
      let whole : all ≡ before = e ∙ append-nil before in
      record {
        file = refl;
        size = ap size_of (sym whole);
        next = omega (arith, c.same_base, ap length whole);
        consecutive = rw c.same_base consecutive;
        wire = wire;
        index = c.index;
        small = small;
      }
