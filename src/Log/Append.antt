-- ===== src/Log/Append.antt =====
-- `Append` and `AppendAt` of internal/log/log.go on a log that holds records.
use logship.Prelude.{
  ℕ, ◌+◌, ◌<◌, ◌^◌, ◌≡◌, ◌≢◌, refl, ap, sym, subst, ◌∙◌, true, false, ◌&&◌, inl, inr, some, List,
  [], ◌∷◌, ◌++◌, arith, append_assoc, append-nil, length, ltb, ◌==◌, if◌then◌else◌, Bool-cases,
  Bytes, eq→==-true, ne→==-false,
}
use logship.Record.{Record, stamped, encoded_size}
use logship.Record.Size.{encoded_size-eq_payload}
use logship.Record.RoundTrip.{IsWire}
use logship.Index.{load, load_entries}
use logship.Segment
use logship.Segment.{Segment, Result, ok, err, create_segment, offset_mismatch}
use logship.Segment.Contents.{size_of, bytes_of}
use logship.Segment.Append.{append-Holds, encoded_size-stamped, base_offset-append}
use logship.Segment.Append as SegmentAppend
use logship.Log.{
  Log, LogIo, leo, rotate, sync_appended, finish_append, append_active, append_rotated,
  append_locked, append, append_at,
}
use logship.Log.Chain.{LogHolds, Chain-append, flat, flat-append, records, leo-LogHolds}

-- The clock shows `now`, and every operation of the file system succeeds.
abbrev pub healthy : ℕ → LogIo
healthy now = record {
  now = now;
  rotate_flush = true;
  create = some [];
  write = SegmentAppend.healthy;
  fsync = true;
}

-- What an append of `rec` has done to a log that held `before`.
pub record Appended (base : ℕ) (before : List Record) (l : Log) (rec : Record)
    (out : Result ℕ × Log) : Type 0 where
  pub parts : List (List Record)
  pub last : List Record
  pub offset : out.0 ≡ ok (base + length before)
  pub held : LogHolds base out.1 parts last
  pub grown : records parts last ≡ before ++ rec ∷ []
  pub same_hw : out.1.hw ≡ l.hw
  pub same_cfg : out.1.cfg ≡ l.cfg

finish-healthy :
    (now off : ℕ) (l : Log) (s : Segment)
    → finish_append (healthy now) l (ok off, s)
      ≡ (ok off, record l { active = s; appends = l.appends + 1 })
unfolding finish_append sync_appended
finish-healthy now off l s = ground arith

append_active-Appended :
    (now base : ℕ) (rec : Record) (l : Log) (parts : List (List Record)) (last : List Record)
    → LogHolds base l parts last
    → rec.offset ≡ l.active.next_offset
    → IsWire (stamped now rec)
    → size_of last + encoded_size rec < 2 ^ 32
    → Appended base (records parts last) l (stamped now rec) (append_active (healthy now) rec l)
unfolding append_active
append_active-Appended now base rec l parts last h offset wire room =
    let added = append-Holds now rec l.active last h.active offset wire room in
    let s' = (Segment.append SegmentAppend.healthy now rec l.active).1 in
    let out : append_active (healthy now) rec l
        ≡ (ok rec.offset, record l { active = s'; appends = l.appends + 1 }) =
      ap (λ r. finish_append (healthy now) l (r, s')) added.0
      ∙ finish-healthy now rec.offset l s' in
    subst (Appended base (records parts last) l (stamped now rec)) (sym out) (record {
      parts = parts;
      last = last ++ stamped now rec ∷ [];
      offset = ap ok (offset ∙ leo-LogHolds h);
      held = record {
        sealed = h.sealed;
        active = added.1;
        active_base = base_offset-append SegmentAppend.healthy now rec l.active ∙ h.active_base;
      };
      grown = sym (append_assoc (flat parts) last (stamped now rec ∷ []));
      same_hw = refl;
      same_cfg = refl;
    })

-- A new active segment holds nothing, and the log what it held.
rotated : Log → Log
rotated l = record l {
  sealed = l.sealed ++ l.active ∷ [];
  active = record {
    base_offset = l.active.next_offset;
    log_file = [];
    idx = load [];
    size = 0;
    next_offset = l.active.next_offset;
    bytes_since_index = 0;
    index_interval = l.cfg.index_interval;
  };
}

rotate-healthy : (now : ℕ) (l : Log) → rotate (healthy now) l ≡ ok (rotated l)
unfolding rotate create_segment rotated
rotate-healthy now l = refl

rotated-LogHolds :
    {base : ℕ} {l : Log} {parts : List (List Record)} {last : List Record}
    → LogHolds base l parts last
    → LogHolds base (rotated l) (parts ++ last ∷ []) []
unfolding rotated bytes_of size_of load load_entries
rotated-LogHolds {base} {l} {parts} {last} h = record {
  sealed = Chain-append base l.sealed parts l.active last h.sealed h.active_base h.active;
  active = record {
    file = refl;
    size = refl;
    next = omega arith;
    consecutive = tt;
    wire = tt;
    index = tt;
    small = omega arith;
  };
  active_base = leo-LogHolds h ∙ ap (λ rs. base + length rs) (sym (flat-append parts last));
}

stamp_now : (now : ℕ) → (if now == 0 then now else now) ≡ now
stamp_now now = ground arith

wire_size :
    (now : ℕ) (rec : Record) → IsWire (stamped now rec) → size_of [] + encoded_size rec < 2 ^ 32
unfolding size_of
wire_size now rec wire = omega (arith, encoded_size-eq_payload rec, wire.size_fits)

room-kept :
    (last : List Record) (size limit : ℕ) (rec : Record) (now : ℕ)
    → size ≡ size_of last
    → (ltb 0 size && ltb limit (size + encoded_size rec)) ≡ false
    → IsWire (stamped now rec)
    → limit < 2 ^ 32
    → size_of last + encoded_size rec < 2 ^ 32
room-kept last size limit rec now e fits wire small =
    ground (arith, encoded_size-eq_payload rec, wire.size_fits)

-- With a segment limit below 4 GiB, a record at the next offset is appended: the call returns that
-- offset, the log holds one record more, and the watermark stays.
append_locked-Appended :
    (now base : ℕ) (rec : Record) (l : Log) (parts : List (List Record)) (last : List Record)
    → LogHolds base l parts last
    → rec.offset ≡ l.active.next_offset
    → IsWire (stamped now rec)
    → l.cfg.max_segment_bytes < 2 ^ 32
    → Appended base (records parts last) l (stamped now rec) (append_locked (healthy now) rec l)
unfolding append_locked append_rotated rotated
append_locked-Appended now base rec l parts last h offset wire limit =
    elim (Bool-cases
      (ltb 0 l.active.size && ltb l.cfg.max_segment_bytes (l.active.size + encoded_size rec))) [
        | inr fits ↦ rw fits (
            append_active-Appended now base rec l parts last h offset wire (
              room-kept last l.active.size l.cfg.max_segment_bytes rec now h.active.size fits wire
                limit))
        | inl full ↦
            let whole : records (parts ++ last ∷ []) [] ≡ records parts last =
              append-nil (flat (parts ++ last ∷ [])) ∙ flat-append parts last in
            let renumbered : record rec { offset = l.active.next_offset } ≡ rec =
              λ i. record rec { offset = sym offset i } in
            let out : append_active (healthy now) (record rec { offset = l.active.next_offset })
                  (rotated l)
                ≡ append_active (healthy now) rec (rotated l) =
              ap (λ r. append_active (healthy now) r (rotated l)) renumbered in
            let a =
              append_active-Appended now base rec (rotated l) (parts ++ last ∷ []) []
                (rotated-LogHolds h) offset wire (wire_size now rec wire) in
            rw (full, rotate-healthy now l)
              (subst (Appended base (records parts last) l (stamped now rec)) (sym out) (record {
                parts = a.parts;
                last = a.last;
                offset = a.offset ∙ ap (λ rs. ok (base + length rs)) whole;
                held = a.held;
                grown = a.grown ∙ ap (λ rs. rs ++ stamped now rec ∷ []) whole;
                same_hw = a.same_hw;
                same_cfg = a.same_cfg;
              }))
      ]

-- On a log whose segment limit is below 4 GiB, with a working file system, and for a record that
-- fits the format, `Append` puts the key and the value at the end, with the clock's time, and returns
-- the end offset that the log had.
pub append-Appended :
    (now base : ℕ) (key value : Bytes) (l : Log) (parts : List (List Record)) (last : List Record)
    → LogHolds base l parts last
    → IsWire (record { offset = leo l; timestamp = now; key = key; value = value })
    → l.cfg.max_segment_bytes < 2 ^ 32
    → Appended base
        (records parts last)
        l
        (record { offset = leo l; timestamp = now; key = key; value = value })
        (append (healthy now) key value l)
unfolding append
append-Appended now base key value l parts last h wire limit =
    let rec : Record = record { offset = leo l; timestamp = now; key = key; value = value } in
    let same : stamped now rec ≡ rec = λ i. record rec { timestamp = stamp_now now i } in
    subst (λ r. Appended base (records parts last) l r (append_locked (healthy now) rec l)) same
      (append_locked-Appended now base rec l parts last h refl (subst IsWire (sym same) wire) limit)

-- Under the same conditions `AppendAt` does so with a record that a leader has numbered with the next offset, and
-- returns that offset.
pub append_at-Appended :
    (now base : ℕ) (rec : Record) (l : Log) (parts : List (List Record)) (last : List Record)
    → LogHolds base l parts last
    → IsWire (stamped now rec)
    → l.cfg.max_segment_bytes < 2 ^ 32
    → rec.offset ≡ leo l
    → Appended base (records parts last) l (stamped now rec) (append_at (healthy now) rec l)
unfolding append_at
append_at-Appended now base rec l parts last h wire limit e =
    rw (eq→==-true rec.offset l.active.next_offset e)
      (append_locked-Appended now base rec l parts last h e wire limit)

-- `AppendAt` refuses any other number, whatever the file system does, and nothing changes.
pub append_at-offset_mismatch :
    (fs : LogIo) (rec : Record) (l : Log)
    → rec.offset ≢ leo l
    → append_at fs rec l ≡ (err (offset_mismatch (leo l) rec.offset), l)
unfolding append_at
append_at-offset_mismatch fs rec l ne = rw (ne→==-false rec.offset l.active.next_offset ne)
