-- ===== src/Log.antt =====
-- A partition's commit log, internal/log/log.go: segments of consecutive offsets, of which the last
-- one is written to, and the high watermark. The mutex makes each operation one step.
pub mod Chain
pub mod Append
pub mod Stretch
pub mod Read
pub mod Skip
pub mod Watermark
pub mod Open
pub mod Restart
pub mod Wait
pub mod Visible
pub mod Members
pub mod Sample
mod Tests
use logship.Prelude.{
  ℕ, zero, suc, ◌+◌, ◌-◌, ◌*◌, ◌%◌, ◌^◌, Bool, true, false, not, ◌&&◌, ◌||◌, Option, none, some,
  List, [], ◌∷◌, ◌++◌, ltb, leb, ◌==◌, if◌then◌else◌, Bytes,
}
use logship.Prelude.Int.{ℤ, pos, negsuc, ltb_ℤ, leb_ℤ}
use logship.Record.{Record, encoded_size}
use logship.Segment
use logship.Segment.{
  Segment, AppendIo, Result, ok, err, panic, stuck, io, offset_mismatch, create_segment, read_from,
  ◌>>=◌,
}
use logship.Segment.Contents.{size_of}

pub record Config : Type 0 where
  pub max_segment_bytes : ℕ
  pub index_interval : ℕ
  pub fsync_every : ℕ

-- `sealed` and then `active` are l.segments; `active` is its last element.
pub record Log : Type 0 where
  pub cfg : Config
  pub sealed : List Segment
  pub active : Segment
  pub hw : ℕ
  pub appends : ℕ

-- What the clock and the file system do in one append.
pub record LogIo : Type 0 where
  pub now : ℕ
  pub rotate_flush : Bool
  pub create : Option Bytes
  pub write : AppendIo
  pub fsync : Bool

abbrev pub segments : Log → List Segment
segments l = l.sealed ++ l.active ∷ []

-- LEO: the next offset that will be assigned.
abbrev pub leo : Log → ℕ
leo l = l.active.next_offset

abbrev pub high_watermark : Log → ℕ
high_watermark l = l.hw

-- `ok` of the log with a new active segment, or the error that leaves it alone.
unfoldable pub rotate : LogIo → Log → Result Log
rotate fs l =
    if fs.rotate_flush
    then (do
      s ← create_segment fs.create l.active.next_offset l.cfg.index_interval
      ok (record l { sealed = l.sealed ++ l.active ∷ []; active = s }))
    else err io

-- Every `fsync_every` appends the segment is flushed.
unfoldable pub sync_appended : LogIo → ℕ → Log → Result ℕ × Log
sync_appended fs off l =
    if ltb 0 l.cfg.fsync_every && (l.appends % l.cfg.fsync_every == 0 && not fs.fsync)
    then (err io, l)
    else (ok off, l)

unfoldable pub finish_append : LogIo → Log → Result ℕ × Segment → Result ℕ × Log
finish_append fs l (ok off, s) =
    sync_appended fs off (record l { active = s; appends = l.appends + 1 })
finish_append fs l (failed, s) = (failed, record l { active = s })

-- From the write on, when the segment is chosen.
unfoldable pub append_active : LogIo → Record → Log → Result ℕ × Log
append_active fs rec l = finish_append fs l (Segment.append fs.write fs.now rec l.active)

unfoldable pub append_rotated : LogIo → Record → Log → Result Log → Result ℕ × Log
append_rotated fs rec l (ok l') =
    append_active fs (record rec { offset = l'.active.next_offset }) l'
append_rotated fs rec l (err e) = (err e, l)
append_rotated fs rec l panic = (panic, l)
append_rotated fs rec l stuck = (stuck, l)

unfoldable pub append_locked : LogIo → Record → Log → Result ℕ × Log
append_locked fs rec l =
    if ltb 0 l.active.size && ltb l.cfg.max_segment_bytes (l.active.size + encoded_size rec)
    then append_rotated fs rec l (rotate fs l)
    else append_active fs rec l

unfoldable pub append : LogIo → Bytes → Bytes → Log → Result ℕ × Log
append fs key value l =
    append_locked fs
      (record { offset = l.active.next_offset; timestamp = fs.now; key = key; value = value }) l

-- A follower's append, at the offset that the leader assigned.
unfoldable pub append_at : LogIo → Record → Log → Result ℕ × Log
append_at fs rec l =
    if not (rec.offset == l.active.next_offset)
    then (err (offset_mismatch l.active.next_offset rec.offset), l)
    else append_locked fs rec l

-- Where the loop of `Read` goes on behind the records that a segment gave.
unfoldable pub next_from : Segment → ℤ → List Record → ℤ
next_from s from [] = if ltb_ℤ from (pos s.next_offset) then pos s.next_offset else from
next_from s from (r ∷ []) = pos (r.offset + 1)
next_from s from (r ∷ rest) = next_from s from rest

-- The loop of `Read` over the segments, with `n` bytes of records in `out`.
unfoldable pub read_segments : List Segment → ℕ → ℕ → ℤ → ℕ → List Record → Result (List Record)
read_segments [] max_bytes max_offset from n out = ok out
read_segments (s ∷ rest) max_bytes max_offset from n out =
    let skipped = read_segments rest max_bytes max_offset from n out in
    if leb_ℤ (pos s.next_offset) from
    then skipped
    else if leb max_offset s.base_offset
    then ok out
    else do
      recs ← read_from s from (max_bytes - n) (pos max_offset)
      let used = n + size_of recs
      let more = read_segments rest max_bytes max_offset (next_from s from recs) used (out ++ recs)
      if leb max_bytes used then ok (out ++ recs) else more

-- A limit of no bytes is 1 MiB, and a negative offset limit is the end of the log.
abbrev pub byte_limit : ℤ → ℕ
byte_limit (pos zero) = 2 ^ 20
byte_limit (pos (suc n)) = suc n
byte_limit (negsuc n) = 2 ^ 20

abbrev pub offset_limit : Log → ℤ → ℕ
offset_limit l (pos n) = n
offset_limit l (negsuc n) = l.active.next_offset

unfoldable pub read : Log → ℤ → ℤ → ℤ → Result (List Record)
read l from max_bytes max_offset =
    let limit = offset_limit l max_offset in
    if leb_ℤ (pos l.active.next_offset) from || leb_ℤ (pos limit) from
    then ok []
    else read_segments (segments l) (byte_limit max_bytes) limit from 0 []

unfoldable pub raise_hw : ℕ → Log → Log
raise_hw hw l =
    let hw' = if ltb l.active.next_offset hw then l.active.next_offset else hw in
    if ltb l.hw hw' then record l { hw = hw' } else l

-- A negative watermark is below every other.
unfoldable pub set_high_watermark : ℤ → Log → Log
set_high_watermark (negsuc n) l = l
set_high_watermark (pos hw) l = raise_hw hw l
