-- ===== src/Segment/Open.antt =====
-- Opening a segment that is on disk, internal/log/segment.go: `openSegment` and `recover`. Each loop
-- reads records from where it starts up to the end of the file or to bytes that are no record.
pub mod Torn
pub mod Recovery
pub mod Sealed
pub mod Base
use logship.Prelude.{
  ℕ, zero, suc, ◌+◌, ◌-◌, ◌%◌, ◌^◌, Bool, true, false, ◌||◌, Option, none, some, List, [], ◌∷◌, leb,
  ◌==◌, if◌then◌else◌, length, take, drop, Bytes,
}
use logship.Record
use logship.Record.{encoded_size, decode}
use logship.Index
use logship.Index.{IndexEntry, Write, done}
use logship.Segment.{Segment, Result, ok, err, panic, stuck, io}

-- What the file system does in one `openSegment`: whether the log and the index can be truncated,
-- and what becomes of the writes of index entries, from the front.
pub record OpenIo : Type 0 where
  pub truncate_log : Bool
  pub truncate_index : Bool
  pub index_writes : List Write

abbrev pub next_write : List Write → Write
next_write [] = done
next_write (w ∷ ws) = w

abbrev pub later_writes : List Write → List Write
later_writes [] = []
later_writes (w ∷ ws) = ws

-- A torn or corrupt tail is cut off at `at`.
abbrev pub cut_tail : Bool → ℕ → Segment → Result Segment
cut_tail fine at s =
    if fine then ok (record s { log_file = take at s.log_file; size = at }) else err io

-- The scan of a segment that is not active: from the last index entry, at `at`, up to the end or to
-- bytes that are no record. `next` is the offset after the last record.
unfoldable pub tail_loop : ℕ → Bool → Segment → Bytes → ℕ → ℕ → Result Segment
tail_loop zero fine s unread at next = stuck
tail_loop (suc fuel) fine s unread at next =
    let stop = record s { size = at; next_offset = next } in
    elim (decode unread) [
      | Record.err Record.eof ↦ ok stop
      | Record.err e ↦ cut_tail fine at stop
      | Record.panic ↦ panic
      | Record.ok (rec, n) ↦
          tail_loop fuel fine s (drop n unread) (at + encoded_size rec) (rec.offset + 1)
    ]

-- The scan of a whole segment, which rebuilds the index. `since` bytes lie behind the last entry.
unfoldable pub scan_loop : ℕ → OpenIo → Segment → Bytes → ℕ → ℕ → ℕ → Result Segment
scan_loop zero fs s unread at next since = stuck
scan_loop (suc fuel) fs s unread at next since =
    let stop = record s { size = at; next_offset = next; bytes_since_index = since } in
    elim (decode unread) [
      | Record.err Record.eof ↦ ok stop
      | Record.err e ↦ cut_tail fs.truncate_log at stop
      | Record.panic ↦ panic
      | Record.ok (rec, n) ↦
          let entry : IndexEntry = record {
            rel_offset = (rec.offset + 2 ^ 64 - s.base_offset) % 2 ^ 32;
            position = at % 2 ^ 32;
          } in
          let (idx, fine) = Index.append (next_write fs.index_writes) s.idx entry in
          let with_entry =
            scan_loop fuel (record fs { index_writes = later_writes fs.index_writes })
              (record s { idx = idx }) (drop n unread) (at + encoded_size rec) (rec.offset + 1)
              (encoded_size rec) in
          let without =
            scan_loop fuel fs s (drop n unread) (at + encoded_size rec) (rec.offset + 1)
              (since + encoded_size rec) in
          if since == 0 || leb s.index_interval since
          then (if fine then with_entry else err io)
          else without
    ]

abbrev pub last_entry : IndexEntry → List IndexEntry → IndexEntry
last_entry e [] = e
last_entry e (f ∷ es) = last_entry f es

-- A round for each byte of the file is more than enough for either scan.
unfoldable pub recover_from : OpenIo → Segment → List IndexEntry → Result Segment
recover_from fs s [] =
    if fs.truncate_index
    then scan_loop (suc (length s.log_file)) fs
        (record s { idx = record { file = []; cursor = 0; entries = [] } }) s.log_file 0
        s.base_offset 0
    else err io
recover_from fs s (e ∷ es) =
    let last = last_entry e es in
    tail_loop (suc (length s.log_file)) fs.truncate_log s (drop last.position s.log_file)
      last.position (s.base_offset + last.rel_offset)

unfoldable pub recover : OpenIo → Bool → Segment → Result Segment
recover fs scan_all s =
    if s.size == 0
    then ok (record s { next_offset = s.base_offset })
    else recover_from fs s (if scan_all then [] else s.idx.entries)

-- The files of the segment, `none` where one cannot be opened. An active segment is scanned whole.
unfoldable pub open_segment : OpenIo → Option (Bytes × Bytes) → ℕ → ℕ → Bool → Result Segment
open_segment fs none base interval active = err io
open_segment fs (some (log_file, index_file)) base interval active = recover fs active (record {
  base_offset = base;
  log_file = log_file;
  idx = Index.load index_file;
  size = length log_file;
  next_offset = 0;
  bytes_since_index = 0;
  index_interval = interval;
})
