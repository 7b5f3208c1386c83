-- ===== src/Segment.antt =====
-- One segment of a log, internal/log/segment.go: its two files and what the broker remembers of
-- them. Writes go to the end of a file; reads name a position.
pub mod Contents
pub mod Sample
mod Tests
pub mod Append
pub mod Read
pub mod Open
use logship.Prelude.{
  ℕ, zero, suc, ◌+◌, ◌-◌, ◌%◌, ◌^◌, Bool, true, false, not, ◌&&◌, ◌||◌, Option, none, some, List,
  [], ◌∷◌, ◌++◌, ltb, leb, ◌==◌, if◌then◌else◌, length, take, Bytes,
}
use logship.Prelude.Int.{ℤ, pos, negsuc}
use logship.Record
use logship.Record.{Record, encode, encoded_size, decode, decode_at}
use logship.Index
use logship.Index.{SparseIndex, IndexEntry, Write, done, failed, written}

pub data Fault : Type 0 where
  -- an error of a file operation
  io : Fault
  offset_mismatch : ℕ → ℕ → Fault
  decoding : Record.Error → Fault

-- Go's (value, error) pair. `panic` is that of `Decode`; `stuck` is no Go value: a loop of the
-- model ran out of fuel.
pub data Result {ℓ} (A : Type ℓ) : Type ℓ where
  ok : A → Result A
  err : Fault → Result A
  panic : Result A
  stuck : Result A

infixl 5 ◌>>=◌
abbrev pub ◌>>=◌ {ℓ κ} : {A : Type ℓ} {B : Type κ} → Result A → (A → Result B) → Result B
ok a >>= f = f a
err e >>= f = err e
panic >>= f = panic
stuck >>= f = stuck

pub record Segment : Type 0 where
  pub base_offset : ℕ
  pub log_file : Bytes
  pub idx : SparseIndex
  pub size : ℕ
  pub next_offset : ℕ
  pub bytes_since_index : ℕ
  pub index_interval : ℕ

-- What the file system does in one `append`.
pub record AppendIo : Type 0 where
  pub log_write : Write
  pub index_write : Write

-- `none`: a file cannot be opened or created. Otherwise the bytes of an index file that is there
-- already, which is opened and loaded; the .log file is new.
unfoldable pub create_segment : Option Bytes → ℕ → ℕ → Result Segment
create_segment none base interval = err io
create_segment (some old_index) base interval = ok (record {
  base_offset = base;
  log_file = [];
  idx = Index.load old_index;
  size = 0;
  next_offset = base;
  bytes_since_index = 0;
  index_interval = interval;
})

-- The index entry of a record at the end of the file; both conversions to uint32 wrap.
abbrev pub entry_for : Segment → Record → IndexEntry
entry_for s rec = record {
  rel_offset = (rec.offset + 2 ^ 64 - s.base_offset) % 2 ^ 32;
  position = s.size % 2 ^ 32;
}

abbrev pub index_due : Segment → Bool
index_due s = s.bytes_since_index == 0 || leb s.index_interval s.bytes_since_index

-- The counters after a write of `n` bytes, `since` of them after the last index entry.
abbrev pub counted : ℕ → ℕ → Segment → Segment
counted since n s = record s {
  bytes_since_index = since + n;
  size = s.size + n;
  next_offset = s.next_offset + 1;
}

-- `enc` has been written.
unfoldable pub append_index : Write → Record → Bytes → Segment → Result ℕ × Segment
append_index w rec enc s =
    let written_log = record s { log_file = s.log_file ++ enc } in
    if index_due s
    then (let (idx, fine) = Index.append w s.idx (entry_for s rec) in
        let indexed = record written_log { idx = idx } in
        if fine then (ok rec.offset, counted 0 (length enc) indexed) else (err io, indexed))
    else (ok rec.offset, counted s.bytes_since_index (length enc) written_log)

unfoldable pub write_log : AppendIo → ℕ → Record → Segment → Write → Result ℕ × Segment
write_log fs now rec s done = append_index fs.index_write rec (encode now rec) s
write_log fs now rec s (failed n) =
    (err io, record s { log_file = s.log_file ++ take n (encode now rec) })

-- `now` is the clock, which `Encode` reads for a record without a timestamp.
unfoldable pub append : AppendIo → ℕ → Record → Segment → Result ℕ × Segment
append fs now rec s =
    if not (rec.offset == s.next_offset)
    then (err (offset_mismatch s.next_offset rec.offset), s)
    else write_log fs now rec s fs.log_write

-- What `readFrom` asks for, and the bytes that it scans.
pub record Query : Type 0 where
  pub file : Bytes
  pub size : ℕ
  pub from_offset : ℕ
  pub max_bytes : ℕ
  pub max_offset : ℕ

-- The loop of `readFrom`: `n` bytes of records are in `out`, and the next record is at `at`.
unfoldable pub read_loop : ℕ → Query → ℕ → ℕ → List Record → Result (List Record)
read_loop zero q at n out = stuck
read_loop (suc fuel) q at n out =
    if not (ltb at q.size) then ok out else elim (decode_at q.file at) [
      | Record.err Record.eof ↦ ok out
      | Record.err e ↦ err (decoding e)
      | Record.panic ↦ panic
      | Record.ok (rec, sz) ↦
          let skipped = read_loop fuel q (at + sz) n out in
          let more = read_loop fuel q (at + sz) (n + sz) (out ++ rec ∷ []) in
          if ltb rec.offset q.from_offset
          then skipped
          else if leb q.max_offset rec.offset
          then ok out
          else if ltb 0 n && ltb q.max_bytes (n + sz)
          then ok out
          else if leb q.max_bytes (n + sz)
          then ok (out ++ rec ∷ [])
          else more
    ]

-- A record takes 33 bytes or more, so a round for each byte is more than enough.
unfoldable pub read_from : Segment → ℤ → ℕ → ℤ → Result (List Record)
read_from s (negsuc from) max_bytes max_offset = ok []
read_from s (pos from) max_bytes (negsuc max) = ok []
read_from s (pos from) max_bytes (pos max) =
    if ltb from s.base_offset || leb s.next_offset from
    then ok []
    else if leb max from
    then ok []
    else read_loop (suc s.size)
        (record {
          file = s.log_file;
          size = s.size;
          from_offset = from;
          max_bytes = max_bytes;
          max_offset = max;
        })
        (Index.lookup s.idx ((from - s.base_offset) % 2 ^ 32)) 0 []
