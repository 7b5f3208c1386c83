-- ===== src/Index.antt =====
-- The sparse offset index, internal/log/index.go: its file and the entries in memory.
pub mod Lookup
pub mod Load
mod Tests
use logship.Prelude.{
  ℕ, zero, suc, ◌+◌, ◌-◌, ◌/◌, Bool, true, false, List, [], ◌∷◌, ◌++◌, ltb, ◌==◌, if◌then◌else◌,
  length, take, drop, Bytes, put_u32, get_u32,
}

-- Both fields are uint32.
pub record IndexEntry : Type 0 where
  pub rel_offset : ℕ
  pub position : ℕ

-- `cursor` is the offset of the open file, where the next write goes: it is opened without O_APPEND.
pub record SparseIndex : Type 0 where
  pub file : Bytes
  pub cursor : ℕ
  pub entries : List IndexEntry

-- What became of a `Write`: all of it, or an error after some bytes.
pub data Write : Type 0 where
  done : Write
  failed : ℕ → Write

-- The bytes that a write puts into its file.
abbrev pub written : Write → Bytes → Bytes
written done bs = bs
written (failed n) bs = take n bs

unfoldable pub entry_bytes : IndexEntry → Bytes
entry_bytes e = put_u32 e.rel_offset ++ put_u32 e.position

-- `n` entries from the front of the file.
unfoldable pub load_entries : ℕ → Bytes → List IndexEntry
load_entries zero buf = []
load_entries (suc n) buf =
    record { rel_offset = get_u32 (take 4 buf); position = get_u32 (take 4 (drop 4 buf)) }
    ∷ load_entries n (drop 8 buf)

-- A rest of fewer than 8 bytes is not read. ReadAt leaves the offset of the file at 0.
unfoldable pub load : Bytes → SparseIndex
load file = record { file = file; cursor = 0; entries = load_entries (length file / 8) file }

-- A write at the offset of the file, over what is there.
unfoldable pub overwrite : ℕ → Bytes → Bytes → Bytes
overwrite cursor bs file = take cursor file ++ (bs ++ drop (cursor + length bs) file)

put_bytes : Bytes → SparseIndex → SparseIndex
put_bytes bs i = record i { file = overwrite i.cursor bs i.file; cursor = i.cursor + length bs }

-- The index after `append`, and whether there was no error.
unfoldable pub append : Write → SparseIndex → IndexEntry → SparseIndex × Bool
unfolding put_bytes
append done i e = (record (put_bytes (entry_bytes e) i) { entries = i.entries ++ e ∷ [] }, true)
append (failed n) i e = (put_bytes (take n (entry_bytes e)) i, false)

-- sort.Search of Go's library: the least index below `hi` at which a monotone test holds, or `hi`.
unfoldable pub search_between : ℕ → (ℕ → Bool) → ℕ → ℕ → ℕ
search_between zero test lo hi = lo
search_between (suc fuel) test lo hi =
    let h = (lo + hi) / 2 in
    let right = search_between fuel test (h + 1) hi in
    let left = search_between fuel test lo h in
    if ltb lo hi then (if test h then left else right) else lo

-- The interval shrinks in every round, so `n` rounds are enough.
unfoldable pub search_first : ℕ → (ℕ → Bool) → ℕ
search_first n test = search_between n test 0 n

-- entries[j], for a `j` in range.
abbrev pub entry_at : List IndexEntry → ℕ → IndexEntry
entry_at [] j = record { rel_offset = 0; position = 0 }
entry_at (e ∷ es) zero = e
entry_at (e ∷ es) (suc j) = entry_at es j

unfoldable pub lookup : SparseIndex → ℕ → ℕ
lookup i rel_offset =
    if length i.entries == 0
    then 0
    else let n =
        search_first (length i.entries) (λ j. ltb rel_offset (entry_at i.entries j).rel_offset) in
      if n == 0 then 0 else (entry_at i.entries (n - 1)).position
