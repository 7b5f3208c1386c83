-- ===== src/Index/Tests.antt =====
-- The theorems on the index at a small one.
use logship.Prelude.{◌<◌, ◌≡◌, refl, List, [], ◌∷◌, arith, inl, length, put_u32, get_u32}
use logship.Index.{
  SparseIndex, IndexEntry, done, failed, written, entry_bytes, load, load_entries, overwrite,
  put_bytes, append, lookup,
}
use logship.Index.Lookup.{floor_position, IsSorted, lookup-floor_position}
use logship.Index.Load.{entries_bytes, load-append}

abbrev entries : List IndexEntry
entries = record { rel_offset = 0; position = 0 } ∷ record { rel_offset = 9; position = 400 } ∷ []

abbrev stored : SparseIndex
stored = record { file = entries_bytes entries; cursor = 16; entries = entries }

entries-IsSorted : IsSorted entries
entries-IsSorted = ((omega arith, tt), (tt, tt))

lookup-floor_position_example : lookup stored 12 ≡ floor_position 0 entries 12
lookup-floor_position_example = lookup-floor_position stored 12 entries-IsSorted

five : length (written (failed 5) (entry_bytes (record { rel_offset = 20; position = 900 }))) < 8
unfolding entry_bytes put_u32
five = omega arith

sixteen : 16 ≡ length (entries_bytes entries)
unfolding entries_bytes entry_bytes put_u32
sixteen = refl

-- The entry is cut short after 5 of its bytes.
load-append_example :
    ((load (append (failed 5) stored (record { rel_offset = 20; position = 900 })).0.file).entries
      ≡ (append (failed 5) stored (record { rel_offset = 20; position = 900 })).0.entries)
    × ((append (failed 5) stored (record { rel_offset = 20; position = 900 })).0.cursor
        ≡ length (append (failed 5) stored (record { rel_offset = 20; position = 900 })).0.file)
load-append_example =
    load-append (failed 5) stored (record { rel_offset = 20; position = 900 }) refl sixteen
      ((omega arith, omega arith), ((omega arith, omega arith), tt)) (omega arith, omega arith)
      (inl five)

abbrev next : IndexEntry
next = record { rel_offset = 20; position = 900 }

-- An index that was loaded writes its next entry over the first one of its file.
loaded-overwrites :
    (load (append done (load (entries_bytes entries)) next).0.file).entries
    ≡ next ∷ record { rel_offset = 9; position = 400 } ∷ []
unfolding append load load_entries entries_bytes entry_bytes put_u32 get_u32 overwrite put_bytes
loaded-overwrites = refl
