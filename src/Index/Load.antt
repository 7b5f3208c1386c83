-- ===== src/Index/Load.antt =====
-- The index file: `load` after `append`, internal/log/index.go.
use logship.Prelude.{
  ℕ, suc, ◌+◌, ap, ◌*◌, ◌/◌, ◌<◌, ◌^◌, ◌≡◌, refl, ◌⊎◌, inl, inr, All-append, List, [], ◌∷◌, ◌++◌,
  arith, append_assoc, append-nil, length, length-append, All, Bytes, put_u32, get_u32, take,
  take-all, drop-all,
}
use logship.Index.{
  IndexEntry, SparseIndex, written, Write, done, failed, entry_bytes, load_entries, load, overwrite,
  put_bytes, append,
}

-- Both fields fit a uint32.
abbrev pub Fits : IndexEntry → Type 0
Fits e = (e.rel_offset < 2 ^ 32) × (e.position < 2 ^ 32)

unfoldable pub entries_bytes : List IndexEntry → Bytes
entries_bytes [] = []
entries_bytes (e ∷ es) = entry_bytes e ++ entries_bytes es

-- The file holds the entries in memory, in order, and at most a torn entry behind them.
pub record IsStored (i : SparseIndex) : Type 0 where
  pub torn : Bytes
  pub torn_short : length torn < 8
  pub stored : i.file ≡ entries_bytes i.entries ++ torn
  pub fits : All Fits i.entries

length-entry_bytes : (e : IndexEntry) → length (entry_bytes e) ≡ 8
unfolding entry_bytes put_u32
length-entry_bytes e = refl

length-entries_bytes : (es : List IndexEntry) → length (entries_bytes es) ≡ 8 * length es
unfolding entries_bytes
length-entries_bytes [] = refl
length-entries_bytes (e ∷ es) = omega (
  arith,
  length-append (entry_bytes e) (entries_bytes es),
  length-entry_bytes e,
  length-entries_bytes es,
)

load_entries-entry :
    (n : ℕ) (e : IndexEntry) (rest : Bytes)
    → Fits e
    → load_entries (suc n) (entry_bytes e ++ rest) ≡ e ∷ load_entries n rest
unfolding load_entries entry_bytes put_u32 get_u32
load_entries-entry n e rest h = ground arith

load_entries-entries_bytes :
    (es : List IndexEntry) (rest : Bytes)
    → All Fits es
    → load_entries (length es) (entries_bytes es ++ rest) ≡ es
unfolding entries_bytes
load_entries-entries_bytes [] rest h = unfold load_entries in refl
load_entries-entries_bytes (e ∷ es) rest h = rw (
  append_assoc (entry_bytes e) (entries_bytes es) rest,
  load_entries-entry (length es) e (entries_bytes es ++ rest) h.0,
  load_entries-entries_bytes es rest h.1,
)

-- Loading the file of a stored index gives the entries back, a torn entry left out.
pub load-IsStored : (i : SparseIndex) → IsStored i → (load i.file).entries ≡ i.entries
unfolding load
load-IsStored i s =
    let count : length i.file / 8 ≡ length i.entries = rw s.stored (
      omega (
        arith,
        length-append (entries_bytes i.entries) s.torn,
        length-entries_bytes i.entries,
        s.torn_short,
      )) in
    rw (count, s.stored) (load_entries-entries_bytes i.entries s.torn s.fits)

entries_bytes-append :
    (es : List IndexEntry) (e : IndexEntry)
    → entries_bytes (es ++ e ∷ []) ≡ entries_bytes es ++ entry_bytes e
unfolding entries_bytes
entries_bytes-append [] e = append-nil (entry_bytes e)
entries_bytes-append (f ∷ es) e = rw (entries_bytes-append es e) (simp append_assoc)

overwrite-end : (bs file : Bytes) → overwrite (length file) bs file ≡ file ++ bs
unfolding overwrite
overwrite-end bs file = rw (
  take-all (length file) file (omega arith),
  drop-all (length file + length bs) file (omega arith),
  append-nil bs,
)

extended :
    (i : SparseIndex) (bs : Bytes)
    → i.cursor ≡ length i.file
    → (overwrite i.cursor bs i.file ≡ i.file ++ bs)
      × (i.cursor + length bs ≡ length (overwrite i.cursor bs i.file))
extended i bs at =
    let end : overwrite i.cursor bs i.file ≡ i.file ++ bs = rw at (overwrite-end bs i.file) in
    (end, omega (arith, at, ap length end, length-append i.file bs))

-- An index that goes on at the end of its file, with no torn entry and with fields below 2 ^ 32, writes
-- a whole entry or fewer than its 8 bytes: the file is loaded as the entries that memory holds after
-- the call, and after a whole entry the next one goes to the end of the file again.
pub load-append :
    (w : Write) (i : SparseIndex) (e : IndexEntry)
    → i.file ≡ entries_bytes i.entries
    → i.cursor ≡ length i.file
    → All Fits i.entries
    → Fits e
    → length (written w (entry_bytes e)) < 8 ⊎ (w ≡ done)
    → ((load (append w i e).0.file).entries ≡ (append w i e).0.entries)
      × ((append w i e).0.cursor ≡ length (append w i e).0.file)
unfolding append put_bytes
load-append done i e stored at all fit torn =
    let grown = extended i (entry_bytes e) at in
    (
      load-IsStored (append done i e).0 (record {
        torn = [];
        torn_short = omega arith;
        stored = rw (grown.0, stored, append-nil, entries_bytes-append i.entries e);
        fits = All-append Fits i.entries (e ∷ []) all (fit, tt);
      }),
      grown.1,
    )
load-append (failed n) i e stored at all fit (inl torn) =
    let grown = extended i (take n (entry_bytes e)) at in
    (
      load-IsStored (append (failed n) i e).0 (record {
        torn = take n (entry_bytes e);
        torn_short = torn;
        stored = rw (grown.0, stored);
        fits = all;
      }),
      grown.1,
    )
load-append (failed n) i e stored at all fit (inr all_of_it) = cc
