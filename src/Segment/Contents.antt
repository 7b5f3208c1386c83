-- ===== src/Segment/Contents.antt =====
-- What a segment holds, as a list of records: its file is their frames, one after another.
use logship.Prelude.{
  ℕ, zero, suc, ◌+◌, ◌≤◌, ◌<◌, ◌^◌, ◌≡◌, refl, ap, sym, ◌∙◌, List, [], ◌∷◌, ◌++◌, arith,
  append_assoc, length, length-append, take, drop, All, Bytes, take-append-drop, take-append_le,
}
use logship.Record.{Record, frame, encoded_size}
use logship.Record.Size.{length-frame, encoded_size-le}
use logship.Record.RoundTrip.{IsWire}
use logship.Index.{IndexEntry}
use logship.Segment.{Segment}

unfoldable pub bytes_of : List Record → Bytes
bytes_of [] = []
bytes_of (r ∷ rs) = frame r ++ bytes_of rs

unfoldable pub size_of : List Record → ℕ
size_of [] = 0
size_of (r ∷ rs) = encoded_size r + size_of rs

-- The offsets count up from `base`.
abbrev pub Consecutive : ℕ → List Record → Type 0
Consecutive base [] = Unit
Consecutive base (r ∷ rs) = (r.offset ≡ base) × Consecutive (base + 1) rs

-- An index entry names the offset and the position of one of the records, or of the end.
abbrev pub PointsTo : List Record → IndexEntry → Type 0
PointsTo rs e = (e.rel_offset ≤ length rs) × (e.position ≡ size_of (take e.rel_offset rs))

-- The segment `s` holds the records `rs`.
pub record Holds (s : Segment) (rs : List Record) : Type 0 where
  pub file : s.log_file ≡ bytes_of rs
  pub size : s.size ≡ size_of rs
  pub next : s.next_offset ≡ s.base_offset + length rs
  pub consecutive : Consecutive s.base_offset rs
  pub wire : All IsWire rs
  pub index : All (PointsTo rs) s.idx.entries
  pub small : size_of rs < 2 ^ 32

pub length-bytes_of : (rs : List Record) → length (bytes_of rs) ≡ size_of rs
unfolding bytes_of size_of
length-bytes_of [] = refl
length-bytes_of (r ∷ rs) =
    omega (arith, length-append (frame r) (bytes_of rs), length-frame r, length-bytes_of rs)

pub bytes_of-append : (rs ss : List Record) → bytes_of (rs ++ ss) ≡ bytes_of rs ++ bytes_of ss
unfolding bytes_of
bytes_of-append [] ss = refl
bytes_of-append (r ∷ rs) ss = rw (bytes_of-append rs ss) (simp append_assoc)

pub size_of-append : (rs ss : List Record) → size_of (rs ++ ss) ≡ size_of rs + size_of ss
unfolding size_of
size_of-append [] ss = omega arith
size_of-append (r ∷ rs) ss = omega (arith, size_of-append rs ss)

-- Each record takes more than one byte.
pub length-le-size_of : (rs : List Record) → length rs ≤ size_of rs
unfolding size_of
length-le-size_of [] = omega arith
length-le-size_of (r ∷ rs) = omega (arith, length-le-size_of rs, encoded_size-le r)

pub Consecutive-append :
    (base : ℕ) (rs : List Record) (r : Record)
    → Consecutive base rs
    → r.offset ≡ base + length rs
    → Consecutive base (rs ++ r ∷ [])
Consecutive-append base [] r c e = (omega arith, tt)
Consecutive-append base (x ∷ rs) r c e = (c.0, Consecutive-append (base + 1) rs r c.1 (omega arith))

pub Consecutive-drop :
    (k base : ℕ) (rs : List Record) → Consecutive base rs → Consecutive (base + k) (drop k rs)
Consecutive-drop zero base rs c = let e : base + 0 ≡ base = omega arith in rw e c
Consecutive-drop (suc k) base [] c = tt
Consecutive-drop (suc k) base (r ∷ rs) c =
    let e : base + suc k ≡ base + 1 + k = omega arith in rw e (Consecutive-drop k (base + 1) rs c.1)

-- An entry for a record goes on naming it when more records are appended.
pub PointsTo-append : (rs ss : List Record) (e : IndexEntry) → PointsTo rs e → PointsTo (rs ++ ss) e
PointsTo-append rs ss e (le, p) =
    (omega (arith, length-append rs ss), rw (take-append_le e.rel_offset rs ss le) p)

-- The bytes and the size, split at a record.
pub bytes_of-split :
    (k : ℕ) (rs : List Record) → bytes_of rs ≡ bytes_of (take k rs) ++ bytes_of (drop k rs)
bytes_of-split k rs =
    ap bytes_of (sym (take-append-drop k rs)) ∙ bytes_of-append (take k rs) (drop k rs)

pub size_of-split :
    (k : ℕ) (rs : List Record) → size_of rs ≡ size_of (take k rs) + size_of (drop k rs)
size_of-split k rs =
    ap size_of (sym (take-append-drop k rs)) ∙ size_of-append (take k rs) (drop k rs)
