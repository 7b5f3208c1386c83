-- ===== src/Disk.antt =====
-- Files that are replaced as a whole: the way `persistOffsetsLocked` of internal/group/coordinator.go and
-- `persistTopicsLocked` of internal/broker/metadata.go write theirs, by a temporary file and a rename.
-- Of the operating system it is used that a write that fails, or is cut off by a crash, leaves some
-- first part of the bytes, and that a rename is done or not done.
use logship.Prelude.{
  arith, ℕ, ◌+◌, ◌≡◌, ◌⊎◌, inl, inr, refl, ap, Bool, true, false, Option, none, some, List, [], ◌∷◌,
  ◌++◌, Bytes, take, length, length-append, lookup, insert, lookup-insert, str_eq, str_eq→eq,
  str_eq_refl, Bool-cases, if◌then◌else◌,
}

-- The contents of the files, by path.
abbrev pub Disk : Type 0
Disk = List (Bytes × Bytes)

-- How a write goes: wholly, or with an error and a first part of the bytes, or with the file untouched.
pub data Writing : Type 0 where
  whole : Writing
  torn : ℕ → Writing
  refused : Writing

-- How the calls go, or how far when the process is stopped: a crash in a write leaves what a failed one
-- does, and one before the rename what a failed rename does. They are os.MkdirAll, os.WriteFile and os.Rename.
pub record SaveIo : Type 0 where
  pub made : Bool
  pub writing : Writing
  pub renamed : Bool

unfoldable pub write_file : Writing → Bytes → Bytes → Disk → Bool × Disk
write_file whole path bytes d = (true, insert path bytes d)
write_file (torn n) path bytes d = (false, insert path (take n bytes) d)
write_file refused path bytes d = (false, d)

remove : Bytes → Disk → Disk
remove path [] = []
remove path ((p, b) ∷ d) = let rest = remove path d in if str_eq p path then rest else (p, b) ∷ rest

moved : Option Bytes → Bytes → Bytes → Disk → Disk
moved none old new d = d
moved (some bytes) old new d = insert new bytes (remove old d)

unfoldable pub rename : Bytes → Bytes → Disk → Disk
unfolding moved remove
rename old new d = moved (lookup old d) old new d

-- ".tmp"
unfoldable pub temporary : Bytes → Bytes
temporary path = path ++ (46 ∷ 116 ∷ 109 ∷ 112 ∷ [])

finish : Bool → Bytes → Bool × Disk → Bool × Disk
finish renamed path (false, d) = (false, d)
finish true path (true, d) = (true, rename (temporary path) path d)
finish false path (true, d) = (false, d)

-- From the write on.
unfoldable pub replace_file : SaveIo → Bytes → Bytes → Disk → Bool × Disk
unfolding finish
replace_file io path bytes d =
    finish io.renamed path (write_file io.writing (temporary path) bytes d)

module _ (path bytes : Bytes) (d : Disk) where
  temporary-other : str_eq (temporary path) path ≡ false
  temporary-other = elim (Bool-cases (str_eq (temporary path) path)) [
    | inr other ↦ other
    | inl same ↦ absurd (omega (arith, ap length (str_eq→eq (temporary path) path same), longer))
  ]
    where
      longer : length (temporary path) ≡ length path + 4
      longer = unfold temporary in length-append path (46 ∷ 116 ∷ 109 ∷ 112 ∷ [])

  lookup-temporary : (b : Bytes) → lookup path (insert (temporary path) b d) ≡ lookup path d
  lookup-temporary b = rw (lookup-insert (temporary path) path b d, temporary-other) refl

  lookup-renamed :
      lookup path (rename (temporary path) path (insert (temporary path) bytes d)) ≡ some bytes
  unfolding rename moved
  lookup-renamed =
      rw
        (
          lookup-insert (temporary path) (temporary path) bytes d,
          str_eq_refl (temporary path),
          lookup-insert path path bytes (remove (temporary path) (insert (temporary path) bytes d)),
          str_eq_refl path,
        )
        refl

  finished-new :
      (w : Writing) (renamed : Bool)
      → (finish renamed path (write_file w (temporary path) bytes d)).0 ≡ true
      → lookup path (finish renamed path (write_file w (temporary path) bytes d)).1 ≡ some bytes
  unfolding finish write_file
  finished-new whole true h = lookup-renamed
  finished-new whole false h = cc
  finished-new (torn n) renamed h = cc
  finished-new refused renamed h = cc

  finished-old :
      (w : Writing) (renamed : Bool)
      → (finish renamed path (write_file w (temporary path) bytes d)).0 ≡ false
      → lookup path (finish renamed path (write_file w (temporary path) bytes d)).1 ≡ lookup path d
  unfolding finish write_file
  finished-old whole true h = cc
  finished-old whole false h = lookup-temporary bytes
  finished-old (torn n) renamed h = lookup-temporary (take n bytes)
  finished-old refused renamed h = refl

  -- With no error it has the new ones, and with an error the old ones.
  pub replace_file-new :
      (io : SaveIo)
      → (replace_file io path bytes d).0 ≡ true
      → lookup path (replace_file io path bytes d).1 ≡ some bytes
  unfolding replace_file
  replace_file-new io h = finished-new io.writing io.renamed h

  pub replace_file-old :
      (io : SaveIo)
      → (replace_file io path bytes d).0 ≡ false
      → lookup path (replace_file io path bytes d).1 ≡ lookup path d
  unfolding replace_file
  replace_file-old io h = finished-old io.writing io.renamed h

  -- However the calls go, the file has the old bytes or the new ones.
  pub replace_file-lookup :
      (io : SaveIo)
      → (lookup path (replace_file io path bytes d).1 ≡ lookup path d)
        ⊎ (lookup path (replace_file io path bytes d).1 ≡ some bytes)
  replace_file-lookup io = elim (Bool-cases (replace_file io path bytes d).0) [
    | inl good ↦ inr (replace_file-new io good)
    | inr bad ↦ inl (replace_file-old io bad)
  ]
