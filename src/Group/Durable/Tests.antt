-- ===== src/Group/Durable/Tests.antt =====
-- An offset that is committed, and a crash while the next one is saved.
use logship.Prelude.{
  ◌≡◌, ◌⊎◌, refl, true, Bool, Option, none, some, List, [], ◌∷◌, Bytes, insert, lookup, str_eq,
  itoa, ap, sym, ◌∙◌, ℕ,
}
use logship.Prelude.Int.{ℤ, pos}
use logship.Disk.{Disk, SaveIo, whole, torn, replace_file, write_file}
use logship.Group.Offsets.{Committed, commit, commit_all, offset_key}
use logship.Group.Durable.{
  Offsets, Agree, restarted, commit_to_disk, persist_offsets, commit-survives,
}

-- An encoding for maps of one offset.
abbrev written : Offsets → Option Bytes
written ((k, pos n) ∷ []) = some (n ∷ k)
written m = none

abbrev read : Bytes → Offsets → Bool × Offsets
read [] m = (true, m)
read (n ∷ k) m = (true, (k, pos n) ∷ [])

abbrev io : SaveIo
io = record { made = true; writing = whole; renamed = true }

abbrev at : ℤ → List Committed
at n = record { topic = 116 ∷ []; partition = pos 0; offset = n } ∷ []

abbrev key : Bytes
key = offset_key (103 ∷ []) (116 ∷ []) (pos 0)

abbrev first : Offsets
first = commit_all (103 ∷ []) (at (pos 5)) []

abbrev second : Offsets
second = commit_all (103 ∷ []) (at (pos 7)) first

first-eq : first ≡ (key, pos 5) ∷ []
unfolding commit_all insert
first-eq = refl

second-eq : second ≡ (key, pos 7) ∷ []
unfolding commit_all insert str_eq offset_key itoa
second-eq = refl

bytes_or : Option Bytes → Bytes
bytes_or none = []
bytes_or (some bytes) = bytes

reads_back :
    (m : Offsets) (n : ℕ)
    → m ≡ (key, pos n) ∷ []
    → (bytes : Bytes) → written m ≡ some bytes
    → Agree (read bytes []).1 m
unfolding bytes_or
reads_back m n same bytes e k =
    let is : n ∷ key ≡ bytes = ap bytes_or (sym (ap written same) ∙ e) in
    ap (λ b. lookup k (read b []).1) (sym is) ∙ ap (lookup k) (sym same)

no_error : (commit_to_disk written read (47 ∷ []) io (103 ∷ []) (at (pos 5)) [] []).0.0 ≡ true
unfolding commit_to_disk commit persist_offsets replace_file write_file commit_all insert
no_error = refl

abbrev saved : Disk
saved = (commit_to_disk written read (47 ∷ []) io (103 ∷ []) (at (pos 5)) [] []).1

-- The process is stopped in the middle of the write.
abbrev stopped : SaveIo
stopped = record { made = true; writing = torn 3; renamed = true }

abbrev behind : Disk
behind = (commit_to_disk written read (47 ∷ []) stopped (103 ∷ []) (at (pos 7)) first saved).1

commit-survives_example :
    Agree (restarted written read (47 ∷ []) behind) first
    ⊎ Agree (restarted written read (47 ∷ []) behind) second
commit-survives_example =
    commit-survives written read (47 ∷ []) io stopped (103 ∷ []) (103 ∷ []) (at (pos 5))
      (at (pos 7)) [] [] (reads_back first 5 first-eq) (reads_back second 7 second-eq) no_error
