-- ===== src/Group/Durable.antt =====
-- The committed offsets on disk, `persistOffsetsLocked`, `loadOffsets`, `Commit` and `ApplyOffset` of
-- internal/group/coordinator.go. `marshal` and `unmarshal` are those of encoding/json.
mod Tests
use logship.Prelude.{
  ◌≡◌, ◌⊎◌, inl, inr, refl, sym, ap, ◌∙◌, Bool, true, false, Option, none, some, List, [], ◌∷◌,
  Bytes, lookup, either_branch, if◌then◌else◌, ℕ, ◌==◌, sort_by, str_leb,
}
use logship.Prelude.Int.{ℤ}
use logship.Disk.{Disk, SaveIo, replace_file, replace_file-lookup, replace_file-new}
use logship.Group.{Config, Group, Groups, Member, State, empty}
use logship.Group.Offsets.{Committed, commit, commit_all, apply_offset}

abbrev pub Offsets : Type 0
Offsets = List (Bytes × ℤ)

-- What os.ReadFile gives.
pub data Reading : Type 0 where
  missing : Reading
  unreadable : Reading
  found : Bytes → Reading

unfoldable pub read_at : Option Bytes → Reading
read_at none = missing
read_at (some bytes) = found bytes

-- The two maps are the same.
abbrev pub Agree : Offsets → Offsets → Type 0
Agree m m' = (k : Bytes) → lookup k m ≡ lookup k m'

module _ (marshal : Offsets → Option Bytes) (unmarshal : Bytes → Offsets → Bool × Offsets)
    (path : Bytes) where
  persist_marshalled : SaveIo → Option Bytes → Disk → Bool × Disk
  persist_marshalled io none d = (false, d)
  persist_marshalled io (some bytes) d = replace_file io path bytes d

  unfoldable pub persist_offsets : SaveIo → Offsets → Disk → Bool × Disk
  unfolding persist_marshalled
  persist_offsets io m d = if io.made then persist_marshalled io (marshal m) d else (false, d)

  -- Whether there was no error, and the map; `unmarshal` adds to the map that there is.
  unfoldable pub load_offsets : Reading → Offsets → Bool × Offsets
  load_offsets missing m = (true, m)
  load_offsets unreadable m = (false, m)
  load_offsets (found bytes) m = unmarshal bytes m

  -- The map that `New` starts with, from a disk that can be read.
  unfoldable pub restarted : Disk → Offsets
  restarted d = (load_offsets (read_at (lookup path d)) []).1

  unfoldable pub commit_to_disk :
      SaveIo → Bytes → List Committed → Offsets → Disk → (Bool × Offsets) × Disk
  commit_to_disk io group os m d =
      let saved = persist_offsets io (commit_all group os m) d in
      (commit saved.0 group os m, saved.1)

  unfoldable pub apply_to_disk : SaveIo → Bytes → Bytes → ℤ → ℤ → Offsets → Disk → Offsets × Disk
  apply_to_disk io group topic partition offset m d =
      let m' = apply_offset group topic partition offset m in (m', (persist_offsets io m' d).1)

  -- What encoding/json documents: a map that was written is read back. It is asked of maps whose
  -- strings are UTF-8.
  abbrev pub ReadsBack : Offsets → Type 0
  ReadsBack m = (bytes : Bytes) → marshal m ≡ some bytes → Agree (unmarshal bytes []).1 m

  restarted-found :
      (m : Offsets) (bytes : Bytes) (d : Disk)
      → ReadsBack m
      → marshal m ≡ some bytes
      → lookup path d ≡ some bytes
      → Agree (restarted d) m
  unfolding restarted load_offsets read_at
  restarted-found m bytes d back e at k =
      ap (λ o. lookup k (load_offsets (read_at o) []).1) at ∙ back bytes e k

  persist_marshalled-Agree :
      (io : SaveIo) (m : Offsets) (d : Disk) (o : Option Bytes)
      → marshal m ≡ o
      → ReadsBack m
      → (persist_marshalled io o d).0 ≡ true
      → Agree (restarted (persist_marshalled io o d).1) m
  unfolding persist_marshalled
  persist_marshalled-Agree io m d none e back ok = cc
  persist_marshalled-Agree io m d (some bytes) e back ok =
      restarted-found m bytes (replace_file io path bytes d).1 back e
        (replace_file-new path bytes d io ok)

  persist_offsets-Agree :
      (io : SaveIo) (made : Bool) (m : Offsets) (d : Disk)
      → ReadsBack m
      → (if made then persist_marshalled io (marshal m) d else (false, d)).0 ≡ true
      → Agree (restarted (if made then persist_marshalled io (marshal m) d else (false, d)).1) m
  persist_offsets-Agree io true m d back ok =
      persist_marshalled-Agree io m d (marshal m) refl back ok
  persist_offsets-Agree io false m d back ok = cc

  -- After a commit that returned no error, a restart has the map with it.
  pub commit-durable :
      (io : SaveIo) (group : Bytes) (os : List Committed) (m : Offsets) (d : Disk)
      → ReadsBack (commit_all group os m)
      → (commit_to_disk io group os m d).0.0 ≡ true
      → Agree (restarted (commit_to_disk io group os m d).1) (commit_all group os m)
  unfolding commit_to_disk commit persist_offsets
  commit-durable io group os m d back ok =
      persist_offsets-Agree io io.made (commit_all group os m) d back ok

  restarted_by : (d d' : Disk) → lookup path d' ≡ lookup path d → restarted d' ≡ restarted d
  unfolding restarted
  restarted_by d d' e = ap (λ o. (load_offsets (read_at o) []).1) e

  persist_marshalled-atomic :
      (io : SaveIo) (m : Offsets) (d : Disk) (o : Option Bytes)
      → marshal m ≡ o
      → ReadsBack m
      → (restarted (persist_marshalled io o d).1 ≡ restarted d)
        ⊎ Agree (restarted (persist_marshalled io o d).1) m
  unfolding persist_marshalled
  persist_marshalled-atomic io m d none e back = inl refl
  persist_marshalled-atomic io m d (some bytes) e back =
      elim (replace_file-lookup path bytes d io) [
        | inl old ↦ inl (restarted_by d (replace_file io path bytes d).1 old)
        | inr new ↦ inr (restarted-found m bytes (replace_file io path bytes d).1 back e new)
      ]

  -- Wherever the saving of a map ends, a restart has that map or the one that it would have had before.
  persist_offsets-atomic :
      (io : SaveIo) (m : Offsets) (d : Disk)
      → ReadsBack m
      → (restarted (persist_offsets io m d).1 ≡ restarted d)
        ⊎ Agree (restarted (persist_offsets io m d).1) m
  unfolding persist_offsets
  persist_offsets-atomic io m d back =
      either_branch (λ (x : Bool × Disk). (restarted x.1 ≡ restarted d) ⊎ Agree (restarted x.1) m)
        io.made (persist_marshalled-atomic io m d (marshal m) refl back) (inl refl)

  -- An offset that a commit has returned without an error is not lost by the next commit, wherever
  -- that one is stopped or fails: a restart has all of the one commit, and all or nothing of the other. Both
  -- maps are read back as they were written.
  pub commit-survives :
      (io io' : SaveIo) (group group' : Bytes) (os os' : List Committed) (m : Offsets) (d : Disk)
      → ReadsBack (commit_all group os m)
      → ReadsBack (commit_all group' os' (commit_all group os m))
      → (commit_to_disk io group os m d).0.0 ≡ true
      → Agree
          (restarted
            (commit_to_disk io' group' os'
              (commit_all group os m)
              (commit_to_disk io group os m d).1).1)
          (commit_all group os m)
        ⊎ Agree
            (restarted
              (commit_to_disk io' group' os'
                (commit_all group os m)
                (commit_to_disk io group os m d).1).1)
            (commit_all group' os' (commit_all group os m))
  commit-survives io io' group group' os os' m d back back' ok =
      let saved = (commit_to_disk io group os m d).1 in
      elim (committed-atomic saved) [
        | inl old ↦ inl (λ k. ap (lookup k) old ∙ commit-durable io group os m d back ok k)
        | inr new ↦ inr new
      ]
    where
      next : Offsets
      next = commit_all group' os' (commit_all group os m)

      committed-atomic :
          (d : Disk)
          → (restarted (commit_to_disk io' group' os' (commit_all group os m) d).1 ≡ restarted d)
            ⊎ Agree (restarted (commit_to_disk io' group' os' (commit_all group os m) d).1) next
      committed-atomic d = unfold commit_to_disk in persist_offsets-atomic io' next d back'

-- What `New` makes of the times; a duration that is not positive is 0, and they are in nanoseconds.
unfoldable pub new_config : ℕ → ℕ → (Bytes → List ℕ) → Config
new_config session rebalance partitions_of = record {
  session_timeout = if session == 0 then 10000000000 else session;
  rebalance_wait = if rebalance == 0 then 2000000000 else rebalance;
  partitions_of = partitions_of;
}

-- What is shown of a group: its state, its generation and its members by name.
debug_found : Option Group → State × ℕ × List Bytes
debug_found none = (empty, 0, [])
debug_found (some g) = (g.state, g.generation, sort_by str_leb (names g.members))
  where
    names : List (Bytes × Member) → List Bytes
    names [] = []
    names ((id, m) ∷ ms) = id ∷ names ms

unfoldable pub debug_group : Bytes → Groups → State × ℕ × List Bytes
unfolding debug_found
debug_group id gs = debug_found (lookup id gs)
