-- ===== src/Group/Fetch.antt =====
-- Reading committed offsets back, internal/group/coordinator.go: FetchOffsets.
use logship.Prelude.{
  ◌≡◌, ap, sym, ◌∙◌, Bool, true, not, ◌&&◌, ◌⊎◌, inl, inr, Option, none, some, List, [], ◌∷◌, ◌++◌,
  append_assoc, arith, ◌==◌, if◌then◌else◌, length, Bytes, str_eq, str_eq→eq, str_eq_refl, str_leb,
  insert, sort_by, sort_by-perm, strip_prefix, strip_prefix-append, split_last, split_last-append,
  atoi, itoa, atoi-itoa, itoa-All, FitsInt, Bool-cases,
}
use logship.Prelude.Int.{ℤ, leb_ℤ}
use mathlib.Core.Logic.Or
use mathlib.Core.List.{Mem, Mem-prop, mem-cons, not-mem-nil, mem-cons_self, mem-cons_of_mem}
use mathlib.Core.List.Perm
use logship.Group.Offsets.{Committed, offset_key, commit, commit_all, commit_all-append}

-- The number behind the last slash, if it is one.
numbered : ℤ → Option ℤ → Bytes → Option Committed
numbered offset none topic = none
numbered offset (some p) topic = some (record { topic = topic; partition = p; offset = offset })

split_key : ℤ → Option (Bytes × Bytes) → Option Committed
split_key offset none = none
split_key offset (some (topic, number)) = numbered offset (atoi number) topic

own_key : ℤ → Option Bytes → Option Committed
own_key offset none = none
own_key offset (some rest) = split_key offset (split_last 47 rest)

-- What an entry of the map says of a group, if its key begins with the group and a slash.
unfoldable pub parse_offset : Bytes → Bytes → ℤ → Option Committed
unfolding own_key split_key numbered
parse_offset group key offset = own_key offset (strip_prefix (group ++ (47 ∷ [])) key)

-- No topic asks for all.
is_wanted : Bytes → Committed → Bool
is_wanted topic o = not (not (length topic == 0) && not (str_eq o.topic topic))

add_wanted : Bytes → Option Committed → List Committed → List Committed
add_wanted topic none out = out
add_wanted topic (some o) out = if is_wanted topic o then o ∷ out else out

collect : Bytes → Bytes → List (Bytes × ℤ) → List Committed
collect group topic [] = []
collect group topic ((key, offset) ∷ m) =
    add_wanted topic (parse_offset group key offset) (collect group topic m)

-- By topic, and by partition within a topic.
before : Committed → Committed → Bool
before a b =
    if not (str_eq a.topic b.topic) then str_leb a.topic b.topic else leb_ℤ a.partition b.partition

unfoldable pub fetch_offsets : Bytes → Bytes → List (Bytes × ℤ) → List Committed
unfolding collect add_wanted is_wanted before
fetch_offsets group topic offsets = sort_by before (collect group topic offsets)

-- A key that a commit has made is read back.
pub parse_offset-offset_key :
    (group topic : Bytes) (partition offset : ℤ)
    → FitsInt partition
    → parse_offset group (offset_key group topic partition) offset
      ≡ some (record { topic = topic; partition = partition; offset = offset })
unfolding parse_offset offset_key
parse_offset-offset_key group topic partition offset fits = rw (
  sym (append_assoc group (47 ∷ []) (topic ++ (47 ∷ itoa partition))),
  strip_prefix-append (group ++ (47 ∷ [])) (topic ++ (47 ∷ itoa partition)),
  split_last-append 47 topic (itoa partition) (itoa-All partition),
  atoi-itoa partition fits,
)

Mem-insert : (k : Bytes) (v : ℤ) (m : List (Bytes × ℤ)) → Mem (k, v) (insert k v m)
unfolding insert
Mem-insert k v [] = mem-cons_self
Mem-insert k v ((j, w) ∷ m) = elim (Bool-cases (str_eq j k)) [
  | inl same ↦ rw (same, str_eq→eq j k same) mem-cons_self
  | inr other ↦ rw other (mem-cons_of_mem (j, w) (Mem-insert k v m))
]

Mem-add_wanted :
    (topic : Bytes) (parsed : Option Committed) (out : List Committed) (o : Committed)
    → Mem o out
    → Mem o (add_wanted topic parsed out)
unfolding add_wanted
Mem-add_wanted topic none out o h = h
Mem-add_wanted topic (some p) out o h = elim (Bool-cases (is_wanted topic p)) [
  | inl wanted ↦ rw wanted (mem-cons_of_mem p h)
  | inr other ↦ rw other h
]

Mem-first :
    (group topic key : Bytes) (v : ℤ) (o : Committed) (j : Bytes) (w : ℤ) (out : List Committed)
    → parse_offset group key v ≡ some o
    → is_wanted topic o ≡ true
    → ◌≡◌ {A = Bytes × ℤ} (key, v) (j, w)
    → Mem o (add_wanted topic (parse_offset group j w) out)
unfolding add_wanted
Mem-first group topic key v o j w out parsed wanted e =
    let here : parse_offset group j w ≡ some o =
      ap (λ (kv : Bytes × ℤ). parse_offset group kv.0 kv.1) (sym e) ∙ parsed in
    rw (here, wanted) mem-cons_self

asked-IsWanted :
    (asked : Bytes) (o : Committed) → (asked ≡ []) ⊎ (asked ≡ o.topic) → is_wanted asked o ≡ true
unfolding is_wanted
asked-IsWanted asked o (inl e) = rw e
asked-IsWanted asked o (inr e) = rw (e, str_eq_refl o.topic) (ground arith)

Mem-collect :
    (group topic key : Bytes) (v : ℤ) (o : Committed) (m : List (Bytes × ℤ))
    → parse_offset group key v ≡ some o
    → is_wanted topic o ≡ true
    → Mem (key, v) m
    → Mem o (collect group topic m)
unfolding collect
Mem-collect group topic key v o [] parsed wanted h = absurd (not-mem-nil h)
Mem-collect group topic key v o ((j, w) ∷ m) parsed wanted h =
    Or.elim Mem-prop (mem-cons.0 h)
      (λ e. Mem-first group topic key v o j w (collect group topic m) parsed wanted e)
      (λ behind.
        Mem-add_wanted topic (parse_offset group j w) (collect group topic m) o
          (Mem-collect group topic key v o m parsed wanted behind))

-- The offset last committed for a partition is among those fetched, both for its topic and for all
-- topics, whether or not the file could be written.
pub fetch_offsets-commit :
    (saved : Bool) (group asked : Bytes) (os : List Committed) (o : Committed)
    (offsets : List (Bytes × ℤ))
    → FitsInt o.partition
    → (asked ≡ []) ⊎ (asked ≡ o.topic)
    → Mem o (fetch_offsets group asked (commit saved group (os ++ o ∷ []) offsets).1)
unfolding fetch_offsets commit
fetch_offsets-commit saved group asked os o offsets fits which =
    let key = offset_key group o.topic o.partition in
    let kept : Mem (key, o.offset) (commit_all group (os ++ o ∷ []) offsets) =
      rw (commit_all-append group os o offsets)
        (Mem-insert key o.offset (commit_all group os offsets)) in
    (Perm.mem_iff
        (sort_by-perm before (collect group asked (commit_all group (os ++ o ∷ []) offsets)))).1
      (Mem-collect group asked key o.offset o (commit_all group (os ++ o ∷ []) offsets)
        (parse_offset-offset_key group o.topic o.partition o.offset fits)
        (asked-IsWanted asked o which) kept)
