-- ===== src/Assignor.antt =====
-- The range assignor of consumer groups, internal/assignor/range.go. A Go map is an association
-- list; partition ids are ℕ. The slices `parts[idx:idx+count]` are `take` and `drop`.
pub mod Shares
mod Tests
use logship.Prelude.{
  ℕ, zero, suc, ◌+◌, ◌-◌, ◌*◌, ◌/◌, ◌%◌, ◌≡◌, refl, Bool, true, false, not, ◌&&◌, Option, none,
  some, List, [], ◌∷◌, ◌++◌, arith, ltb, leb, ◌==◌, if◌then◌else◌, length, take, drop, Bytes,
  str_leb, str_eq, sort_by, lookup, insert,
}

-- For a member, its partitions of each topic.
abbrev pub Topics : Type 0
Topics = List (Bytes × List ℕ)

abbrev pub Assignment : Type 0
Assignment = List (Bytes × Topics)

unfoldable pub or_empty {ℓ} : {A : Type ℓ} → Option (List A) → List A
or_empty none = []
or_empty (some xs) = xs

-- `out[m][topic]`, empty where a key is missing.
unfoldable pub held : Bytes → Bytes → Assignment → List ℕ
held m topic out = or_empty (lookup topic (or_empty (lookup m out)))

-- `out[m][topic] = append(out[m][topic], parts...)`
unfoldable pub give : Bytes → Bytes → List ℕ → Assignment → Assignment
give m topic parts out =
    insert m (insert topic (held m topic out ++ parts) (or_empty (lookup m out))) out

unfoldable pub count_at : ℕ → ℕ → ℕ → ℕ
count_at per extra i = if ltb i extra then per + 1 else per

unfoldable pub assign_members :
    List Bytes → Bytes → List ℕ → ℕ → ℕ → ℕ → ℕ → Assignment → Assignment
assign_members [] topic parts per extra i idx out = out
assign_members (m ∷ ms) topic parts per extra i idx out =
    let count = count_at per extra i in
    if count == 0
    then assign_members ms topic parts per extra (i + 1) idx out
    else assign_members ms topic parts per extra (i + 1) (idx + count)
        (give m topic (take count (drop idx parts)) out)

unfoldable pub assign_range : List Bytes → Bytes → List ℕ → Assignment → Assignment
assign_range members topic parts out =
    if length members == 0
    then out
    else if length parts == 0
    then out
    else assign_members members topic parts (length parts / length members)
        (length parts % length members) 0 0 out

unfoldable pub empty_shares : List Bytes → Assignment → Assignment
empty_shares [] out = out
empty_shares (m ∷ ms) out = empty_shares ms (insert m [] out)

unfoldable pub assign_topics : List Bytes → List Bytes → Topics → Assignment → Assignment
assign_topics ms [] topic_partitions out = out
assign_topics ms (topic ∷ topics) topic_partitions out =
    assign_topics ms topics topic_partitions
      (assign_range ms topic (sort_by leb (or_empty (lookup topic topic_partitions))) out)

unfoldable pub keys {ℓ} : {A : Type ℓ} → List (Bytes × A) → List Bytes
keys [] = []
keys ((k, v) ∷ m) = k ∷ keys m

unfoldable pub range_assign : List Bytes → Topics → Assignment
range_assign members topic_partitions =
    let ms = sort_by str_leb members in
    let out = empty_shares ms [] in
    if length ms == 0
    then out
    else assign_topics ms (sort_by str_leb (keys topic_partitions)) topic_partitions out
