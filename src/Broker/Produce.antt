-- ===== src/Broker/Produce.antt =====
-- The topics of a broker and the partition of a produced record, internal/broker/metadata.go,
-- broker.go and handlers.go.
use logship.Prelude.{
  ℕ, ◌<◌, ◌≡◌, ◌^◌, Bool, false, ◌&&◌, ◌||◌, Option, none, some, List, [], ◌∷◌, arith, ◌==◌,
  if◌then◌else◌, leb, ltb, Bytes, lookup, insert, Bool-cases, inl, inr, leb-false→lt, le→ltb-false,
}
use logship.Prelude.Int.{ℤ, pos, negsuc, ltb_ℤ, leb_ℤ}
use logship.Routing.{partition, partition-lt}
use logship.Broker.{PartitionMeta, find_partition, assign_replicas, ◌>>=◌}

abbrev pub Topics : Type 0
Topics = List (Bytes × List PartitionMeta)

unfoldable pub partition_meta : Topics → Bytes → ℕ → Option PartitionMeta
partition_meta topics name id = do ps ← lookup name topics; find_partition id ps

unfoldable pub created : Bytes → Option (List PartitionMeta) → Topics → Option Topics
created name none topics = none
created name (some ps) topics = some (insert name ps topics)

unfoldable pub create_absent :
    Bytes → ℕ → ℕ → List ℕ → Option (List PartitionMeta) → Topics → Option Topics
create_absent name npart rf ids (some ps) topics = some topics
create_absent name npart rf ids none topics =
    created name (assign_replicas (if npart == 0 then 1 else npart) rf ids) topics

-- `ids` are those of all brokers of the cluster; a count that is not positive is 0. Saving and
-- broadcasting come after.
unfoldable pub create_topic : Bytes → ℕ → ℕ → List ℕ → Topics → Option Topics
unfolding create_absent
create_topic name npart rf ids topics = create_absent name npart rf ids (lookup name topics) topics

-- Is the leader its own ISR, so that a record is committed at once?
unfoldable pub is_solo : ℕ → PartitionMeta → Bool
is_solo self pm = solo self pm.isr
  where
    solo : ℕ → List ℕ → Bool
    solo self [] = false
    solo self (i ∷ []) = i == self
    solo self (i ∷ j ∷ is) = false

is_zero : ℤ → Bool
is_zero (pos n) = n == 0
is_zero (negsuc n) = false

route : Bytes → ℕ → ℕ → ℤ × ℕ
route key n rr = let chosen = partition key (pos n) rr in (pos chosen.0, chosen.1)

-- The partition id given with the record or the request, or else the partitioner's choice.
given : Bytes → Bool → ℤ → ℤ → ℕ → ℕ → ℤ × ℕ
given key same_key rec_partition req_partition n rr =
    let pid =
      if ltb_ℤ (pos 0) req_partition && (is_zero rec_partition && same_key)
      then req_partition
      else rec_partition in
    if leb_ℤ pid (pos 0) && (is_zero rec_partition && leb_ℤ req_partition (pos 0))
    then route key n rr
    else (pid, rr)

in_range : ℤ × ℕ → Bytes → ℕ → ℤ × ℕ
in_range (pid, rr) key n =
    if ltb_ℤ pid (pos 0) || leb_ℤ (pos n) pid then route key n rr else (pid, rr)

-- The partition of a record in a topic with `n` partitions, and the partitioner's counter.
unfoldable pub choose_partition : Bytes → Bool → ℤ → ℤ → ℕ → ℕ → ℤ × ℕ
unfolding route in_range given is_zero
choose_partition key same_key rec_partition req_partition n rr =
    in_range (given key same_key rec_partition req_partition n rr) key n

unfoldable pub IsBelow : ℕ → ℤ → Type 0
IsBelow n (pos k) = k < n
IsBelow n (negsuc k) = ⊥

ltb-zero : (k : ℕ) → ltb k 0 ≡ false
ltb-zero k = le→ltb-false k 0 (omega arith)

in_range-IsBelow :
    (n rr : ℕ) (pid : ℤ) (key : Bytes) → 0 < n → n < 2 ^ 32 → IsBelow n (in_range (pid, rr) key n).0
unfolding in_range IsBelow route
in_range-IsBelow n rr (pos k) key h small = elim (Bool-cases (leb n k)) [
  | inl past ↦ rw (ltb-zero k, past) (partition-lt key n rr h small)
  | inr fine ↦ rw (ltb-zero k, fine) (leb-false→lt n k fine)
]
in_range-IsBelow n rr (negsuc k) key h small = partition-lt key n rr h small

-- With one partition or more, fewer than 2 ^ 32, the partition chosen for a record is one of them, whatever
-- ids the request gives.
pub choose_partition-IsBelow :
    (key : Bytes) (same_key : Bool) (rec_partition req_partition : ℤ) (n rr : ℕ)
    → 0 < n
    → n < 2 ^ 32
    → IsBelow n (choose_partition key same_key rec_partition req_partition n rr).0
unfolding choose_partition
choose_partition-IsBelow key same_key rec_partition req_partition n rr h small =
    let g = given key same_key rec_partition req_partition n rr in
    in_range-IsBelow n g.1 g.0 key h small
