-- ===== src/Node/Followers.antt =====
-- `syncFollowers` of internal/broker/replica.go, with the goroutines that it starts and cancels. A
-- goroutine that is not cancelled may have returned by itself: `followLoop` does so on some conditions.
use logship.Prelude.{
  ℕ, ◌≡◌, Bool, true, false, not, ◌&&◌, ◌||◌, Option, none, some, List, [], ◌∷◌, ◌==◌,
  if◌then◌else◌, Bytes, lookup, insert, str_eq, split_last, atoi, itoa, itoa-All, atoi-itoa,
  split_last-append, FitsInt,
}
use logship.Prelude.Int.{ℤ, pos}
use logship.Broker.{PartitionMeta, contains}
use logship.Broker.Produce.{Topics}
use logship.Store.{key}
use logship.Node.{Node}
use logship.Node.Metadata.{snapshot_topics}

abbrev pub Wanted : Type 0
Wanted = List (Bytes × PartitionMeta)

wanted_partitions : ℕ → Bytes → List PartitionMeta → Wanted → Wanted
wanted_partitions self topic [] w = w
wanted_partitions self topic (p ∷ ps) w = wanted_partitions self topic ps (
    if contains p.replicas self && not (p.leader == self)
    then insert (key topic (pos p.id)) p w
    else w)

wanted_topics : ℕ → Topics → Wanted → Wanted
wanted_topics self [] w = w
wanted_topics self ((topic, ps) ∷ ts) w = wanted_topics self ts (wanted_partitions self topic ps w)

-- The partitions of which this broker is a replica and not the leader.
unfoldable pub wanted : Node → Wanted
unfolding wanted_topics wanted_partitions
wanted n = wanted_topics n.id (snapshot_topics n.topics) []

unfoldable pub is_running : Bytes → List Bytes → Bool
is_running k [] = false
is_running k (j ∷ js) = str_eq j k || is_running k js

found : Option PartitionMeta → Bool
found none = false
found (some p) = true

unfoldable pub is_wanted : Bytes → Wanted → Bool
unfolding found
is_wanted k w = found (lookup k w)

or_zero : Option ℤ → ℤ
or_zero none = pos 0
or_zero (some n) = n

parts_of : Bytes → Option (Bytes × Bytes) → Bytes × ℤ
parts_of k none = (k, pos 0)
parts_of k (some (topic, number)) = (topic, or_zero (atoi number))

-- The topic and the partition that the goroutine of a key is started with.
unfoldable pub split_replica_key : Bytes → Bytes × ℤ
unfolding parts_of or_zero
split_replica_key k = parts_of k (split_last 47 k)

-- The key of a partition is taken apart as it was put together, also for a topic with slashes.
pub split_replica_key-key :
    (topic : Bytes) (partition : ℤ)
    → FitsInt partition
    → split_replica_key (key topic partition) ≡ (topic, partition)
unfolding split_replica_key parts_of or_zero key
split_replica_key-key topic partition fits =
    rw (split_last-append 47 topic (itoa partition) (itoa-All partition), atoi-itoa partition fits)

-- A run of `followLoop`, with what it was started with; `key` is the one of its context's cancel.
pub record Goroutine : Type 0 where
  pub key : Bytes
  pub topic : Bytes
  pub partition : ℤ
  pub cancelled : Bool

-- The keys of followCancel, and all goroutines that were started.
pub record Followers : Type 0 where
  pub cancels : List Bytes
  pub goroutines : List Goroutine

-- A goroutine was started for the key and not cancelled.
unfoldable pub has_live : Bytes → List Goroutine → Bool
has_live k [] = false
has_live k (g ∷ gs) = not g.cancelled && str_eq g.key k || has_live k gs

-- The cancel function that followCancel has for a key.
cancel : Bytes → List Goroutine → List Goroutine
cancel k [] = []
cancel k (g ∷ gs) = record g { cancelled = g.cancelled || str_eq g.key k } ∷ cancel k gs

keep_wanted : Wanted → List Bytes → List Bytes
keep_wanted w [] = []
keep_wanted w (k ∷ ks) = let rest = keep_wanted w ks in if is_wanted k w then k ∷ rest else rest

cancel_unwanted : Wanted → List Bytes → List Goroutine → List Goroutine
cancel_unwanted w [] gs = gs
cancel_unwanted w (k ∷ ks) gs = cancel_unwanted w ks (if is_wanted k w then gs else cancel k gs)

-- `go followLoop`, with a new context.
started : Bytes → Followers → Followers
started k f = record {
  cancels = k ∷ f.cancels;
  goroutines =
      record {
        key = k;
        topic = (split_replica_key k).0;
        partition = (split_replica_key k).1;
        cancelled = false;
      }
      ∷ f.goroutines;
}

start_missing : Wanted → Followers → Followers
start_missing [] f = f
start_missing ((k, p) ∷ ws) f = start_missing ws (if is_running k f.cancels then f else started k f)

unfoldable pub sync_followers : Wanted → Followers → Followers
unfolding keep_wanted cancel_unwanted cancel start_missing started
sync_followers w f = start_missing w (record {
  cancels = keep_wanted w f.cancels;
  goroutines = cancel_unwanted w f.cancels f.goroutines;
})
