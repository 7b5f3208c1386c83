-- ===== src/Node.antt =====
-- One broker as a whole, internal/broker: its topics, the logs of its partitions, and what it knows
-- of the replicas. A method is a function of the state, and what a lock covers is one step. The clock,
-- and what log.Open gives for the directory of a key, are arguments. Saving topics.json and
-- broadcasting change no state of this broker and are left out.
pub mod Produce
pub mod Fetch
pub mod Replicate
pub mod Watermark
pub mod Metadata
pub mod Followers
pub mod Handlers
pub mod GroupHandlers
pub mod Tick
pub mod Replication
pub mod Start
pub mod Routes
pub mod Sample
mod Tests
use logship.Prelude.{
  ℕ, ◌≡◌, refl, Bool, true, false, ◌||◌, not, Option, none, some, List, [], ◌∷◌, ◌==◌,
  if◌then◌else◌, Bytes, lookup, insert, str_eq,
}
use logship.Prelude.Int.{ℤ, pos, negsuc}
use logship.Segment.{Result, ok, err, panic, stuck}
use logship.Log.{Log, leo, set_high_watermark}
use logship.Cluster.{Cluster, is_alive}
use logship.Broker.{
  PartitionMeta, ReplicaState, with_leader, isr_of, lowest, same_ints, find_partition,
}
use logship.Broker
use logship.Broker.Produce.{Topics, partition_meta, is_solo}
use logship.Store.{Store, key, put, open_partition}

-- `counter` is the partitioner's, `replica_leo` is by replica key.
pub record Node : Type 0 where
  pub id : ℕ
  pub advertise : Bytes
  pub replica_lag_time : ℕ
  pub produce_timeout : ℕ
  pub cluster : Cluster
  pub store : Store
  pub topics : Topics
  pub replica_leo : List (Bytes × (ℕ → Option ReplicaState))
  pub counter : ℕ

-- The metadata of a partition; no partition has a negative id.
unfoldable pub meta_of : Bytes → ℤ → Node → Option PartitionMeta
meta_of topic (pos id) n = partition_meta n.topics topic id
meta_of topic (negsuc id) n = none

pub meta_of-topics :
    (topic : Bytes) (partition : ℤ) (n n' : Node)
    → n.topics ≡ n'.topics
    → meta_of topic partition n' ≡ meta_of topic partition n
unfolding meta_of
meta_of-topics topic (pos p) n n' e = rw e refl
meta_of-topics topic (negsuc p) n n' e = refl

known : Option (ℕ → Option ReplicaState) → ℕ → Option ReplicaState
known none = λ i. none
known (some m) = m

unfoldable pub states_of : Bytes → Node → ℕ → Option ReplicaState
unfolding known
states_of k n = known (lookup k n.replica_leo)

unfoldable pub note_replica : ℕ → Bytes → ℤ → ℕ → ℕ → Node → Node
note_replica now topic partition broker_id end n =
    let k = key topic partition in
    record n {
      replica_leo = insert k (Broker.note_replica broker_id end now (states_of k n)) n.replica_leo;
    }

unfoldable pub note_self_leo : ℕ → Bytes → ℤ → ℕ → Node → Node
note_self_leo now topic partition end n = note_replica now topic partition n.id end n

set_isr : ℕ → List ℕ → List PartitionMeta → List PartitionMeta
set_isr id isr [] = []
set_isr id isr (p ∷ ps) = (if p.id == id then with_leader p.leader isr p else p) ∷ set_isr id isr ps

update_topic : (List PartitionMeta → List PartitionMeta) → Bytes → Topics → Topics
update_topic f name [] = []
update_topic f name ((t, ps) ∷ ts) =
    if str_eq t name then (t, f ps) ∷ ts else (t, ps) ∷ update_topic f name ts

-- The ISR of `recomputeHW`: this broker, and the replicas that are alive and recent.
unfoldable pub isr_now : ℕ → Bytes → PartitionMeta → Node → List ℕ
isr_now now k pm n =
    n.id ∷ isr_of n.id (is_alive now n.cluster) n.replica_lag_time now (states_of k n) pm.replicas

-- `recomputeHW` once the log is open.
unfoldable pub recompute_open : ℕ → Bytes → ℤ → PartitionMeta → Log → Node → Node
unfolding set_isr update_topic
recompute_open now topic partition pm l n =
    let k = key topic partition in
    let isr = isr_now now k pm n in
    record n {
      topics =
          (if same_ints pm.isr isr
            then n.topics
            else update_topic (set_isr pm.id isr) topic n.topics);
      store = put k (set_high_watermark (pos (lowest n.id (states_of k n) isr (leo l))) l) n.store;
    }

recompute_found : ℕ → Bytes → ℤ → PartitionMeta → Result Log × Store → Node → Node
recompute_found now topic partition pm (ok l, s) n =
    recompute_open now topic partition pm l (record n { store = s })
recompute_found now topic partition pm (failed, s) n = record n { store = s }

recompute_known : (Bytes → Result Log) → ℕ → Bytes → ℤ → Option PartitionMeta → Node → Node
recompute_known opened now topic partition none n = n
recompute_known opened now topic partition (some pm) n =
    if not (pm.leader == n.id)
    then n
    else recompute_found now topic partition pm
        (open_partition (opened (key topic partition)) topic partition n.store) n

unfoldable pub recompute_hw : (Bytes → Result Log) → ℕ → Bytes → ℤ → Node → Node
unfolding recompute_known recompute_found
recompute_hw opened now topic partition n =
    recompute_known opened now topic partition (meta_of topic partition n) n

solo_known : Option PartitionMeta → ℕ → Log → Log
solo_known none self l = l
solo_known (some pm) self l = if is_solo self pm then set_high_watermark (pos (leo l)) l else l

-- What `maybeSoloHW` makes of the log.
unfoldable pub maybe_solo_hw : Bytes → ℤ → Node → Log → Log
unfolding solo_known
maybe_solo_hw topic partition n l = solo_known (meta_of topic partition n) n.id l
