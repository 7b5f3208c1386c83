-- ===== src/Node/Metadata/Reach.antt =====
-- Whatever a controller does with the topics that it has created, internal/broker.
use logship.Prelude.{ℕ, ◌≡◌, sym, subst, ◌∙◌, Option, none, some, List, [], Bytes, lookup, Bool}
use logship.Prelude.Int.{ℤ}
use logship.Segment.{Result}
use logship.Log.{Log}
use logship.Cluster.{all, is_alive, mark_seen}
use logship.Broker.{PartitionMeta, assign_replicas}
use logship.Broker.Produce.{Topics, create_topic, create_absent}
use logship.Protocol.{ReplicaAckRequest}
use logship.Node.{Node, note_replica, recompute_hw}
use logship.Node.Replicate.{handle_replica_ack}
use logship.Node.Metadata.{at_least_zero, broker_ids, create_topic_locked, controller_tick}
use logship.Node.Metadata.Led.{
  AllSound, IfSome, assign_from_sound, created-AllSound, controller_tick-AllSound,
}
use logship.Node.Metadata.Recompute.{recompute_hw-AllSound}

-- What happens to the topics of a broker that takes no metadata from others.
pub data Step : Node → Node → Type 0 where
  creates :
      (n : Node) (name : Bytes) (npart rf : ℤ) (ts : Topics)
      → create_topic_locked name npart rf n ≡ some ts
      → Step n (record n { topics = ts })
  ticks :
      (n : Node) (now : ℕ) (ts : Topics)
      → controller_tick (is_alive now n.cluster) n.topics ≡ some ts
      → Step n (record n { topics = ts })
  recomputes :
      (n : Node) (opened : Bytes → Result Log) (now : ℕ) (topic : Bytes) (partition : ℤ)
      → Step n (recompute_hw opened now topic partition n)
  acknowledges :
      (n : Node) (opened : Bytes → Result Log) (now : ℕ) (req : ReplicaAckRequest)
      → Step n (handle_replica_ack opened now req n)
  hears : (n : Node) (id now : ℕ) → Step n (record n { cluster = mark_seen id now n.cluster })

pub data Steps : Node → Node → Type 0 where
  start : (n : Node) → Steps n n
  then : {n m k : Node} → Steps n m → Step m k → Steps n k

create_absent-AllSound :
    (name : Bytes) (npart rf : ℕ) (ids : List ℕ) (found : Option (List PartitionMeta)) (ts : Topics)
    → AllSound ts
    → IfSome AllSound (create_absent name npart rf ids found ts)
unfolding create_absent assign_replicas
create_absent-AllSound name npart rf ids none ts h =
    created-AllSound name _ ts (assign_from_sound ids _ 0 _) h
create_absent-AllSound name npart rf ids (some ps) ts h = h

create_topic_locked-AllSound :
    (name : Bytes) (npart rf : ℤ) (n : Node)
    → AllSound n.topics
    → IfSome AllSound (create_topic_locked name npart rf n)
unfolding create_topic_locked create_topic
create_topic_locked-AllSound name npart rf n h =
    create_absent-AllSound name (at_least_zero npart) (at_least_zero rf)
      (broker_ids (all n.cluster)) (lookup name n.topics) n.topics h

from_some : (o : Option Topics) (ts : Topics) → o ≡ some ts → IfSome AllSound o → AllSound ts
from_some o ts e h = subst (IfSome AllSound) e h

Step-AllSound : (n m : Node) → Step n m → AllSound n.topics → AllSound m.topics
unfolding handle_replica_ack note_replica
Step-AllSound _ _ (creates n name npart rf ts e) h =
    from_some _ ts e (create_topic_locked-AllSound name npart rf n h)
Step-AllSound _ _ (ticks n now ts e) h =
    let (us, made, sound) = controller_tick-AllSound (is_alive now n.cluster) n.topics h in
    from_some _ ts (sym made ∙ e) sound
Step-AllSound _ _ (recomputes n opened now topic partition) h =
    recompute_hw-AllSound opened now topic partition n h
Step-AllSound _ _ (acknowledges n opened now req) h =
    recompute_hw-AllSound opened now req.topic req.partition
      (note_replica now req.topic req.partition req.broker_id req.leo n) h
Step-AllSound _ _ (hears n id now) h = h

Steps-AllSound : (n m : Node) → Steps n m → AllSound n.topics → AllSound m.topics
Steps-AllSound _ _ (start n) h = h
Steps-AllSound n k (then {m = m} before step) h =
    Step-AllSound m k step (Steps-AllSound n m before h)

-- Whatever a broker that starts with no topics and takes no metadata from others does as the
-- controller, with what is heard of other brokers, and as a leader: each of its partitions is led by a replica that is in the ISR, they are
-- numbered from 0 on, and the next tick of the controller does not fail.
pub Steps-controller_tick :
    (n m : Node) (alive : ℕ → Bool)
    → n.topics ≡ []
    → Steps n m
    → AllSound m.topics × ((ts : Topics) × (controller_tick alive m.topics ≡ some ts) × AllSound ts)
Steps-controller_tick n m alive e steps =
    let sound = Steps-AllSound n m steps (subst AllSound (sym e) tt) in
    (sound, controller_tick-AllSound alive m.topics sound)
