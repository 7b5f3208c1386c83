-- ===== src/Node/Metadata.antt =====
-- The topics of a broker as a whole, internal/broker/metadata.go and broker.go.
pub mod Led
pub mod Recompute
pub mod Reach
mod Tests
use logship.Prelude.{
  ℕ, Bool, true, false, not, ◌||◌, Option, none, some, List, [], ◌∷◌, ◌==◌, if◌then◌else◌, Bytes,
  lookup, insert, str_leb, sort_by, length, min,
}
use logship.Prelude.Int.{ℤ, pos, negsuc}
use logship.Log.{Log, leo, high_watermark}
use logship.Cluster.{Cluster, Peer, is_alive, is_controller, controller_id, all, other_peers}
use logship.Broker.{PartitionMeta, apply_partition}
use logship.Broker
use logship.Broker.Produce.{Topics, create_topic}
use logship.Store.{get}
use logship.Protocol.{
  PartitionInfo, TopicInfo, BrokerInfo, Metadata, MetadataPush, TopicSnapshot, CreateTopicRequest,
}
use logship.Node.{Node}

or_no_partitions : Option (List PartitionMeta) → List PartitionMeta
or_no_partitions none = []
or_no_partitions (some ps) = ps

ids_of : List PartitionMeta → List ℕ
ids_of [] = []
ids_of (p ∷ ps) = p.id ∷ ids_of ps

-- What the coordinator asks: the partitions of a topic, none for an unknown one.
unfoldable pub topic_partitions : Bytes → Node → List ℕ
unfolding or_no_partitions ids_of
topic_partitions topic n = ids_of (or_no_partitions (lookup topic n.topics))

-- Topics in the order of their names.
unfoldable pub snapshot_topics : Topics → Topics
snapshot_topics = sort_by (λ t u. str_leb t.0 u.0)

apply_partitions :
    ℕ → Bool → (ℕ → Bool) → List PartitionMeta → List PartitionMeta → List PartitionMeta
apply_partitions self controller alive prev [] = []
apply_partitions self controller alive prev (p ∷ ps) =
    apply_partition self controller alive prev p ∷ apply_partitions self controller alive prev ps

-- The topics of a snapshot, one after another, against those that are there.
unfoldable pub apply_topics : ℕ → Bool → (ℕ → Bool) → Topics → Topics → Topics
unfolding apply_partitions or_no_partitions
apply_topics self controller alive [] topics = topics
apply_topics self controller alive ((name, ps) ∷ ts) topics =
    apply_topics self controller alive ts (
      insert name
        (apply_partitions self controller alive (or_no_partitions (lookup name topics)) ps) topics)

tick_next : Bytes → Option (List PartitionMeta) → Option Topics → Option Topics
tick_next name none rest = none
tick_next name (some ps) none = none
tick_next name (some ps) (some ts) = some ((name, ps) ∷ ts)

-- `controllerTick` on all topics; `none` is where it would panic.
unfoldable pub controller_tick : (ℕ → Bool) → Topics → Option Topics
unfolding tick_next
controller_tick alive [] = some []
controller_tick alive ((name, ps) ∷ ts) =
    tick_next name (Broker.controller_tick alive ps) (controller_tick alive ts)

broker_ids : List Peer → List ℕ
broker_ids [] = []
broker_ids (p ∷ ps) = p.id ∷ broker_ids ps

-- `createTopicLocked`; a number that is not positive is 0 here.
at_least_zero : ℤ → ℕ
at_least_zero (pos n) = n
at_least_zero (negsuc n) = 0

unfoldable pub create_topic_locked : Bytes → ℤ → ℤ → Node → Option Topics
unfolding broker_ids at_least_zero
create_topic_locked name npart rf n =
    create_topic name (at_least_zero npart) (at_least_zero rf) (broker_ids (all n.cluster)) n.topics

-- "__consumer_offsets"
abbrev pub offsets_topic : Bytes
offsets_topic =
    95 ∷ 95 ∷ 99 ∷ 111 ∷ 110 ∷ 115 ∷ 117 ∷ 109 ∷ 101 ∷ 114 ∷ 95 ∷ 111 ∷ 102 ∷ 102 ∷ 115 ∷ 101 ∷ 116
    ∷ 115 ∷ []

-- One partition, on up to three brokers; nothing where the topic is there.
unfoldable pub ensure_offsets_topic : Node → Option Topics
ensure_offsets_topic n =
    create_topic_locked offsets_topic (pos 1) (pos (min 3 (length (all n.cluster)))) n

partition_info : PartitionMeta → PartitionInfo
partition_info p = record {
  id = p.id;
  leader = p.leader;
  replicas = p.replicas;
  isr = p.isr;
  hw = 0;
  leo = 0;
}

partition_infos : List PartitionMeta → List PartitionInfo
partition_infos [] = []
partition_infos (p ∷ ps) = partition_info p ∷ partition_infos ps

topic_snapshots : Topics → List TopicSnapshot
topic_snapshots [] = []
topic_snapshots ((name, ps) ∷ ts) =
    record { name = name; partitions = partition_infos ps } ∷ topic_snapshots ts

unfoldable pub metadata_push : ℕ → Node → MetadataPush
unfolding topic_snapshots partition_infos partition_info
metadata_push now n = record {
  controller = controller_id now n.cluster;
  topics = topic_snapshots (snapshot_topics n.topics);
}

pushes : MetadataPush → List Peer → List (Bytes × MetadataPush)
pushes push [] = []
pushes push (p ∷ ps) = (p.addr, push) ∷ pushes push ps

-- What `broadcastMetadata` sends, and to which addresses.
unfoldable pub broadcast_metadata : ℕ → Node → List (Bytes × MetadataPush)
unfolding pushes
broadcast_metadata now n = pushes (metadata_push now n) (other_peers n.cluster)

pushed_partitions : List PartitionInfo → List PartitionMeta
pushed_partitions [] = []
pushed_partitions (p ∷ ps) =
    record { id = p.id; leader = p.leader; replicas = p.replicas; isr = p.isr }
    ∷ pushed_partitions ps

unfoldable pub pushed_topics : List TopicSnapshot → Topics
unfolding pushed_partitions
pushed_topics [] = []
pushed_topics (t ∷ ts) = (t.name, pushed_partitions t.partitions) ∷ pushed_topics ts

-- `handleMetadataPush` on the state; the followers are started behind it.
unfoldable pub handle_metadata_push : ℕ → MetadataPush → Node → Node
handle_metadata_push now push n = record n {
  topics =
      apply_topics n.id (is_controller now n.cluster) (is_alive now n.cluster)
        (pushed_topics push.topics) n.topics;
}

watermarks : Option Log → ℕ × ℕ
watermarks none = (0, 0)
watermarks (some l) = (high_watermark l, leo l)

public_partitions : Bytes → List PartitionMeta → Node → List PartitionInfo
public_partitions topic [] n = []
public_partitions topic (p ∷ ps) n =
    let ends = watermarks (get topic (pos p.id) n.store) in
    record {
      id = p.id;
      leader = p.leader;
      replicas = p.replicas;
      isr = p.isr;
      hw = ends.0;
      leo = ends.1;
    }
    ∷ public_partitions topic ps n

public_topics : Topics → Node → List TopicInfo
public_topics [] n = []
public_topics ((name, ps) ∷ ts) n =
    record { name = name; partitions = public_partitions name ps n } ∷ public_topics ts n

public_brokers : ℕ → List Peer → Cluster → List BrokerInfo
public_brokers now [] c = []
public_brokers now (p ∷ ps) c =
    record { id = p.id; addr = p.addr; alive = is_alive now c p.id } ∷ public_brokers now ps c

unfoldable pub public_metadata : ℕ → Node → Metadata
unfolding public_brokers public_topics public_partitions watermarks
public_metadata now n = record {
  controller = controller_id now n.cluster;
  brokers = public_brokers now (all n.cluster) n.cluster;
  topics = public_topics (snapshot_topics n.topics) n;
}
