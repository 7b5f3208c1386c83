-- ===== src/Protocol.antt =====
-- The messages between brokers and clients, internal/protocol/types.go. Go's `int` is ℤ where a
-- message may hold a negative one, and ℕ for broker ids, offsets in a log and what comes from one.
pub mod Json
use logship.Prelude.{ℕ, Bool, List, Bytes}
use logship.Prelude.Int.{ℤ}

pub record ErrorBody : Type 0 where
  pub error : Bytes
  pub leader : ℕ
  pub leader_addr : Bytes

pub record CreateTopicRequest : Type 0 where
  pub name : Bytes
  pub partitions : ℤ
  pub replication_factor : ℤ

pub record BrokerInfo : Type 0 where
  pub id : ℕ
  pub addr : Bytes
  pub alive : Bool

pub record PartitionInfo : Type 0 where
  pub id : ℕ
  pub leader : ℕ
  pub replicas : List ℕ
  pub isr : List ℕ
  pub hw : ℕ
  pub leo : ℕ

pub record TopicInfo : Type 0 where
  pub name : Bytes
  pub partitions : List PartitionInfo

pub record Metadata : Type 0 where
  pub controller : ℕ
  pub brokers : List BrokerInfo
  pub topics : List TopicInfo

pub record ProduceRecord : Type 0 where
  pub key : Bytes
  pub value : Bytes
  pub partition : ℤ

pub record ProduceRequest : Type 0 where
  pub topic : Bytes
  pub partition : ℤ
  pub key : Bytes
  pub value : Bytes
  pub acks : Bytes
  pub records : List ProduceRecord

pub record ProduceResult : Type 0 where
  pub partition : ℤ
  pub offset : ℕ

pub record ProduceResponse : Type 0 where
  pub topic : Bytes
  pub results : List ProduceResult

pub record WireRecord : Type 0 where
  pub offset : ℕ
  pub timestamp : ℕ
  pub key : Bytes
  pub value : Bytes

pub record FetchResponse : Type 0 where
  pub topic : Bytes
  pub partition : ℤ
  pub high_watermark : ℕ
  pub log_end_offset : ℕ
  pub records : List WireRecord

pub record ReplicaAckRequest : Type 0 where
  pub broker_id : ℕ
  pub topic : Bytes
  pub partition : ℤ
  pub leo : ℕ

pub record HeartbeatPeerRequest : Type 0 where
  pub broker_id : ℕ

pub record TopicSnapshot : Type 0 where
  pub name : Bytes
  pub partitions : List PartitionInfo

pub record MetadataPush : Type 0 where
  pub controller : ℕ
  pub topics : List TopicSnapshot

-- The calls of the consumer groups. An omitted field has its zero value.
pub record JoinRequest : Type 0 where
  pub member_id : Bytes
  pub topics : List Bytes

pub record JoinResponse : Type 0 where
  pub member_id : Bytes
  pub generation : ℤ
  pub leader_id : Bytes
  pub members : List Bytes
  pub state : Bytes

pub record SyncRequest : Type 0 where
  pub member_id : Bytes
  pub generation : ℤ

-- The assignment is a map from topics.
pub record SyncResponse : Type 0 where
  pub generation : ℤ
  pub assignment : List (Bytes × List ℤ)
  pub state : Bytes

pub record HeartbeatRequest : Type 0 where
  pub member_id : Bytes
  pub generation : ℤ

pub record HeartbeatResponse : Type 0 where
  pub error : Bytes
  pub state : Bytes

pub record LeaveRequest : Type 0 where
  pub member_id : Bytes

pub record OffsetCommit : Type 0 where
  pub topic : Bytes
  pub partition : ℤ
  pub offset : ℤ

pub record OffsetCommitRequest : Type 0 where
  pub member_id : Bytes
  pub generation : ℤ
  pub offsets : List OffsetCommit

pub record OffsetFetchResponse : Type 0 where
  pub offsets : List OffsetCommit
