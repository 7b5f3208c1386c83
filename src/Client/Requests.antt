-- ===== src/Client/Requests.antt =====
-- The requests that the client sends, internal/client/client.go. `escape` is url.PathEscape; a query is
-- the list of its keys and values, as package net/url encodes and parses them.
use logship.Prelude.{
  ℕ, Bool, true, List, [], ◌∷◌, ◌++◌, Bytes, itoa, length, ◌==◌, leb, if◌then◌else◌, none, some,
}
use logship.Prelude.Int.{ℤ, pos}
use logship.Protocol.{
  CreateTopicRequest, ProduceRequest, JoinRequest, SyncRequest, HeartbeatRequest, LeaveRequest,
  OffsetCommitRequest, HeartbeatPeerRequest, MetadataPush, ReplicaAckRequest,
}
use logship.Client.{Answer, ok, no_answer, refused, Response}
use logship.Client.Words.{
  health_word, metadata_word, topics_word, produce_word, fetch_word, groups_word, join_word,
  sync_word, heartbeat_word, leave_word, offsets_word, internal_word, replica_word, ack_word,
  topic_word, partition_word, offset_word, max_bytes_word,
}

pub data Method : Type 0 where
  get post : Method

-- What is sent as JSON.
pub data Body : Type 0 where
  empty : Body
  of_topic : CreateTopicRequest → Body
  of_produce : ProduceRequest → Body
  of_join : JoinRequest → Body
  of_sync : SyncRequest → Body
  of_heartbeat : HeartbeatRequest → Body
  of_leave : LeaveRequest → Body
  of_offsets : OffsetCommitRequest → Body
  of_peer : HeartbeatPeerRequest → Body
  of_push : MetadataPush → Body
  of_ack : ReplicaAckRequest → Body

pub record Request : Type 0 where
  pub method : Method
  pub path : Bytes
  pub query : List (Bytes × Bytes)
  pub body : Body

-- 47 is the slash.
abbrev pub at_path : List Bytes → Bytes
at_path [] = []
at_path (w ∷ ws) = 47 ∷ (w ++ at_path ws)

asks : List Bytes → Request
asks ws = record { method = get; path = at_path ws; query = []; body = empty }

posts : List Bytes → Body → Request
posts ws body = record { method = post; path = at_path ws; query = []; body = body }

unfoldable pub health : Request
unfolding asks
health = asks (health_word ∷ [])

unfoldable pub metadata : Request
unfolding asks
metadata = asks (metadata_word ∷ [])

unfoldable pub create_topic : Bytes → ℤ → ℤ → Request
unfolding posts
create_topic name partitions rf =
    posts (topics_word ∷ [])
      (of_topic record { name = name; partitions = partitions; replication_factor = rf })

unfoldable pub produce : ProduceRequest → Request
unfolding posts
produce req = posts (produce_word ∷ []) (of_produce req)

-- "1"
abbrev pub one_word : Bytes
one_word = 49 ∷ []

unfoldable pub fetch : Bytes → ℤ → ℤ → ℤ → Bool → Request
fetch topic partition offset max_bytes replica = record {
  method = get;
  path = at_path (fetch_word ∷ []);
  query =
      (topic_word, topic)
      ∷ (partition_word, itoa partition)
      ∷ (offset_word, itoa offset)
      ∷ (max_bytes_word, itoa max_bytes)
      ∷ (if replica then (replica_word, one_word) ∷ [] else []);
  body = empty;
}

unfoldable pub replica_fetch : Bytes → ℤ → ℤ → Request
unfolding fetch
replica_fetch topic partition offset = fetch topic partition offset (pos 1048576) true

module _ (escape : Bytes → Bytes) where
  group_call : Bytes → Bytes → Body → Request
  group_call group word body = posts (groups_word ∷ escape group ∷ word ∷ []) body

  unfoldable pub join : Bytes → JoinRequest → Request
  unfolding group_call posts
  join group req = group_call group join_word (of_join req)

  unfoldable pub sync : Bytes → SyncRequest → Request
  unfolding group_call posts
  sync group req = group_call group sync_word (of_sync req)

  unfoldable pub heartbeat : Bytes → HeartbeatRequest → Request
  unfolding group_call posts
  heartbeat group req = group_call group heartbeat_word (of_heartbeat req)

  unfoldable pub leave : Bytes → Bytes → Request
  unfolding group_call posts
  leave group member_id = group_call group leave_word (of_leave record { member_id = member_id })

  unfoldable pub commit_offsets : Bytes → OffsetCommitRequest → Request
  unfolding group_call posts
  commit_offsets group req = group_call group offsets_word (of_offsets req)

  -- No topic asks for all.
  unfoldable pub fetch_offsets : Bytes → Bytes → Request
  fetch_offsets group topic = record {
    method = get;
    path = at_path (groups_word ∷ escape group ∷ offsets_word ∷ []);
    query = if length topic == 0 then [] else (topic_word, topic) ∷ [];
    body = empty;
  }

unfoldable pub peer_heartbeat : ℕ → Request
unfolding posts
peer_heartbeat id = posts (internal_word ∷ heartbeat_word ∷ []) (of_peer record { broker_id = id })

unfoldable pub push_metadata : MetadataPush → Request
unfolding posts
push_metadata push = posts (internal_word ∷ metadata_word ∷ []) (of_push push)

unfoldable pub replica_ack : ReplicaAckRequest → Request
unfolding posts
replica_ack req = posts (internal_word ∷ replica_word ∷ ack_word ∷ []) (of_ack req)

-- What the last three make of the answer; the text of an error is the body.
unfoldable pub accepted : Response → Answer (Unit {0})
accepted none = no_answer
accepted (some (code, raw)) = if leb 400 code then refused raw else ok tt
