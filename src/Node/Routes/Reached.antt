-- ===== src/Node/Routes/Reached.antt =====
-- Each call of internal/client/client.go at the routes of internal/broker/broker.go.
use logship.Prelude.{
  ℕ, ◌<◌, ◌≡◌, ◌≢◌, refl, Bool, true, false, Option, some, [], ◌∷◌, ◌++◌, Bytes, All, arith, length,
  split, split-append, str_eq, lookup, atoi-itoa, FitsInt,
}
use logship.Prelude.Int.{ℤ}
use logship.Protocol.{
  ProduceRequest, JoinRequest, SyncRequest, HeartbeatRequest, OffsetCommitRequest, MetadataPush,
  ReplicaAckRequest,
}
use logship.Client.Requests
use logship.Client.Requests.{Request, at_path}
use logship.Client.Words.{join_word, sync_word, heartbeat_word, leave_word, offsets_word}
use logship.Node.Routes.{
  handle_health, handle_metadata, handle_create_topic, handle_produce, handle_fetch, handle_join,
  handle_sync, handle_heartbeat, handle_leave, handle_commit_offsets, handle_fetch_offsets,
  handle_peer_heartbeat, handle_metadata_push, handle_replica_ack, Dispatched, dispatch, is_clean,
  routes, parse_query,
}

-- The calls of the client.
pub data Call : Type 0 where
  health metadata : Call
  create_topic : Bytes → ℤ → ℤ → Call
  produce : ProduceRequest → Call
  fetch : Bytes → ℤ → ℤ → ℤ → Bool → Call
  join : Bytes → JoinRequest → Call
  sync : Bytes → SyncRequest → Call
  heartbeat : Bytes → HeartbeatRequest → Call
  leave : Bytes → Bytes → Call
  commit_offsets : Bytes → OffsetCommitRequest → Call
  fetch_offsets : Bytes → Bytes → Call
  peer_heartbeat : ℕ → Call
  push_metadata : MetadataPush → Call
  replica_ack : ReplicaAckRequest → Call

-- The handler that each call is meant for, and the group that it names.
abbrev pub meant : Call → Dispatched
meant health = record { handler = handle_health; group = [] }
meant metadata = record { handler = handle_metadata; group = [] }
meant (create_topic name partitions rf) = record { handler = handle_create_topic; group = [] }
meant (produce req) = record { handler = handle_produce; group = [] }
meant (fetch topic partition offset max_bytes replica) = record {
  handler = handle_fetch;
  group = [];
}
meant (join group req) = record { handler = handle_join; group = group }
meant (sync group req) = record { handler = handle_sync; group = group }
meant (heartbeat group req) = record { handler = handle_heartbeat; group = group }
meant (leave group id) = record { handler = handle_leave; group = group }
meant (commit_offsets group req) = record { handler = handle_commit_offsets; group = group }
meant (fetch_offsets group topic) = record { handler = handle_fetch_offsets; group = group }
meant (peer_heartbeat id) = record { handler = handle_peer_heartbeat; group = [] }
meant (push_metadata push) = record { handler = handle_metadata_push; group = [] }
meant (replica_ack req) = record { handler = handle_replica_ack; group = [] }

module _ (escape : Bytes → Bytes) (unescape : Bytes → Option Bytes) where
  abbrev pub request : Call → Request
  request health = Requests.health
  request metadata = Requests.metadata
  request (create_topic name partitions rf) = Requests.create_topic name partitions rf
  request (produce req) = Requests.produce req
  request (fetch topic partition offset max_bytes replica) =
      Requests.fetch topic partition offset max_bytes replica
  request (join group req) = Requests.join escape group req
  request (sync group req) = Requests.sync escape group req
  request (heartbeat group req) = Requests.heartbeat escape group req
  request (leave group id) = Requests.leave escape group id
  request (commit_offsets group req) = Requests.commit_offsets escape group req
  request (fetch_offsets group topic) = Requests.fetch_offsets escape group topic
  request (peer_heartbeat id) = Requests.peer_heartbeat id
  request (push_metadata push) = Requests.push_metadata push
  request (replica_ack req) = Requests.replica_ack req

  -- What net/url documents of a group's name in a path: it is decoded to what it was, and has no slash. The
  -- name is not empty, and not one that a path cannot have.
  pub record IsPart (group : Bytes) : Type 0 where
    pub decoded : unescape (escape group) ≡ some group
    pub no_slash : All (λ c. c ≢ 47) (escape group)
    pub clean : is_clean (escape group) ≡ true
    pub named : 0 < length group

  -- What a call asks of the name that it has.
  abbrev pub IsFor : Call → Type 0
  IsFor (join group req) = IsPart group
  IsFor (sync group req) = IsPart group
  IsFor (heartbeat group req) = IsPart group
  IsFor (leave group id) = IsPart group
  IsFor (commit_offsets group req) = IsPart group
  IsFor (fetch_offsets group topic) = IsPart group
  IsFor _ = Unit

  at_group :
      (group w : Bytes)
      → All (λ c. c ≢ 47) (escape group)
      → split 47 (escape group ++ (47 ∷ (w ++ []))) ≡ escape group ∷ split 47 (w ++ [])
  at_group group w h = split-append 47 (escape group) (w ++ []) h

  -- The request of each call of the client comes to the handler that it is meant for, with the group that
  -- the call names, if that name is a part of a path that net/url escapes and decodes.
  pub dispatch-request :
      (c : Call) → IsFor c → dispatch unescape (request c).method (request c).path ≡ some (meant c)
  unfolding dispatch routes split str_eq is_clean Requests.health Requests.metadata
      Requests.create_topic Requests.produce Requests.fetch Requests.join Requests.sync
      Requests.heartbeat Requests.leave Requests.commit_offsets Requests.fetch_offsets
      Requests.peer_heartbeat Requests.push_metadata Requests.replica_ack
  dispatch-request health h = refl
  dispatch-request metadata h = refl
  dispatch-request (create_topic name partitions rf) h = refl
  dispatch-request (produce req) h = refl
  dispatch-request (fetch topic partition offset max_bytes replica) h = refl
  dispatch-request (join [] req) h = absurd (omega (arith, h.named))
  dispatch-request (join (c ∷ cs) req) h =
      rw (at_group (c ∷ cs) join_word h.no_slash, h.clean, h.decoded) refl
  dispatch-request (sync [] req) h = absurd (omega (arith, h.named))
  dispatch-request (sync (c ∷ cs) req) h =
      rw (at_group (c ∷ cs) sync_word h.no_slash, h.clean, h.decoded) refl
  dispatch-request (heartbeat [] req) h = absurd (omega (arith, h.named))
  dispatch-request (heartbeat (c ∷ cs) req) h =
      rw (at_group (c ∷ cs) heartbeat_word h.no_slash, h.clean, h.decoded) refl
  dispatch-request (leave [] id) h = absurd (omega (arith, h.named))
  dispatch-request (leave (c ∷ cs) id) h =
      rw (at_group (c ∷ cs) leave_word h.no_slash, h.clean, h.decoded) refl
  dispatch-request (commit_offsets [] req) h = absurd (omega (arith, h.named))
  dispatch-request (commit_offsets (c ∷ cs) req) h =
      rw (at_group (c ∷ cs) offsets_word h.no_slash, h.clean, h.decoded) refl
  dispatch-request (fetch_offsets [] topic) h = absurd (omega (arith, h.named))
  dispatch-request (fetch_offsets (c ∷ cs) topic) h =
      rw (at_group (c ∷ cs) offsets_word h.no_slash, h.clean, h.decoded) refl
  dispatch-request (peer_heartbeat id) h = refl
  dispatch-request (push_metadata push) h = refl
  dispatch-request (replica_ack req) h = refl

-- A fetch is parsed as the query that it was, for numbers that fit an int.
pub parse_query-fetch :
    (topic : Bytes) (partition offset max_bytes : ℤ) (replica : Bool)
    → FitsInt partition
    → FitsInt offset
    → FitsInt max_bytes
    → parse_query (Requests.fetch topic partition offset max_bytes replica).query ≡ record {
      topic = topic;
      partition = partition;
      offset = offset;
      max_bytes = max_bytes;
      replica = replica;
    }
unfolding parse_query Requests.fetch lookup str_eq
parse_query-fetch topic partition offset max_bytes true p o m =
    rw (atoi-itoa partition p, atoi-itoa offset o, atoi-itoa max_bytes m) refl
parse_query-fetch topic partition offset max_bytes false p o m =
    rw (atoi-itoa partition p, atoi-itoa offset o, atoi-itoa max_bytes m) refl
