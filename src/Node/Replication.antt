-- ===== src/Node/Replication.antt =====
-- A leader and a follower of one partition, with the messages between them: `serveFetch`, `appendLocal`,
-- `maybeSoloHW`, `handleReplicaAck` and `recomputeHW` of the leader and `followLoop` of the follower, in internal/broker,
-- as steps in any order. A message may be read late, twice or not at all.
pub mod Leader
pub mod Safe
mod Tests
use logship.Prelude.{ℕ, ◌-◌, ◌≤◌, ◌≡◌, ◌≢◌, ◌⊎◌, true, Option, some, List, ◌∷◌, OneOf, Bytes}
use logship.Prelude.Int.{ℤ, pos}
use logship.Record.RoundTrip.{IsWire}
use logship.Segment.{Result}
use logship.Log.{Log, leo}
use logship.Log
use logship.Log.Append.{healthy}
use logship.Broker.{ReplicaState}
use logship.Broker.Follow.{follow_round, working}
use logship.Cluster.{Cluster, is_alive}
use logship.Store.{key, get, put}
use logship.Protocol.{FetchResponse, ReplicaAckRequest}
use logship.Protocol.Json.{IsText}
use logship.Node.{Node, states_of, note_replica, note_self_leo, recompute_hw}
use logship.Node.Fetch.{serve_fetch}
use logship.Node.Produce.{solo_found}
use logship.Node.Replicate.{response, replica_ack, handle_replica_ack}

-- `mine` is the follower's log; `answers` and `acks` are all messages that were sent.
pub record System : Type 0 where
  pub leader : Node
  pub mine : Log
  pub answers : List FetchResponse
  pub acks : List ReplicaAckRequest

-- The leader has the follower in sync at a time: alive, and with a recent acknowledgement.
pub record InSync (topic : Bytes) (partition : ℤ) (id now : ℕ) (n : Node) : Type 0 where
  pub state : ReplicaState
  pub seen : states_of (key topic partition) n id ≡ some state
  pub alive : is_alive now n.cluster id ≡ true
  pub fresh : now - state.last_seen ≤ n.replica_lag_time

-- `me` is the follower's broker, and `clock` the times of its appends; `ask` and `opened` are as for the
-- handlers of the leader.
module _ (opened : Bytes → Result Log) (ask : Bytes → Option FetchResponse) (clock : ℕ → ℕ)
    (topic : Bytes) (partition : ℤ) (me : Node) where
  pub data Step : System → System → Type 0 where
    -- A producer's record, in the format and of UTF-8, on a disk that works.
    appends :
        {s : System} (now : ℕ) (key_ value : Bytes) (l : Log)
        → get topic partition s.leader.store ≡ some l
        → IsWire (record { offset = leo l; timestamp = now; key = key_; value = value })
        → IsText (record { offset = leo l; timestamp = now; key = key_; value = value })
        → now ≢ 0
        → Step s (record s {
          leader = record s.leader {
            store =
                put (key topic partition) (Log.append (healthy now) key_ value l).1 s.leader.store;
          };
        })
    notes_itself :
        {s : System} (now end : ℕ)
        → Step s (record s { leader = note_self_leo now topic partition end s.leader })
    -- What `produceLocal` does behind a record of a producer that waits for no replica.
    commits_alone :
        {s : System}
        → Step s (record s {
          leader = solo_found topic partition (get topic partition s.leader.store) s.leader;
        })
    -- Any heartbeats of the cluster.
    hears :
        {s : System} (c : Cluster) → Step s (record s { leader = record s.leader { cluster = c } })
    -- A fetch of the follower, from any offset and of any size.
    answers :
        {s : System} (offset max_bytes : ℤ) (fr : FetchResponse)
        → response (serve_fetch opened ask true topic partition offset max_bytes s.leader).0
          ≡ some fr
        → Step s (record s { answers = fr ∷ s.answers })
    follows :
        {s : System} (fr : FetchResponse)
        → OneOf s.answers fr
        → Step s (record s { mine = follow_round (working clock) (some fr) s.mine })
    acknowledges :
        {s : System} → Step s (record s { acks = replica_ack topic partition me s.mine ∷ s.acks })
    -- An acknowledgement of the follower or of another one.
    receives :
        {s : System} (now : ℕ) (req : ReplicaAckRequest)
        → (OneOf s.acks req)
          ⊎ ((me.id ≢ req.broker_id) × (req.topic ≡ topic) × (req.partition ≡ partition))
        → InSync topic partition me.id now
            (note_replica now topic partition req.broker_id req.leo s.leader)
        → Step s (record s { leader = handle_replica_ack opened now req s.leader })
    recomputes :
        {s : System} (now : ℕ)
        → InSync topic partition me.id now s.leader
        → Step s (record s { leader = recompute_hw opened now topic partition s.leader })

  pub data Steps : System → System → Type 0 where
    stay : {s : System} → Steps s s
    then_step : {s t u : System} → Steps s t → Step t u → Steps s u
