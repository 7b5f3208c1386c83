-- ===== src/Node/Tests.antt =====
-- The theorems on replication at a small broker.
use Prim.Native.Nat.{max}
use logship.Prelude.{ℕ, ◌^◌, ◌≤◌, ◌≡◌, refl, true, false, some, [], ◌∷◌, Bytes, arith, min, lookup}
use logship.Prelude.Int.{pos}
use logship.Record.{encoded_size}
use logship.Segment.Contents.{size_of}
use logship.Segment.Sample.{sample, sample-IsWire}
use logship.Log.Sample.{one, two, log_of, one-LogHolds, two-LogHolds}
use logship.Cluster.{is_alive, recent}
use logship.Broker.{PartitionMeta, ReplicaState, find_partition, contains}
use logship.Broker
use logship.Broker.Follow.{working, follow_round}
use logship.Store.{new_store, key}
use logship.Store.Keys.{get-put_same}
use logship.Protocol.{ReplicaAckRequest}
use logship.Node.{Node, meta_of, note_replica, states_of, recompute_hw, known}
use logship.Node.Fetch.{fetch_log}
use logship.Node.Replicate.{CaughtUp, response, handle_replica_ack, follow_round-CaughtUp}
use logship.Protocol.Json.{is_text, valid_behind}
use logship.Node.Watermark.{
  Leads, recompute_hw-bounds, handle_replica_ack-commits, states_of-note_replica,
}
use logship.Node.Followers.{Wanted, Followers}
use logship.Node.Produce.{hw_at}
use logship.Node.Sample.{topic, shared, broker, unopened, meta_of-broker}

missing_small : size_of (sample 1 [] ∷ []) ≤ 2 ^ 20
unfolding size_of encoded_size
missing_small = omega arith

no_text : is_text [] ≡ true
unfolding is_text valid_behind
no_text = refl

follow_round-CaughtUp_example : CaughtUp 0 two (max 0 (min 2 2)) (
    follow_round
      (working (λ o. 8))
      (response (fetch_log true topic (pos 0) (pos 1) (pos 1048576) (log_of 2 two)))
      (log_of 0 one))
follow_round-CaughtUp_example =
    follow_round-CaughtUp (λ o. 8) topic (pos 0) 0 (log_of 2 two) (log_of 0 one) [] [] two one
      (sample 1 [] ∷ []) (two-LogHolds 2) (one-LogHolds 0) refl
      ((sample-IsWire 1 [] (omega arith) (omega arith), λ e. omega arith), tt)
      ((no_text, no_text), tt) missing_small (omega arith)

-- Broker 2 was at the start of the log at time 5.
abbrev watched : Node
watched = note_replica 5 topic (pos 0) 2 0 (broker (shared ∷ []))

watched-Leads : Leads topic (pos 0) shared (log_of 0 one) watched
unfolding note_replica meta_of
watched-Leads = record {
  known = meta_of-broker shared [] refl;
  leads = refl;
  stored = get-put_same topic (pos 0) (log_of 0 one) new_store;
}

watched-state : states_of (key topic (pos 0)) watched 2 ≡ some (record { leo = 0; last_seen = 5 })
unfolding Broker.note_replica
watched-state = states_of-note_replica 5 topic (pos 0) 2 0 (broker (shared ∷ [])) 2

watched-alive : is_alive 6 watched.cluster 2 ≡ true
unfolding is_alive recent note_replica
watched-alive = refl

shared-contains : contains shared.replicas 2 ≡ true
unfolding contains
shared-contains = refl

recompute_hw-bounds_example :
    (hw_at topic (pos 0) watched
      ≤ hw_at topic (pos 0) (recompute_hw unopened 6 topic (pos 0) watched))
    × (hw_at topic (pos 0) (recompute_hw unopened 6 topic (pos 0) watched)
        ≤ max (hw_at topic (pos 0) watched) 0)
unfolding note_replica
recompute_hw-bounds_example =
    recompute_hw-bounds unopened 6 topic (pos 0) shared (log_of 0 one) watched 2
      (record { leo = 0; last_seen = 5 }) watched-Leads shared-contains refl watched-alive
      watched-state (omega arith)

shared-Leads : Leads topic (pos 0) shared (log_of 0 one) (broker (shared ∷ []))
shared-Leads = record {
  known = meta_of-broker shared [] refl;
  leads = refl;
  stored = get-put_same topic (pos 0) (log_of 0 one) new_store;
}

abbrev ack : ReplicaAckRequest
ack = record { broker_id = 2; topic = topic; partition = pos 0; leo = 1 }

nothing_noted :
    (k : Bytes) (i : ℕ) (st : ReplicaState)
    → states_of k (broker (shared ∷ [])) i ≡ some st
    → 1 ≤ st.leo
unfolding states_of known lookup
nothing_noted k i st e = cc

handle_replica_ack-commits_example :
    hw_at topic (pos 0) (handle_replica_ack unopened 6 ack (broker (shared ∷ []))) ≡ 1
handle_replica_ack-commits_example =
    handle_replica_ack-commits unopened 6 ack shared (log_of 0 one) (broker (shared ∷ []))
      shared-Leads (omega arith) (omega arith) (λ i st other another up e. nothing_noted _ i st e)

abbrev followed : Wanted
followed = (4 ∷ [], shared) ∷ []

abbrev before : Followers
before = record {
  cancels = (5 ∷ []) ∷ [];
  goroutines = record { key = 5 ∷ []; topic = []; partition = pos 5; cancelled = false } ∷ [];
}
