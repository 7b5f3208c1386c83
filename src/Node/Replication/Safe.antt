-- ===== src/Node/Replication/Safe.antt =====
-- What a leader and its follower keep true of a partition, in internal/broker.
pub mod Appends
pub mod Changes
pub mod Follower
pub mod Steps
use logship.Prelude.{
  ℕ, ◌≡◌, ◌≤◌, ◌<◌, ◌^◌, ◌-◌, true, false, none, some, List, [], All, OneOf, Bytes, ◌==◌, take,
}
use logship.Prelude.Int.{ℤ}
use logship.Record.{Record}
use logship.Log.{Log, leo}
use logship.Log.Chain.{LogHolds, records}
use logship.Broker.{ReplicaState}
use logship.Broker.Follow.{Stored, from_wire}
use logship.Broker.Prefix.{IsPrefix}
use logship.Store.{key}
use logship.Protocol.{FetchResponse, ReplicaAckRequest}
use logship.Protocol.Json.{is_text, IsText}
use logship.Node.{Node, states_of}
use logship.Node.Produce.{hw_at}
use logship.Node.Replication.{System}
use logship.Node.Replication.Leader.{LeaderHas}

module _ (topic : Bytes) (partition : ℤ) (me : Node) (base : ℕ) where
  -- An acknowledgement that the follower has sent: it has come at least that far.
  pub record IsSent (end : ℕ) (a : ReplicaAckRequest) : Type 0 where
    pub broker_id : a.broker_id ≡ me.id
    pub topic_same : a.topic ≡ topic
    pub partition_same : a.partition ≡ partition
    pub reached : a.leo ≤ end

  -- A response with records of the leader.
  abbrev pub IsAnswer : List Record → FetchResponse → Type 0
  IsAnswer all fr = All (OneOf all) (from_wire fr.records)

  pub record Replicated (s : System) : Type 0 where
    pub all : List Record
    pub leads : LeaderHas topic partition me.id base all s.leader
    pub apart : (me.id == s.leader.id) ≡ false
    pub stored : All Stored all
    pub text : All IsText all
    pub named : is_text topic ≡ true
    pub follows : IsPrefix base all s.mine
    pub small : s.mine.cfg.max_segment_bytes < 2 ^ 32
    pub committed : hw_at topic partition s.leader ≤ leo s.mine
    pub known :
        (st : ReplicaState)
        → states_of (key topic partition) s.leader me.id ≡ some st
        → st.leo ≤ leo s.mine
    pub sent : All (IsSent (leo s.mine)) s.acks
    pub answered : All (IsAnswer all) s.answers

  -- A leader, and a follower with some first part of its records that goes to the watermark; nothing is
  -- sent and nothing is known of the follower.
  pub record Starts (s : System) : Type 0 where
    pub all : List Record
    pub leads : LeaderHas topic partition me.id base all s.leader
    pub apart : (me.id == s.leader.id) ≡ false
    pub stored : All Stored all
    pub text : All IsText all
    pub named : is_text topic ≡ true
    pub follows : IsPrefix base all s.mine
    pub small : s.mine.cfg.max_segment_bytes < 2 ^ 32
    pub committed : hw_at topic partition s.leader ≤ leo s.mine
    pub unknown : states_of (key topic partition) s.leader me.id ≡ none
    pub no_acks : s.acks ≡ []
    pub no_answers : s.answers ≡ []

  -- The follower has the committed records of the leader, each at its place.
  pub record Survives (s : System) : Type 0 where
    pub all : List Record
    pub leads : LeaderHas topic partition me.id base all s.leader
    pub parts : List (List Record)
    pub last : List Record
    pub held : LogHolds base s.mine parts last
    pub kept :
        take (hw_at topic partition s.leader - base) all
        ≡ take (hw_at topic partition s.leader - base) (records parts last)
