-- ===== src/Node/Replication/Tests.antt =====
-- Replication from one broker to another, on one record.
use logship.Prelude.{◌^◌, ◌≤◌, ◌≡◌, refl, true, none, some, [], ◌∷◌, arith, inl, lookup, ap, ◌∙◌}
use logship.Prelude.Int.{pos}
use logship.Record.{encoded_size}
use logship.Segment.Contents.{size_of}
use logship.Segment.Sample.{sample-IsWire, holding-Holds}
use logship.Log.{Log}
use logship.Log.Sample.{one, log_of, one-LogHolds}
use logship.Log.Chain.{LogHolds}
use logship.Cluster.{is_alive, recent}
use logship.Broker.{contains}
use logship.Broker
use logship.Broker.Follow.{working, follow_round}
use logship.Store.{new_store, key}
use logship.Store.Keys.{get-put_same}
use logship.Protocol.{FetchResponse, ReplicaAckRequest}
use logship.Protocol.Json.{
  ack_over_json, is_text, valid_behind, rune_size, response_over_json, records_over_json, over_json,
  coerced,
}
use logship.Node.{Node, note_replica, states_of, known}
use logship.Node.Fetch.{to_wire, serve_fetch, serve_fetch-led}
use logship.Node.Produce.{hw_at-get}
use logship.Node.Replicate.{response, replica_ack, handle_replica_ack, fetch_log-missing}
use logship.Node.Watermark.{Leads, states_of-note_replica}
use logship.Node.Sample.{topic, shared, broker, unopened, silent, meta_of-broker}
use logship.Node.Replication.{
  System, InSync, Steps, answers, follows, acknowledges, receives, stay, then_step,
}
use logship.Node.Replication.Safe.{Starts, Survives}
use logship.Node.Replication.Safe.Steps.{Steps-Survives}

empty-LogHolds : LogHolds 0 (log_of 0 []) [] []
unfolding size_of
empty-LogHolds = record {
  sealed = tt;
  active = holding-Holds 0 [] tt tt (omega arith);
  active_base = refl;
}

abbrev leader : Node
leader = broker (shared ∷ [])

abbrev follower : Node
follower = record leader { id = 2 }

abbrev before : System
before = record { leader = leader; mine = log_of 0 []; answers = []; acks = [] }

leader-Leads : Leads topic (pos 0) shared (log_of 0 one) leader
leader-Leads = record {
  known = meta_of-broker shared [] refl;
  leads = refl;
  stored = get-put_same topic (pos 0) (log_of 0 one) new_store;
}

shared_with : contains shared.replicas 2 ≡ true
unfolding contains
shared_with = refl

in_shared : contains shared.isr 2 ≡ true
unfolding contains
in_shared = refl

named : is_text topic ≡ true
unfolding is_text valid_behind rune_size
named = refl

no_text : is_text [] ≡ true
unfolding is_text valid_behind
no_text = refl

no_state : states_of (key topic (pos 0)) leader 2 ≡ none
unfolding states_of known lookup
no_state = refl

before-Starts : Starts topic (pos 0) follower 0 before
before-Starts = record {
  all = one;
  leads = record {
    pm = shared;
    log = log_of 0 one;
    leads = leader-Leads;
    replica = shared_with;
    in_isr = in_shared;
    parts = [];
    last = one;
    held = one-LogHolds 0;
    same = refl;
    small = omega arith;
  };
  apart = refl;
  stored = ((sample-IsWire 0 [] (omega arith) (omega arith), λ e. omega arith), tt);
  text = ((no_text, no_text), tt);
  named = named;
  follows = record { parts = []; last = []; missing = one; held = empty-LogHolds; split = refl };
  small = omega arith;
  committed = omega (
    arith,
    hw_at-get topic (pos 0) (log_of 0 one) leader
        (get-put_same topic (pos 0) (log_of 0 one) new_store),
  );
  unknown = no_state;
  no_acks = refl;
  no_answers = refl;
}

abbrev answer : FetchResponse
answer = record {
  topic = topic;
  partition = pos 0;
  high_watermark = 0;
  log_end_offset = 1;
  records = to_wire one;
}

one_small : size_of one ≤ 2 ^ 20
unfolding size_of encoded_size
one_small = omega arith

answered :
    response (serve_fetch unopened silent true topic (pos 0) (pos 0) (pos 1048576) leader).0
    ≡ some answer
unfolding response response_over_json records_over_json over_json coerced rune_size to_wire
answered = ap response (
    serve_fetch-led unopened silent true topic (pos 0) (pos 0) (pos 1048576) shared (log_of 0 one)
      leader leader-Leads.known refl leader-Leads.stored
    ∙ fetch_log-missing 0 (log_of 0 one) [] one [] one (one-LogHolds 0) refl one_small topic
        (pos 0))

abbrev mine : Log
mine = follow_round (working (λ o. 8)) (some answer) (log_of 0 [])

abbrev ack : ReplicaAckRequest
ack = replica_ack topic (pos 0) follower mine

in_sync : InSync topic (pos 0) 2 6 (note_replica 6 topic (pos 0) ack.broker_id ack.leo leader)
unfolding Broker.note_replica is_alive recent note_replica replica_ack ack_over_json
in_sync = record {
  state = record { leo = ack.leo; last_seen = 6 };
  seen = states_of-note_replica 6 topic (pos 0) 2 ack.leo leader 2;
  alive = refl;
  fresh = omega arith;
}

abbrev after : System
after = record {
  leader = handle_replica_ack unopened 6 ack leader;
  mine = mine;
  answers = answer ∷ [];
  acks = ack ∷ [];
}

steps : Steps unopened silent (λ o. 8) topic (pos 0) follower before after
steps =
    then_step
      (then_step
        (then_step (then_step stay (answers (pos 0) (pos 1048576) answer answered))
          (follows answer (inl refl)))
        acknowledges)
      (receives 6 ack (inl (inl refl)) in_sync)

Steps-Survives_example : Survives topic (pos 0) follower 0 after
Steps-Survives_example =
    Steps-Survives unopened silent (λ o. 8) topic (pos 0) follower 0 before after before-Starts
      steps

-- "é" and an emoji, and behind them a byte that is no UTF-8.
mixed :
    over_json (195 ∷ 169 ∷ 240 ∷ 159 ∷ 152 ∷ 128 ∷ 255 ∷ [])
    ≡ 195 ∷ 169 ∷ 240 ∷ 159 ∷ 152 ∷ 128 ∷ 239 ∷ 191 ∷ 189 ∷ []
unfolding over_json coerced rune_size
mixed = refl

-- A surrogate, and a rune that is cut short.
broken :
    over_json (237 ∷ 160 ∷ 128 ∷ 226 ∷ 130 ∷ [])
    ≡ 239 ∷ 191 ∷ 189 ∷ 239 ∷ 191 ∷ 189 ∷ 239 ∷ 191 ∷ 189 ∷ 239 ∷ 191 ∷ 189 ∷ 239 ∷ 191 ∷ 189 ∷ []
unfolding over_json coerced rune_size
broken = refl
