-- ===== src/Node/Replication/Safe/Follower.antt =====
-- The steps of a follower of a replicated partition, and the acknowledgements, in internal/broker.
use logship.Prelude.{
  arith, ℕ, ◌≡◌, ◌≤◌, ◌<◌, ◌^◌, min, refl, sym, ap, subst, ◌∙◌, true, Option, none, some, List, [],
  ◌∷◌, All, All-OneOf, All-map, OneOf, Bytes, ◌==◌,
}
use Prim.Native.Nat.{max}
use logship.Prelude.Int.{ℤ, pos}
use logship.Record.{Record}
use logship.Segment.{Result}
use logship.Segment.Contents.{Consecutive}
use logship.Log.{Log, leo}
use logship.Log.Chain.{Consecutive-LogHolds}
use logship.Log.Watermark.{set_high_watermark_lem}
use logship.Broker.Follow.{from_wire, follow_records, follow_round, working}
use logship.Broker.Prefix.{IsPrefix, follow_records-Follows}
use logship.Protocol.Json.{IsText, ack_over_json, response_over_json, over_json-text}
use logship.Protocol.{WireRecord, FetchResponse, ReplicaAckRequest}
use logship.Node.{Node, note_replica, note_self_leo}
use logship.Node.Fetch.{
  Fetched, served, unknown, not_leader, log_failed, fetch_log, serve_fetch, serve_fetch-led,
}
use logship.Node.Fetch.Served.{Serves, fetch_log-Serves}
use logship.Node.Replicate.{response, replica_ack, handle_replica_ack, from_wire-over_json}
use logship.Node.Replication.{System, InSync}
use logship.Node.Replication.Safe.{IsAnswer, Replicated}
use logship.Node.Replication.Safe.Changes.{recompute-Replicated, note-Replicated}

response-IsAnswer :
    (P : Record → Type 0) (got : Fetched) (fr : FetchResponse)
    → Serves (λ r. P r × IsText r) got
    → response got ≡ some fr
    → All P (from_wire fr.records)
unfolding response response_over_json
response-IsAnswer P (served x) fr (rs, same, good) e =
    subst (λ o. All P (from_wire (wire_of o))) e
      (rw same (
        rw (from_wire-over_json rs (All-map rs (λ r at. at.1) good))
          (All-map rs (λ r at. at.0) good)))
  where
    wire_of : Option FetchResponse → List WireRecord
    wire_of none = []
    wire_of (some y) = y.records
response-IsAnswer P unknown fr h e = cc
response-IsAnswer P (not_leader id at) fr h e = cc
response-IsAnswer P log_failed fr h e = cc

module _ (topic : Bytes) (partition : ℤ) (me : Node) (base : ℕ) (s : System)
    (h : Replicated topic partition me base s) where
  pub answer-Replicated :
      (opened : Bytes → Result Log) (ask : Bytes → Option FetchResponse) (offset max_bytes : ℤ)
      (fr : FetchResponse)
      → response (serve_fetch opened ask true topic partition offset max_bytes s.leader).0 ≡ some fr
      → Replicated topic partition me base (record s { answers = fr ∷ s.answers })
  answer-Replicated opened ask offset max_bytes fr e = record {
    all = h.all;
    leads = h.leads;
    apart = h.apart;
    stored = h.stored;
    text = h.text;
    named = h.named;
    follows = h.follows;
    small = h.small;
    committed = h.committed;
    known = h.known;
    sent = h.sent;
    answered = (
      response-IsAnswer (OneOf h.all) (fetch_log true topic partition offset max_bytes l) fr
          (texts (fetch_log true topic partition offset max_bytes l) (
            subst (λ rs. Serves (OneOf rs) (fetch_log true topic partition offset max_bytes l))
              h.leads.same
              (fetch_log-Serves true topic partition offset max_bytes base l h.leads.parts
                h.leads.last h.leads.held)))
          (sym (ap response led) ∙ e),
      h.answered,
    );
  }
    where
      l : Log
      l = h.leads.log

      texts :
          (got : Fetched) → Serves (OneOf h.all) got → Serves (λ r. OneOf h.all r × IsText r) got
      texts (served fr) (rs, same, good) =
          (rs, same, All-map rs (λ r at. (at, All-OneOf IsText h.all r h.text at)) good)
      texts unknown x = tt
      texts (not_leader id at) x = tt
      texts log_failed x = tt

      led :
          (serve_fetch opened ask true topic partition offset max_bytes s.leader).0
          ≡ fetch_log true topic partition offset max_bytes l
      led =
          serve_fetch-led opened ask true topic partition offset max_bytes h.leads.pm l s.leader
            h.leads.leads.known h.leads.leads.leads h.leads.leads.stored

  -- A follower's log that is no shorter.
  mine-Replicated :
      (l : Log)
      → IsPrefix base h.all l
      → l.cfg.max_segment_bytes < 2 ^ 32
      → leo s.mine ≤ leo l
      → Replicated topic partition me base (record s { mine = l })
  mine-Replicated l prefix small longer = record {
    all = h.all;
    leads = h.leads;
    apart = h.apart;
    stored = h.stored;
    text = h.text;
    named = h.named;
    follows = prefix;
    small = small;
    committed = omega (arith, h.committed, longer);
    known = λ st e. omega (arith, h.known st e, longer);
    sent =
        All-map s.acks
          (λ a sent. record {
            broker_id = sent.broker_id;
            topic_same = sent.topic_same;
            partition_same = sent.partition_same;
            reached = omega (arith, sent.reached, longer);
          })
          h.sent;
    answered = h.answered;
  }

  pub follow-Replicated :
      (clock : ℕ → ℕ) (fr : FetchResponse)
      → OneOf s.answers fr
      → Replicated topic partition me base
          (record s { mine = follow_round (working clock) (some fr) s.mine })
  unfolding follow_round
  follow-Replicated clock fr at =
      let numbered = subst (Consecutive base) h.leads.same (Consecutive-LogHolds h.leads.held) in
      let got = follow_records (working clock) (from_wire fr.records) s.mine in
      let f =
        follow_records-Follows clock base h.all numbered h.stored (from_wire fr.records) s.mine
          h.follows (All-OneOf (IsAnswer topic partition me base h.all) s.answers fr h.answered at)
          h.small in
      rw (set_high_watermark_lem (pos fr.high_watermark) got) (
        mine-Replicated (record got { hw = max got.hw (min fr.high_watermark (leo got)) })
          (record {
            parts = f.follows.parts;
            last = f.follows.last;
            missing = f.follows.missing;
            held = record {
              sealed = f.follows.held.sealed;
              active = f.follows.held.active;
              active_base = f.follows.held.active_base;
            };
            split = f.follows.split;
          })
          (rw f.same_cfg h.small) f.longer)

  pub acknowledge-Replicated :
      Replicated topic partition me base
        (record s { acks = replica_ack topic partition me s.mine ∷ s.acks })
  unfolding replica_ack ack_over_json
  acknowledge-Replicated = record {
    all = h.all;
    leads = h.leads;
    apart = h.apart;
    stored = h.stored;
    text = h.text;
    named = h.named;
    follows = h.follows;
    small = h.small;
    committed = h.committed;
    known = h.known;
    sent = (
      record {
        broker_id = refl;
        topic_same = over_json-text topic h.named;
        partition_same = refl;
        reached = omega arith;
      },
      h.sent,
    );
    answered = h.answered;
  }

  pub note_self-Replicated :
      (now end : ℕ)
      → Replicated topic partition me base
          (record s { leader = note_self_leo now topic partition end s.leader })
  unfolding note_self_leo
  note_self-Replicated now end =
      note-Replicated topic partition me base s h now s.leader.id end
        (λ own. ground (arith, h.apart))

  -- An acknowledgement of this partition, and what the leader then makes of it.
  pub received-Replicated :
      (opened : Bytes → Result Log) (now : ℕ) (req : ReplicaAckRequest)
      → req.topic ≡ topic
      → req.partition ≡ partition
      → ((me.id == req.broker_id) ≡ true → req.leo ≤ leo s.mine)
      → InSync topic partition me.id now
          (note_replica now topic partition req.broker_id req.leo s.leader)
      → Replicated topic partition me base
          (record s { leader = handle_replica_ack opened now req s.leader })
  unfolding handle_replica_ack
  received-Replicated opened now req et ep reached sync =
      rw (et, ep)
        (recompute-Replicated topic partition me base
          (record s { leader = note_replica now topic partition req.broker_id req.leo s.leader })
          (note-Replicated topic partition me base s h now req.broker_id req.leo reached) opened now
          sync)
