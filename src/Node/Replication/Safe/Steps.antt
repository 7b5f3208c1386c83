-- ===== src/Node/Replication/Safe/Steps.antt =====
-- A leader and its follower, in internal/broker, after any steps.
use logship.Prelude.{
  arith, ℕ, ◌-◌, ap, ◌∙◌, Option, All-OneOf, Bytes, ==_iff, inl, inr, take, take-append_le,
}
use logship.Prelude.Int.{ℤ}
use logship.Segment.{Result}
use logship.Log.{Log, leo}
use logship.Log.Chain.{records, leo-LogHolds}
use logship.Protocol.{FetchResponse}
use logship.Node.{Node}
use logship.Node.Produce.{hw_at}
use logship.Node.Replication.{System, Step, Steps}
use logship.Node.Replication.{
  appends, commits_alone, notes_itself, hears, answers, follows, acknowledges, receives, recomputes,
  stay, then_step,
}
use logship.Node.Replication.Safe.{IsSent, Replicated, Starts, Survives}
use logship.Node.Replication.Safe.Appends.{append-Replicated}
use logship.Node.Replication.Safe.Changes.{recompute-Replicated, hear-Replicated, solo-Replicated}
use logship.Node.Replication.Safe.Follower.{
  answer-Replicated, follow-Replicated, acknowledge-Replicated, note_self-Replicated,
  received-Replicated,
}

module _ (opened : Bytes → Result Log) (ask : Bytes → Option FetchResponse) (clock : ℕ → ℕ)
    (topic : Bytes) (partition : ℤ) (me : Node) (base : ℕ) where
  Step-Replicated :
      (s t : System)
      → Step opened ask clock topic partition me s t
      → Replicated topic partition me base s
      → Replicated topic partition me base t
  Step-Replicated s t (appends now key_ value l found wire text timed) h =
      append-Replicated topic partition me base s h now key_ value l found wire text timed
  Step-Replicated s t commits_alone h = solo-Replicated topic partition me base s h
  Step-Replicated s t (notes_itself now end) h =
      note_self-Replicated topic partition me base s h now end
  Step-Replicated s t (hears c) h = hear-Replicated topic partition me base s h c
  Step-Replicated s t (answers offset max_bytes fr e) h =
      answer-Replicated topic partition me base s h opened ask offset max_bytes fr e
  Step-Replicated s t (follows fr at) h = follow-Replicated topic partition me base s h clock fr at
  Step-Replicated s t acknowledges h = acknowledge-Replicated topic partition me base s h
  Step-Replicated s t (receives now req (inl at) sync) h =
      let sent = All-OneOf (IsSent topic partition me base (leo s.mine)) s.acks req h.sent at in
      received-Replicated topic partition me base s h opened now req sent.topic_same
        sent.partition_same (λ own. sent.reached) sync
  Step-Replicated s t (receives now req (inr (other, et, ep)) sync) h =
      received-Replicated topic partition me base s h opened now req et ep
        (λ own. absurd (other ((==_iff me.id req.broker_id).0 own))) sync
  Step-Replicated s t (recomputes now sync) h =
      recompute-Replicated topic partition me base s h opened now sync

  Steps-Replicated :
      (s t : System)
      → Steps opened ask clock topic partition me s t
      → Replicated topic partition me base s
      → Replicated topic partition me base t
  Steps-Replicated s t stay h = h
  Steps-Replicated s t (then_step {t = mid} before last) h =
      Step-Replicated mid t last (Steps-Replicated s mid before h)

  Starts-Replicated :
      (s : System) → Starts topic partition me base s → Replicated topic partition me base s
  Starts-Replicated s h = record {
    all = h.all;
    leads = h.leads;
    apart = h.apart;
    stored = h.stored;
    text = h.text;
    named = h.named;
    follows = h.follows;
    small = h.small;
    committed = h.committed;
    known = λ st e. cc h.unknown;
    sent = rw h.no_acks tt;
    answered = rw h.no_answers tt;
  }

  Replicated-Survives :
      (s : System) → Replicated topic partition me base s → Survives topic partition me base s
  Replicated-Survives s h = record {
    all = h.all;
    leads = h.leads;
    parts = h.follows.parts;
    last = h.follows.last;
    held = h.follows.held;
    kept =
        ap (take (hw_at topic partition s.leader - base)) h.follows.split
        ∙ take-append_le (hw_at topic partition s.leader - base)
            (records h.follows.parts h.follows.last) h.follows.missing
            (omega (arith, h.committed, leo-LogHolds h.follows.held));
  }

  -- A follower in the ISR whose log is a first part of the leader's that goes to the watermark, with
  -- nothing sent and nothing known of it yet, has every committed record of the leader at its place after
  -- any steps: records that are produced with either kind of acknowledgement, answers of any size that are
  -- read late, twice or not at all, acknowledgements in any order and of any replica, and new watermarks.
  -- The conditions: the follower is alive and its last acknowledgement within the lag time whenever the
  -- watermark is computed, the controller leaves the partition as it is, the disks work, the records fit
  -- the format and have times, the topic, the keys and the values are UTF-8, and the segment limits are
  -- below 4 GiB.
  pub Steps-Survives :
      (s t : System)
      → Starts topic partition me base s
      → Steps opened ask clock topic partition me s t
      → Survives topic partition me base t
  Steps-Survives s t start steps =
      Replicated-Survives t (Steps-Replicated s t steps (Starts-Replicated s start))
