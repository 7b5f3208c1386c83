-- ===== src/Node/Watermark.antt =====
-- The high watermark that a leader keeps, `recomputeHW` of internal/broker/replica.go on the whole
-- state.
use logship.Prelude.{
  arith, ℕ, ◌-◌, ◌≤◌, ◌≡◌, refl, sym, ap, ◌∙◌, true, false, Option, none, some, ◌∷◌, Bytes, min,
  ◌==◌, ==_refl, eq→==-true, le→leb, lookup-insert, str_eq_refl, Bool-cases, inl, inr,
}
use Prim.Native.Nat.{max}
use logship.Prelude.Int.{ℤ, pos}
use logship.Segment.{Result}
use logship.Log.{Log, leo, set_high_watermark}
use logship.Log.Watermark.{set_high_watermark_lem}
use logship.Cluster.{is_alive}
use logship.Broker.{PartitionMeta, ReplicaState, isr_of, lowest, recent, contains}
use logship.Broker
use logship.Broker.Watermark.{lowest-reached, lowest-le_leo, contains-isr_of, contains-behind}
use logship.Store.{key, get}
use logship.Store.Keys.{get-put_same, open_partition-get}
use logship.Protocol.{ReplicaAckRequest}
use logship.Node.{
  Node, meta_of, meta_of-topics, states_of, note_replica, isr_now, recompute_open, recompute_hw,
  recompute_known, recompute_found,
}
use logship.Node.Produce.{hw_at, hw_at-get}
use logship.Node.Replicate.{handle_replica_ack}

-- This broker leads the partition, and has its log open.
pub record Leads (topic : Bytes) (partition : ℤ) (pm : PartitionMeta) (l : Log) (n : Node)
    : Type 0 where
  pub known : meta_of topic partition n ≡ some pm
  pub leads : pm.leader ≡ n.id
  pub stored : get topic partition n.store ≡ some l

-- The log afterwards.
pub get-recompute_hw :
    (opened : Bytes → Result Log) (now : ℕ) (topic : Bytes) (partition : ℤ) (pm : PartitionMeta)
    (l : Log) (n : Node)
    → Leads topic partition pm l n
    → get topic partition (recompute_hw opened now topic partition n).store
      ≡ some (
          set_high_watermark
            (pos (
              lowest n.id
                (states_of (key topic partition) n)
                (isr_now now (key topic partition) pm n)
                (leo l)))
            l)
unfolding recompute_hw recompute_known recompute_found recompute_open
get-recompute_hw opened now topic partition pm l n h =
    let k = key topic partition in
    let low = lowest n.id (states_of k n) (isr_now now k pm n) (leo l) in
    rw
      (
        h.known,
        eq→==-true pm.leader n.id h.leads,
        open_partition-get (opened k) topic partition l n.store h.stored,
      )
      (get-put_same topic partition (set_high_watermark (pos low) l) n.store)

-- The watermark afterwards: the lowest end that an in-sync replica is known to have, or the old one.
hw_at-recompute_hw :
    (opened : Bytes → Result Log) (now : ℕ) (topic : Bytes) (partition : ℤ) (pm : PartitionMeta)
    (l : Log) (n : Node)
    → Leads topic partition pm l n
    → hw_at topic partition (recompute_hw opened now topic partition n)
      ≡ max l.hw (
          min
            (lowest n.id
              (states_of (key topic partition) n)
              (isr_now now (key topic partition) pm n)
              (leo l))
            (leo l))
hw_at-recompute_hw opened now topic partition pm l n h =
    let low =
      lowest n.id (states_of (key topic partition) n) (isr_now now (key topic partition) pm n)
        (leo l) in
    hw_at-get topic partition (set_high_watermark (pos low) l)
      (recompute_hw opened now topic partition n)
      (get-recompute_hw opened now topic partition pm l n h)
    ∙ ap (λ x. x.hw) (set_high_watermark_lem (pos low) l)

-- A live replica with a recent acknowledgement is in the ISR that the leader computes.
pub contains-isr_now :
    (now : ℕ) (k : Bytes) (pm : PartitionMeta) (n : Node) (i : ℕ) (st : ReplicaState)
    → contains pm.replicas i ≡ true
    → (i == n.id) ≡ false
    → is_alive now n.cluster i ≡ true
    → states_of k n i ≡ some st
    → now - st.last_seen ≤ n.replica_lag_time
    → contains (isr_now now k pm n) i ≡ true
unfolding isr_now recent
contains-isr_now now k pm n i st there other up seen fresh =
    let alive = is_alive now n.cluster in
    contains-behind n.id i (isr_of n.id alive n.replica_lag_time now (states_of k n) pm.replicas) (
      contains-isr_of n.id alive n.replica_lag_time now (states_of k n) pm.replicas i there other up
        (rw seen (le→leb (now - st.last_seen) n.replica_lag_time fresh)))

-- The watermark of a partition that this broker leads, when it is computed again, is at most the
-- larger of what it was and what any other replica has acknowledged that is alive and has done so
-- within the lag time; and it does not fall.
pub recompute_hw-bounds :
    (opened : Bytes → Result Log) (now : ℕ) (topic : Bytes) (partition : ℤ) (pm : PartitionMeta)
    (l : Log) (n : Node) (i : ℕ) (st : ReplicaState)
    → Leads topic partition pm l n
    → contains pm.replicas i ≡ true
    → (i == n.id) ≡ false
    → is_alive now n.cluster i ≡ true
    → states_of (key topic partition) n i ≡ some st
    → now - st.last_seen ≤ n.replica_lag_time
    → (hw_at topic partition n ≤ hw_at topic partition (recompute_hw opened now topic partition n))
      × (hw_at topic partition (recompute_hw opened now topic partition n)
          ≤ max (hw_at topic partition n) st.leo)
unfolding isr_now
recompute_hw-bounds opened now topic partition pm l n i st h there other up seen fresh =
    let k = key topic partition in
    let alive = is_alive now n.cluster in
    let isr = isr_of n.id alive n.replica_lag_time now (states_of k n) pm.replicas in
    let low =
      lowest-le_leo n.id (states_of k n) (n.id ∷ isr) (leo l) i st
        (contains-isr_now now k pm n i st there other up seen fresh) other seen in
    let before = hw_at-get topic partition l n h.stored in
    let after = hw_at-recompute_hw opened now topic partition pm l n h in
    (omega (arith, before, after), omega (arith, before, after, low))

lowest-isr_now :
    (now : ℕ) (k : Bytes) (pm : PartitionMeta) (n : Node) (end : ℕ)
    → ((i : ℕ) (st : ReplicaState)
        → (i == n.id) ≡ false
        → is_alive now n.cluster i ≡ true
        → states_of k n i ≡ some st
        → end ≤ st.leo)
    → lowest n.id (states_of k n) (isr_now now k pm n) end ≡ end
unfolding isr_now lowest
lowest-isr_now now k pm n end all = rw (==_refl n.id) (
    lowest-reached n.id (is_alive now n.cluster) n.replica_lag_time now (states_of k n) end
      pm.replicas all)

pub states_of-note_replica :
    (now : ℕ) (topic : Bytes) (partition : ℤ) (b end : ℕ) (n : Node) (i : ℕ)
    → states_of (key topic partition) (note_replica now topic partition b end n) i
      ≡ Broker.note_replica b end now (states_of (key topic partition) n) i
unfolding states_of note_replica
states_of-note_replica now topic partition b end n i =
    let k = key topic partition in
    rw
      (
        lookup-insert k k (Broker.note_replica b end now (states_of k n)) n.replica_leo,
        str_eq_refl k,
      )
      refl

leo_or : Option ReplicaState → ℕ
leo_or none = 0
leo_or (some st) = st.leo

-- What is noted is the new state of one replica, and the old states of the others.
noted-leo :
    (b end now : ℕ) (states : ℕ → Option ReplicaState) (low i : ℕ) (st : ReplicaState)
    → Broker.note_replica b end now states i ≡ some st
    → low ≤ end
    → ((i == b) ≡ false → states i ≡ some st → low ≤ st.leo)
    → low ≤ st.leo
unfolding Broker.note_replica leo_or
noted-leo b end now states low i st e reached old = elim (Bool-cases (i == b)) [
  | inl same ↦
      let new : some (record { leo = end; last_seen = now }) ≡ some st = sym (rw same refl) ∙ e in
      omega (arith, ap leo_or new)
  | inr other ↦ old other (sym (rw other refl) ∙ e)
]

-- When the end of a leader's log is acknowledged by the last replica that is alive and not known to
-- have it, all of the log is committed, if the watermark was not past the end.
pub handle_replica_ack-commits :
    (opened : Bytes → Result Log) (now : ℕ) (req : ReplicaAckRequest) (pm : PartitionMeta) (l : Log)
    (n : Node)
    → Leads req.topic req.partition pm l n
    → l.hw ≤ leo l
    → leo l ≤ req.leo
    → ((i : ℕ) (st : ReplicaState)
        → (i == n.id) ≡ false
        → (i == req.broker_id) ≡ false
        → is_alive now n.cluster i ≡ true
        → states_of (key req.topic req.partition) n i ≡ some st
        → leo l ≤ st.leo)
    → hw_at req.topic req.partition (handle_replica_ack opened now req n) ≡ leo l
unfolding handle_replica_ack note_replica Broker.note_replica
handle_replica_ack-commits opened now req pm l n h bound acked others =
    let k = key req.topic req.partition in
    let n' = note_replica now req.topic req.partition req.broker_id req.leo n in
    let h' : Leads req.topic req.partition pm l n' = record {
      known = meta_of-topics req.topic req.partition n n' refl ∙ h.known;
      leads = h.leads;
      stored = h.stored;
    } in
    let seen = states_of-note_replica now req.topic req.partition req.broker_id req.leo n in
    let low = lowest-isr_now now k pm n' (leo l) (λ i st other up e.
      noted-leo req.broker_id req.leo now (states_of k n) (leo l) i st (sym (seen i) ∙ e) acked
        (λ another old. others i st other another up old)) in
    hw_at-recompute_hw opened now req.topic req.partition pm l n' h' ∙ omega (arith, low)
