-- ===== src/Node/Replication/Leader.antt =====
-- The leader's log and what it knows of a partition, at the steps of internal/broker that compute the
-- watermark.
use logship.Prelude.{
  ℕ, ◌≡◌, ◌<◌, ◌^◌, refl, sym, ap, subst, ◌∙◌, true, Option, none, some, List, [], ◌∷◌, ◌==◌, Bytes,
  lookup, str_eq, Bool-cases, inl, inr, eq→==-true, either_branch,
}
use logship.Prelude.Int.{ℤ, pos, negsuc}
use logship.Record.{Record}
use logship.Segment.{Result}
use logship.Log.{Log, leo, set_high_watermark}
use logship.Log.Chain.{LogHolds, records}
use logship.Log.Watermark.{set_high_watermark_lem}
use logship.Broker.{PartitionMeta, contains, find_partition, with_leader, same_ints, lowest}
use logship.Broker.Produce.{Topics, partition_meta}
use logship.Store.{key}
use logship.Store.Keys.{get-put_same, open_partition-get}
use logship.Node.{
  Node, meta_of, states_of, set_isr, update_topic, isr_now, recompute_open, recompute_found,
  recompute_known, recompute_hw,
}
use logship.Node.Watermark.{Leads}

-- A partition is found, with this leader and these replicas, and in its ISR are those that are in the old
-- and in the new one.
pub record Placed (pm : PartitionMeta) (isr : List ℕ) (found : Option PartitionMeta) : Type 0 where
  pub now : PartitionMeta
  pub there : found ≡ some now
  pub leader : now.leader ≡ pm.leader
  pub replicas : now.replicas ≡ pm.replicas
  pub in_isr :
      (i : ℕ) → contains pm.isr i ≡ true → contains isr i ≡ true → contains now.isr i ≡ true

find_partition-set_isr :
    (id i : ℕ) (isr : List ℕ) (ps : List PartitionMeta) (pm : PartitionMeta)
    → find_partition id ps ≡ some pm
    → Placed pm isr (find_partition id (set_isr i isr ps))
unfolding find_partition set_isr with_leader
find_partition-set_isr id i isr [] pm e = cc
find_partition-set_isr id i isr (p ∷ ps) pm e = elim (Bool-cases (p.id == id)) [
  | inl here ↦
      let own : some p ≡ some pm = sym (rw here refl) ∙ e in
      elim (Bool-cases (p.id == i)) [
        | inl new ↦
            rw (new, here)
              (record {
                now = with_leader p.leader isr p;
                there = refl;
                leader = ap leader_of own;
                replicas = ap replicas_of own;
                in_isr = λ j old_has new_has. new_has;
              })
        | inr old ↦
            rw (old, here)
              (record {
                now = p;
                there = refl;
                leader = ap leader_of own;
                replicas = ap replicas_of own;
                in_isr = λ j old_has new_has. ap (λ r. contains r j) (ap isr_list own) ∙ old_has;
              })
      ]
  | inr past ↦
      let rest = find_partition-set_isr id i isr ps pm (sym (rw past refl) ∙ e) in
      elim (Bool-cases (p.id == i)) [
        | inl new ↦ rw (new, past) rest
        | inr old ↦ rw (old, past) rest
      ]
]
  where
    leader_of : Option PartitionMeta → ℕ
    leader_of none = 0
    leader_of (some q) = q.leader

    isr_list : Option PartitionMeta → List ℕ
    isr_list none = []
    isr_list (some q) = q.isr

    replicas_of : Option PartitionMeta → List ℕ
    replicas_of none = []
    replicas_of (some q) = q.replicas

partition_meta-update_topic :
    (id i : ℕ) (isr : List ℕ) (name : Bytes) (ts : Topics) (pm : PartitionMeta)
    → partition_meta ts name id ≡ some pm
    → Placed pm isr (partition_meta (update_topic (set_isr i isr) name ts) name id)
unfolding partition_meta update_topic lookup
partition_meta-update_topic id i isr name [] pm e = cc
partition_meta-update_topic id i isr name ((t, ps) ∷ ts) pm e = elim (Bool-cases (str_eq t name)) [
  | inl here ↦ rw (here, here) (find_partition-set_isr id i isr ps pm (sym (rw here refl) ∙ e))
  | inr past ↦
      rw (past, past) (partition_meta-update_topic id i isr name ts pm (sym (rw past refl) ∙ e))
]

meta_of-recompute_open :
    (now : ℕ) (topic : Bytes) (partition : ℤ) (pm : PartitionMeta) (l : Log) (n : Node)
    → meta_of topic partition n ≡ some pm
    → Placed pm
        (isr_now now (key topic partition) pm n)
        (meta_of topic partition (recompute_open now topic partition pm l n))
unfolding meta_of recompute_open
meta_of-recompute_open now topic (negsuc p) pm l n e = cc
meta_of-recompute_open now topic (pos p) pm l n e =
    let isr = isr_now now (key topic (pos p)) pm n in
    either_branch (λ ts. Placed pm isr (partition_meta ts topic p)) (same_ints pm.isr isr)
      (record {
        now = pm;
        there = e;
        leader = refl;
        replicas = refl;
        in_isr = λ i old_has new_has. old_has;
      })
      (partition_meta-update_topic p pm.id isr topic n.topics pm e)

-- The leader `n` of a partition with the replica `id` has the records `all`.
pub record LeaderHas (topic : Bytes) (partition : ℤ) (id base : ℕ) (all : List Record) (n : Node)
    : Type 0 where
  pub pm : PartitionMeta
  pub log : Log
  pub leads : Leads topic partition pm log n
  pub replica : contains pm.replicas id ≡ true
  pub in_isr : contains pm.isr id ≡ true
  pub parts : List (List Record)
  pub last : List Record
  pub held : LogHolds base log parts last
  pub same : records parts last ≡ all
  pub small : log.cfg.max_segment_bytes < 2 ^ 32

watermarked-LogHolds :
    {base : ℕ} {l : Log} {parts : List (List Record)} {last : List Record} (hw : ℕ)
    → LogHolds base l parts last
    → LogHolds base (record l { hw = hw }) parts last
watermarked-LogHolds hw h = record {
  sealed = h.sealed;
  active = h.active;
  active_base = h.active_base;
}

module _ (opened : Bytes → Result Log) (now : ℕ) (topic : Bytes) (partition : ℤ) (id base : ℕ)
    (all : List Record) (n : Node) (h : LeaderHas topic partition id base all n) where
  recompute_hw-open :
      recompute_hw opened now topic partition n ≡ recompute_open now topic partition h.pm h.log n
  unfolding recompute_hw recompute_known recompute_found
  recompute_hw-open =
      rw
        (
          h.leads.known,
          eq→==-true h.pm.leader n.id h.leads.leads,
          open_partition-get (opened (key topic partition)) topic partition h.log n.store
              h.leads.stored,
        )
        refl

  recompute_open-LeaderHas :
      contains (isr_now now (key topic partition) h.pm n) id ≡ true
      → LeaderHas topic partition id base all (recompute_open now topic partition h.pm h.log n)
  recompute_open-LeaderHas listed =
      let k = key topic partition in
      let placed = meta_of-recompute_open now topic partition h.pm h.log n h.leads.known in
      let low = lowest n.id (states_of k n) (isr_now now k h.pm n) (leo h.log) in
      let raised = set_high_watermark_lem (pos low) h.log in
      record {
        pm = placed.now;
        log = set_high_watermark (pos low) h.log;
        leads = record {
          known = placed.there;
          leads = placed.leader ∙ h.leads.leads ∙ unfold recompute_open in refl;
          stored =
              unfold recompute_open in
              get-put_same topic partition (set_high_watermark (pos low) h.log) n.store;
        };
        replica = ap (λ rs. contains rs id) placed.replicas ∙ h.replica;
        in_isr = placed.in_isr id h.in_isr listed;
        parts = h.parts;
        last = h.last;
        held = rw raised (watermarked-LogHolds _ h.held);
        same = h.same;
        small = rw raised h.small;
      }

  -- Computing the watermark leaves the records of the leader as they are.
  pub recompute_hw-LeaderHas :
      contains (isr_now now (key topic partition) h.pm n) id ≡ true
      → LeaderHas topic partition id base all (recompute_hw opened now topic partition n)
  recompute_hw-LeaderHas listed =
      subst (LeaderHas topic partition id base all) (sym recompute_hw-open)
        (recompute_open-LeaderHas listed)

  pub states_of-recompute_hw :
      states_of (key topic partition) (recompute_hw opened now topic partition n)
      ≡ states_of (key topic partition) n
  states_of-recompute_hw =
      ap (states_of (key topic partition)) recompute_hw-open
      ∙ unfold recompute_open in unfold states_of in refl

  pub id-recompute_hw : (recompute_hw opened now topic partition n).id ≡ n.id
  id-recompute_hw = ap (λ m. m.id) recompute_hw-open ∙ unfold recompute_open in refl
