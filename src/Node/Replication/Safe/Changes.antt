-- ===== src/Node/Replication/Safe/Changes.antt =====
-- The steps of a leader of a replicated partition, in internal/broker.
use logship.Prelude.{
  arith, ℕ, ◌≡◌, ◌≤◌, ◌⊎◌, false, List, ==_iff, refl, sym, ap, subst, ◌∙◌, true, Option, none, some,
  [], ◌∷◌, Bytes, ◌==◌, Bool-cases, inl, inr,
}
use logship.Prelude.Int.{ℤ}
use logship.Segment.{Result}
use logship.Log.{Log, leo}
use logship.Broker.{PartitionMeta, ReplicaState, contains}
use logship.Broker.Produce.{is_solo}
use logship.Broker
use logship.Cluster.{Cluster}
use logship.Store.{key, get, put}
use logship.Store.Keys.{get-put_same}
use logship.Node.{
  Node, meta_of-topics, states_of, note_replica, recompute_hw, maybe_solo_hw, solo_known,
}
use logship.Node.Produce.{hw_at, hw_at-get, hw_at-put, set_log, solo_found}
use logship.Node.Watermark.{recompute_hw-bounds, contains-isr_now, states_of-note_replica}
use logship.Node.Replication.{System, InSync}
use logship.Node.Replication.Leader.{
  LeaderHas, recompute_hw-LeaderHas, states_of-recompute_hw, id-recompute_hw,
}
use logship.Node.Replication.Safe.{Replicated}

leo_of : Option ReplicaState → ℕ
leo_of none = 0
leo_of (some st) = st.leo

noted_below :
    (b end now : ℕ) (states : ℕ → Option ReplicaState) (high i : ℕ) (st : ReplicaState)
    → Broker.note_replica b end now states i ≡ some st
    → ((i == b) ≡ true → end ≤ high)
    → (states i ≡ some st → st.leo ≤ high)
    → st.leo ≤ high
unfolding Broker.note_replica leo_of
noted_below b end now states high i st e new old = elim (Bool-cases (i == b)) [
  | inl same ↦
      let is : some (record { leo = end; last_seen = now }) ≡ some st = sym (rw same refl) ∙ e in
      omega (arith, ap leo_of is, new same)
  | inr other ↦ old (sym (rw other refl) ∙ e)
]

-- With the follower in the ISR, the leader is not alone.
apart-is_solo :
    (isr : List ℕ) (pm : PartitionMeta) (id mine_ : ℕ)
    → pm.isr ≡ isr
    → contains isr mine_ ≡ true
    → (mine_ == id) ≡ false
    → is_solo id pm ≡ false
unfolding is_solo contains
apart-is_solo [] pm id mine_ e has other = cc
apart-is_solo (i ∷ []) pm id mine_ e has other = rw e (alone (Bool-cases (i == mine_)))
  where
    alone : ((i == mine_) ≡ true) ⊎ ((i == mine_) ≡ false) → (i == id) ≡ false
    alone (inl same) = subst (λ j. (j == id) ≡ false) (sym ((==_iff i mine_).0 same)) other
    alone (inr not_same) = let bad : false ≡ true = sym (rw not_same refl) ∙ has in cc
apart-is_solo (i ∷ j ∷ is) pm id mine_ e has other = rw e refl

module _ (topic : Bytes) (partition : ℤ) (me : Node) (base : ℕ) (s : System)
    (h : Replicated topic partition me base s) where
  -- A leader with the same records and no higher watermark, that knows nothing new of the follower.
  leader-Replicated :
      (n : Node)
      → LeaderHas topic partition me.id base h.all n
      → n.id ≡ s.leader.id
      → hw_at topic partition n ≤ leo s.mine
      → ((st : ReplicaState)
          → states_of (key topic partition) n me.id ≡ some st
          → st.leo ≤ leo s.mine)
      → Replicated topic partition me base (record s { leader = n })
  leader-Replicated n leads id low known = record {
    all = h.all;
    leads = leads;
    apart = rw id h.apart;
    stored = h.stored;
    text = h.text;
    named = h.named;
    follows = h.follows;
    small = h.small;
    committed = low;
    known = known;
    sent = h.sent;
    answered = h.answered;
  }

  -- Another node with the topics and the logs of the leader.
  same-LeaderHas :
      (n : Node)
      → s.leader.topics ≡ n.topics
      → n.id ≡ s.leader.id
      → n.store ≡ s.leader.store
      → LeaderHas topic partition me.id base h.all n
  same-LeaderHas n topics id store = record {
    pm = h.leads.pm;
    log = h.leads.log;
    leads = record {
      known = meta_of-topics topic partition s.leader n topics ∙ h.leads.leads.known;
      leads = h.leads.leads.leads ∙ sym id;
      stored = ap (get topic partition) store ∙ h.leads.leads.stored;
    };
    replica = h.leads.replica;
    in_isr = h.leads.in_isr;
    parts = h.leads.parts;
    last = h.leads.last;
    held = h.leads.held;
    same = h.leads.same;
    small = h.leads.small;
  }

  pub recompute-Replicated :
      (opened : Bytes → Result Log) (now : ℕ)
      → InSync topic partition me.id now s.leader
      → Replicated topic partition me base
          (record s { leader = recompute_hw opened now topic partition s.leader })
  recompute-Replicated opened now sync =
      let n = s.leader in
      let has = h.leads in
      let bounds =
        recompute_hw-bounds opened now topic partition has.pm has.log n me.id sync.state has.leads
          has.replica h.apart sync.alive sync.seen sync.fresh in
      let listed =
        contains-isr_now now (key topic partition) has.pm n me.id sync.state has.replica h.apart
          sync.alive sync.seen sync.fresh in
      let same = states_of-recompute_hw opened now topic partition me.id base h.all n has in
      leader-Replicated (recompute_hw opened now topic partition n)
        (recompute_hw-LeaderHas opened now topic partition me.id base h.all n has listed)
        (id-recompute_hw opened now topic partition me.id base h.all n has)
        (omega (arith, bounds.1, h.committed, h.known sync.state sync.seen))
        (λ st e. h.known st (sym (ap (λ f. f me.id) same) ∙ e))

  pub note-Replicated :
      (now b end : ℕ)
      → ((me.id == b) ≡ true → end ≤ leo s.mine)
      → Replicated topic partition me base
          (record s { leader = note_replica now topic partition b end s.leader })
  note-Replicated now b end reached =
      leader-Replicated (note_replica now topic partition b end s.leader)
        (unfold note_replica in same-LeaderHas _ refl refl refl) (unfold note_replica in refl)
        (unfold note_replica in unfold hw_at in h.committed)
        (λ st e.
          noted_below b end now (states_of (key topic partition) s.leader) (leo s.mine) me.id st
            (sym (states_of-note_replica now topic partition b end s.leader me.id) ∙ e) reached
            (h.known st))

  pub hear-Replicated :
      (c : Cluster)
      → Replicated topic partition me base (record s { leader = record s.leader { cluster = c } })
  unfolding states_of hw_at
  hear-Replicated c =
      leader-Replicated (record s.leader { cluster = c }) (same-LeaderHas _ refl refl refl) refl
        h.committed h.known

  pub solo-Replicated : Replicated topic partition me base (record s {
    leader = solo_found topic partition (get topic partition s.leader.store) s.leader;
  })
  unfolding solo_found set_log maybe_solo_hw solo_known
  solo-Replicated =
      let pm = h.leads.pm in
      let many = apart-is_solo pm.isr pm s.leader.id me.id refl h.leads.in_isr h.apart in
      let same = put (key topic partition) h.leads.log s.leader.store in
      let n : Node = record s.leader { store = same } in
      rw (h.leads.leads.stored, h.leads.leads.known, many)
        (leader-Replicated n
          (record {
            pm = pm;
            log = h.leads.log;
            leads = record {
              known = meta_of-topics topic partition s.leader n refl ∙ h.leads.leads.known;
              leads = h.leads.leads.leads;
              stored = get-put_same topic partition h.leads.log s.leader.store;
            };
            replica = h.leads.replica;
            in_isr = h.leads.in_isr;
            parts = h.leads.parts;
            last = h.leads.last;
            held = h.leads.held;
            same = h.leads.same;
            small = h.leads.small;
          })
          refl
          (omega (
            arith,
            h.committed,
            hw_at-put topic partition h.leads.log s.leader,
            hw_at-get topic partition h.leads.log s.leader h.leads.leads.stored,
          ))
          (λ st e. h.known st (unfold states_of in e)))
