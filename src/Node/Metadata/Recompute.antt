-- ===== src/Node/Metadata/Recompute.antt =====
-- `recomputeHW` of internal/broker/replica.go and the metadata of the topics.
use logship.Prelude.{
  arith, ℕ, suc, ◌<◌, ◌≡◌, refl, sym, ap, subst, ◌∙◌, true, Option, none, some, List, [], ◌∷◌, ◌==◌,
  Bytes, lookup, str_eq, All, Bool-cases, inl, inr, ==_iff, eq→==-true, ne→==-false, either_branch,
}
use logship.Prelude.Int.{ℤ, pos, negsuc}
use logship.Segment.{Result, ok, err, panic, stuck}
use logship.Log.{Log}
use logship.Broker.{◌>>=◌, PartitionMeta, contains, find_partition, with_leader, same_ints}
use logship.Broker.Election.{IsLed}
use logship.Broker.Produce.{Topics, partition_meta}
use logship.Store.{Store, key}
use logship.Node.{
  Node, meta_of, set_isr, update_topic, isr_now, recompute_open, recompute_found, recompute_known,
  recompute_hw,
}
use logship.Node.Metadata.Led.{Numbered, AllSound}

set_isr-past :
    (k id : ℕ) (isr : List ℕ) (ps : List PartitionMeta)
    → Numbered k ps
    → id < k
    → set_isr id isr ps ≡ ps
unfolding set_isr
set_isr-past k id isr [] n h = refl
set_isr-past k id isr (p ∷ ps) n h =
    rw (ne→==-false p.id id (omega (arith, n.0)), set_isr-past (suc k) id isr ps n.1 (omega arith))
      refl

found_leader : Option PartitionMeta → ℕ
found_leader none = 0
found_leader (some p) = p.leader

-- A new ISR for one partition, in which its leader stands.
set_isr_sound :
    (k id : ℕ) (isr : List ℕ) (ps : List PartitionMeta) (pm : PartitionMeta)
    → Numbered k ps
    → All IsLed ps
    → find_partition id ps ≡ some pm
    → contains isr pm.leader ≡ true
    → Numbered k (set_isr id isr ps) × All IsLed (set_isr id isr ps)
unfolding set_isr find_partition found_leader with_leader
set_isr_sound k id isr [] pm n h e there = (tt, tt)
set_isr_sound k id isr (p ∷ ps) pm n h e there = elim (Bool-cases (p.id == id)) [
  | inl same ↦
      let own : some p ≡ some pm = sym (rw same refl) ∙ e in
      let leader : p.leader ≡ pm.leader = ap found_leader own in
      let rest = set_isr-past (suc k) id isr ps n.1 (omega (arith, n.0, (==_iff p.id id).0 same)) in
      rw (same, rest)
        (
          (n.0, n.1),
          (record { is_replica = h.0.is_replica; in_isr = ap (contains isr) leader ∙ there }, h.1),
        )
  | inr other ↦
      let (numbered, leds) =
        set_isr_sound (suc k) id isr ps pm n.1 h.1 (sym (rw other refl) ∙ e) there in
      rw other ((n.0, numbered), (h.0, leds))
]

update_topic-AllSound :
    (id : ℕ) (isr : List ℕ) (name : Bytes) (ts : Topics) (pm : PartitionMeta)
    → AllSound ts
    → partition_meta ts name id ≡ some pm
    → contains isr pm.leader ≡ true
    → AllSound (update_topic (set_isr id isr) name ts)
unfolding update_topic partition_meta lookup
update_topic-AllSound id isr name [] pm h e there = tt
update_topic-AllSound id isr name ((t, ps) ∷ ts) pm (h, hs) e there =
    elim (Bool-cases (str_eq t name)) [
      | inl same ↦
          rw (same, AllSound)
            (set_isr_sound 0 id isr ps pm h.0 h.1 (sym (rw same refl) ∙ e) there, hs)
      | inr other ↦
          rw (other, AllSound)
            (h, update_topic-AllSound id isr name ts pm hs (sym (rw other refl) ∙ e) there)
    ]

recompute_open-AllSound :
    (now : ℕ) (topic : Bytes) (id : ℕ) (pm : PartitionMeta) (l : Log) (n : Node)
    → AllSound n.topics
    → partition_meta n.topics topic id ≡ some pm
    → pm.leader ≡ n.id
    → pm.id ≡ id
    → AllSound (recompute_open now topic (pos id) pm l n).topics
unfolding recompute_open isr_now contains
recompute_open-AllSound now topic id pm l n h e leads same =
    let isr = isr_now now (key topic (pos id)) pm n in
    either_branch AllSound (same_ints pm.isr isr) h (
      subst (λ i. AllSound (update_topic (set_isr i isr) topic n.topics)) (sym same)
        (update_topic-AllSound id isr topic n.topics pm h e
          (rw (eq→==-true n.id pm.leader (sym leads)))))

found_id : Option PartitionMeta → ℕ
found_id none = 0
found_id (some p) = p.id

find_partition-id :
    (id : ℕ) (ps : List PartitionMeta) (pm : PartitionMeta)
    → find_partition id ps ≡ some pm
    → pm.id ≡ id
unfolding find_partition found_id
find_partition-id id [] pm e = cc
find_partition-id id (p ∷ ps) pm e = elim (Bool-cases (p.id == id)) [
  | inl same ↦
      let own : some p ≡ some pm = sym (rw same refl) ∙ e in
      omega (arith, ap found_id own, (==_iff p.id id).0 same)
  | inr other ↦ find_partition-id id ps pm (sym (rw other refl) ∙ e)
]

partition_meta-id :
    (ts : Topics) (topic : Bytes) (id : ℕ) (pm : PartitionMeta)
    → partition_meta ts topic id ≡ some pm
    → pm.id ≡ id
unfolding partition_meta
partition_meta-id ts topic id pm e = by_topic (lookup topic ts) e
  where
    by_topic :
        (found : Option (List PartitionMeta))
        → (found >>= (λ ps. find_partition id ps)) ≡ some pm
        → pm.id ≡ id
    by_topic none e = cc
    by_topic (some ps) e = find_partition-id id ps pm e

recompute_found-AllSound :
    (now : ℕ) (topic : Bytes) (id : ℕ) (pm : PartitionMeta) (opened : Result Log × Store) (n : Node)
    → AllSound n.topics
    → partition_meta n.topics topic id ≡ some pm
    → pm.leader ≡ n.id
    → AllSound (recompute_found now topic (pos id) pm opened n).topics
unfolding recompute_found
recompute_found-AllSound now topic id pm (ok l, s) n h e leads =
    recompute_open-AllSound now topic id pm l (record n { store = s }) h e leads
      (partition_meta-id n.topics topic id pm e)
recompute_found-AllSound now topic id pm (err x, s) n h e leads = h
recompute_found-AllSound now topic id pm (panic, s) n h e leads = h
recompute_found-AllSound now topic id pm (stuck, s) n h e leads = h

recompute_known-AllSound :
    (opened : Bytes → Result Log) (now : ℕ) (topic : Bytes) (id : ℕ) (found : Option PartitionMeta)
    (n : Node)
    → AllSound n.topics
    → partition_meta n.topics topic id ≡ found
    → AllSound (recompute_known opened now topic (pos id) found n).topics
unfolding recompute_known
recompute_known-AllSound opened now topic id none n h e = h
recompute_known-AllSound opened now topic id (some pm) n h e =
    elim (Bool-cases (pm.leader == n.id)) [
      | inl own ↦
          rw (own, AllSound)
            (recompute_found-AllSound now topic id pm _ n h e ((==_iff pm.leader n.id).0 own))
      | inr other ↦ rw (other, AllSound) h
    ]

-- Computing the watermark of a partition, with a new ISR, keeps the topics sound.
pub recompute_hw-AllSound :
    (opened : Bytes → Result Log) (now : ℕ) (topic : Bytes) (partition : ℤ) (n : Node)
    → AllSound n.topics
    → AllSound (recompute_hw opened now topic partition n).topics
unfolding recompute_hw recompute_known meta_of
recompute_hw-AllSound opened now topic (negsuc p) n h = h
recompute_hw-AllSound opened now topic (pos p) n h =
    recompute_known-AllSound opened now topic p (partition_meta n.topics topic p) n h refl
