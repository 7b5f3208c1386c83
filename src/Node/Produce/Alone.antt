-- ===== src/Node/Produce/Alone.antt =====
-- `recomputeHW` and `maybeSoloHW` of internal/broker on a partition with no other replica.
use logship.Prelude.{
  arith, ℕ, ◌≤◌, ◌≡◌, refl, sym, ap, subst, ◌∙◌, some, List, [], ◌∷◌, Bytes, ==_refl, eq→==-true,
}
use logship.Prelude.Int.{ℤ, pos}
use logship.Record.{Record}
use logship.Segment.{Result}
use logship.Log.{Log, leo, set_high_watermark}
use logship.Log.Chain.{LogHolds}
use logship.Log.Watermark.{set_high_watermark_lem}
use logship.Broker.{PartitionMeta, isr_of, lowest, same_ints, subset, contains}
use logship.Broker.Produce.{is_solo}
use logship.Store.{key, put, get}
use logship.Store.Keys.{open_partition-get}
use logship.Node.{
  meta_of-topics, solo_known, recompute_known, recompute_found, Node, meta_of, isr_now,
  recompute_open, recompute_hw, maybe_solo_hw,
}
use logship.Node.Produce.{solo_found, set_log}

-- This broker leads the partition, alone.
pub record IsAlone (topic : Bytes) (partition : ℤ) (pm : PartitionMeta) (n : Node) : Type 0 where
  pub known : meta_of topic partition n ≡ some pm
  pub leads : pm.leader ≡ n.id
  pub replicas : pm.replicas ≡ n.id ∷ []
  pub isr : pm.isr ≡ n.id ∷ []

isr_now-alone :
    (now : ℕ) (k : Bytes) (pm : PartitionMeta) (n : Node)
    → pm.replicas ≡ n.id ∷ []
    → isr_now now k pm n ≡ n.id ∷ []
unfolding isr_now isr_of
isr_now-alone now k pm n e = rw (e, ==_refl n.id)

module _ (topic : Bytes) (partition : ℤ) (pm : PartitionMeta) (n : Node)
    (alone : IsAlone topic partition pm n) where
  recompute_open-alone :
      (now : ℕ) (l : Log)
      → recompute_open now topic partition pm l n ≡ record n {
        store = put (key topic partition) (set_high_watermark (pos (leo l)) l) n.store;
      }
  unfolding recompute_open lowest same_ints subset contains
  recompute_open-alone now l =
      rw (isr_now-alone now (key topic partition) pm n alone.replicas, alone.isr, ==_refl n.id)

  pub recompute_hw-alone :
      (opened : Bytes → Result Log) (now : ℕ) (l : Log)
      → get topic partition n.store ≡ some l
      → recompute_hw opened now topic partition n ≡ record n {
        store = put (key topic partition) (set_high_watermark (pos (leo l)) l) n.store;
      }
  unfolding recompute_hw recompute_known recompute_found
  recompute_hw-alone opened now l found =
      rw
        (
          alone.known,
          eq→==-true pm.leader n.id alone.leads,
          open_partition-get (opened (key topic partition)) topic partition l n.store found,
        )
        (recompute_open-alone now l)

  pub IsAlone-same :
      (n' : Node) → n.topics ≡ n'.topics → n.id ≡ n'.id → IsAlone topic partition pm n'
  IsAlone-same n' same_topics same_id = record {
    known = meta_of-topics topic partition n n' same_topics ∙ alone.known;
    leads = alone.leads ∙ same_id;
    replicas = alone.replicas ∙ ap (λ i. i ∷ []) same_id;
    isr = alone.isr ∙ ap (λ i. i ∷ []) same_id;
  }

  pub solo_found-alone :
      (l : Log)
      → get topic partition n.store ≡ some l
      → solo_found topic partition (get topic partition n.store) n ≡ record n {
        store = put (key topic partition) (set_high_watermark (pos (leo l)) l) n.store;
      }
  unfolding solo_found set_log maybe_solo_hw solo_known is_solo
  solo_found-alone l found = rw (found, alone.known, alone.isr, ==_refl n.id) refl

-- The watermark, brought to the end.
abbrev pub raised : Log → Log
raised l = set_high_watermark (pos (leo l)) l

pub raised-hw : (l : Log) → l.hw ≤ leo l → (raised l).hw ≡ leo l
raised-hw l h = rw (set_high_watermark_lem (pos (leo l)) l) (omega arith)

pub raised-leo : (l : Log) → leo (raised l) ≡ leo l
raised-leo l = rw (set_high_watermark_lem (pos (leo l)) l) refl

pub raised-LogHolds :
    {base : ℕ} {l : Log} {parts : List (List Record)} {last : List Record}
    → LogHolds base l parts last
    → LogHolds base (raised l) parts last
raised-LogHolds {base} {l} {parts} {last} h =
    subst (λ x. LogHolds base x parts last) (sym (set_high_watermark_lem (pos (leo l)) l))
      (record { sealed = h.sealed; active = h.active; active_base = h.active_base })
