-- ===== src/Broker/Watermark.antt =====
-- The high watermark that a leader computes, internal/broker/replica.go.
use logship.Prelude.{
  ℕ, ◌≡◌, ◌-◌, ◌≤◌, refl, Bool, true, false, Option, none, some, List, [], ◌∷◌, arith, ◌==◌,
  ==_refl, ==_iff, le→leb, le→ltb-false, Bool-cases, inl, inr, ltb→lt, ltb-false→le,
}
use logship.Broker.{
  PartitionMeta, ReplicaState, contains, recent, isr_of, lower, lowest, recompute_hw,
}

lower-le : (found : Option ReplicaState) (hw : ℕ) → lower found hw ≤ hw
unfolding lower
lower-le none hw = omega arith
lower-le (some st) hw = ground (arith, ltb→lt st.leo hw)

lower-le_leo :
    (found : Option ReplicaState) (st : ReplicaState) (hw : ℕ)
    → found ≡ some st
    → lower found hw ≤ st.leo
unfolding lower
lower-le_leo none st hw h = cc
lower-le_leo (some found) st hw h = grind (arith, ltb→lt found.leo hw, ltb-false→le found.leo hw)

pub lowest-le :
    (self : ℕ) (states : ℕ → Option ReplicaState) (is : List ℕ) (hw : ℕ)
    → lowest self states is hw ≤ hw
unfolding lowest
lowest-le self states [] hw = omega arith
lowest-le self states (i ∷ is) hw = ground (
  arith,
  lowest-le self states is hw,
  lowest-le self states is (lower (states i) hw),
  lower-le (states i) hw,
)

pub lowest-le_leo :
    (self : ℕ) (states : ℕ → Option ReplicaState) (is : List ℕ) (hw i : ℕ) (st : ReplicaState)
    → contains is i ≡ true
    → (i == self) ≡ false
    → states i ≡ some st
    → lowest self states is hw ≤ st.leo
unfolding lowest contains
lowest-le_leo self states [] hw i st h other found = cc
lowest-le_leo self states (j ∷ is) hw i st h other found = grind (
  arith,
  ==_iff j i,
  lowest-le self states is (lower (states j) hw),
  lower-le_leo (states i) st hw found,
  lowest-le_leo self states is hw i st,
  lowest-le_leo self states is (lower (states j) hw) i st,
)

pub contains-behind : (s i : ℕ) (is : List ℕ) → contains is i ≡ true → contains (s ∷ is) i ≡ true
unfolding contains
contains-behind s i is h = ground arith

pub contains-isr_of :
    (self : ℕ) (alive : ℕ → Bool) (lag now : ℕ) (states : ℕ → Option ReplicaState) (is : List ℕ)
    (i : ℕ)
    → contains is i ≡ true
    → (i == self) ≡ false
    → alive i ≡ true
    → recent lag now (states i) ≡ true
    → contains (isr_of self alive lag now states is) i ≡ true
unfolding isr_of contains
contains-isr_of self alive lag now states [] i h other up fresh = h
contains-isr_of self alive lag now states (j ∷ is) i h other up fresh =
    grind (arith, contains-isr_of self alive lag now states is i)

-- The high watermark of `recomputeHW` is at most the leader's log end offset, and at most that of
-- any other replica that is alive and has fetched within the lag time.
pub recompute_hw-committed :
    (self : ℕ) (alive : ℕ → Bool) (lag now : ℕ) (states : ℕ → Option ReplicaState) (leo : ℕ)
    (pm : PartitionMeta) (i : ℕ) (st : ReplicaState)
    → contains pm.replicas i ≡ true
    → (i == self) ≡ false
    → alive i ≡ true
    → states i ≡ some st
    → now - st.last_seen ≤ lag
    → ((recompute_hw self alive lag now states leo pm).1 ≤ leo)
      × ((recompute_hw self alive lag now states leo pm).1 ≤ st.leo)
unfolding recompute_hw recent
recompute_hw-committed self alive lag now states leo pm i st there other up found fresh =
    let isr = isr_of self alive lag now states pm.replicas in
    let listed =
      contains-isr_of self alive lag now states pm.replicas i there other up
        (rw found (le→leb (now - st.last_seen) lag fresh)) in
    (
      lowest-le self states (self ∷ isr) leo,
      lowest-le_leo self states (self ∷ isr) leo i st (contains-behind self i isr listed) other
          found,
    )

lowest-nobody :
    (self : ℕ) (alive : ℕ → Bool) (lag now : ℕ) (states : ℕ → Option ReplicaState) (hw : ℕ)
    (is : List ℕ)
    → ((i : ℕ) → (i == self) ≡ false → alive i ≡ false)
    → lowest self states (isr_of self alive lag now states is) hw ≡ hw
unfolding lowest isr_of
lowest-nobody self alive lag now states hw [] dead = refl
lowest-nobody self alive lag now states hw (i ∷ is) dead =
    grind (arith, dead i, lowest-nobody self alive lag now states hw is dead)

-- With every other replica dead, the high watermark is the leader's log end offset: a dead replica
-- does not hold it back.
pub recompute_hw-alone :
    (self : ℕ) (alive : ℕ → Bool) (lag now : ℕ) (states : ℕ → Option ReplicaState) (leo : ℕ)
    (pm : PartitionMeta)
    → ((i : ℕ) → (i == self) ≡ false → alive i ≡ false)
    → (recompute_hw self alive lag now states leo pm).1 ≡ leo
unfolding recompute_hw lowest
recompute_hw-alone self alive lag now states leo pm dead =
    rw (==_refl self) (lowest-nobody self alive lag now states leo pm.replicas dead)

lower-reached :
    (found : Option ReplicaState) (hw : ℕ)
    → ((st : ReplicaState) → found ≡ some st → hw ≤ st.leo)
    → lower found hw ≡ hw
unfolding lower
lower-reached none hw all = refl
lower-reached (some st) hw all = rw (le→ltb-false st.leo hw (all st refl)) refl

-- Where no replica that is alive is known to be behind, nothing is below the end of the log.
pub lowest-reached :
    (self : ℕ) (alive : ℕ → Bool) (lag now : ℕ) (states : ℕ → Option ReplicaState) (hw : ℕ)
    (is : List ℕ)
    → ((i : ℕ) (st : ReplicaState)
        → (i == self) ≡ false
        → alive i ≡ true
        → states i ≡ some st
        → hw ≤ st.leo)
    → lowest self states (isr_of self alive lag now states is) hw ≡ hw
unfolding lowest isr_of
lowest-reached self alive lag now states hw [] all = refl
lowest-reached self alive lag now states hw (i ∷ is) all =
    let rest = lowest-reached self alive lag now states hw is all in
    elim (Bool-cases (i == self)) [
      | inl own ↦ ground (arith, rest)
      | inr other ↦ elim (Bool-cases (alive i)) [
        | inr dead ↦ ground (arith, rest)
        | inl up ↦ ground (arith, rest, lower-reached (states i) hw (λ st e. all i st other up e))
      ]
    ]
