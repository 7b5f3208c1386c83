-- ===== src/Broker/Election.antt =====
-- The leader and the ISR after `controllerTick`, internal/broker/broker.go.
use logship.Prelude.{
  ℕ, ◌≡◌, refl, Bool, true, false, not, ◌&&◌, some, List, [], ◌∷◌, arith, ◌==◌, if◌then◌else◌,
  length, Bool-cases, inl, inr, ==_refl, ap, ◌∙◌, subst, sym,
}
use mathlib.Core.Option
use logship.Broker.{
  PartitionMeta, contains, filter_alive, first_or, first_alive, with_leader, fail_over, elect,
  prefer, never_empty, tick_preferred, tick_partition,
}

contains-filter_alive :
    (is : List ℕ) (alive : ℕ → Bool) (v : ℕ)
    → contains is v ≡ true
    → alive v ≡ true
    → contains (filter_alive is alive) v ≡ true
unfolding contains filter_alive
contains-filter_alive [] alive v h k = h
contains-filter_alive (i ∷ is) alive v h k = grind (arith, contains-filter_alive is alive v)

contains-first_or :
    (d : ℕ) (is : List ℕ) (alive : ℕ → Bool) → contains (d ∷ is) (first_or d is alive) ≡ true
unfolding contains first_or
contains-first_or d [] alive = ground (arith, ==_refl d)
contains-first_or d (i ∷ is) alive = ground (arith, ==_refl i, contains-first_or d is alive)

contains-first : (r : ℕ) (rs : List ℕ) → contains (r ∷ rs) r ≡ true
unfolding contains
contains-first r rs = rw (==_refl r)

-- The list's own head stands for its default.
contains-first_chosen :
    (r : ℕ) (rs : List ℕ) (alive : ℕ → Bool) → contains (r ∷ rs) (first_or r (r ∷ rs) alive) ≡ true
unfolding contains first_or
contains-first_chosen r rs alive = elim (Bool-cases (alive r)) [
  | inl up ↦ rw (up, ==_refl r)
  | inr down ↦ rw down (contains-first_or r rs alive)
]

alive-first_or :
    (d : ℕ) (is : List ℕ) (alive : ℕ → Bool) (v : ℕ)
    → contains is v ≡ true
    → alive v ≡ true
    → alive (first_or d is alive) ≡ true
unfolding contains first_or
alive-first_or d [] alive v h k = cc
alive-first_or d (i ∷ is) alive v h k = grind (arith, alive-first_or d is alive v)

-- The leader is one of the replicas and is in the ISR.
pub record IsLed (p : PartitionMeta) : Type 0 where
  pub is_replica : contains p.replicas p.leader ≡ true
  pub in_isr : contains p.isr p.leader ≡ true

contains-in_front :
    (l : ℕ) (isr : List ℕ) → contains (if contains isr l then isr else l ∷ isr) l ≡ true
unfolding contains
contains-in_front l isr = elim (Bool-cases (contains isr l)) [
  | inl there ↦ rw there there
  | inr absent ↦ rw (absent, ==_refl l)
]

contains-or_leader :
    (l : ℕ) (isr : List ℕ)
    → contains isr l ≡ true
    → contains (if length isr == 0 then l ∷ [] else isr) l ≡ true
unfolding contains
contains-or_leader l isr h = ground (arith, ==_refl l)

-- `q` is led, is the same partition, and its leader is alive if a replica is.
record Elected (alive : ℕ → Bool) (p q : PartitionMeta) : Type 0 where
  pub led : IsLed q
  pub same_id : q.id ≡ p.id
  pub same_replicas : q.replicas ≡ p.replicas
  pub leader_alive : (v : ℕ) → contains p.replicas v ≡ true → alive v ≡ true → alive q.leader ≡ true

never_empty-Elected :
    (alive : ℕ → Bool) (p q : PartitionMeta) → Elected alive p q → Elected alive p (never_empty q)
unfolding never_empty with_leader
never_empty-Elected alive p q e = record {
  led = record {
    is_replica = e.led.is_replica;
    in_isr = contains-or_leader q.leader q.isr e.led.in_isr;
  };
  same_id = e.same_id;
  same_replicas = e.same_replicas;
  leader_alive = e.leader_alive;
}

prefer-Elected :
    (alive : ℕ → Bool) (p q : PartitionMeta) (rs : List ℕ)
    → q.replicas ≡ rs
    → Elected alive p q
    → Elected alive p (prefer alive rs q)
unfolding prefer with_leader
prefer-Elected alive p q [] eq e = e
prefer-Elected alive p q (pref ∷ rs) eq e =
    elim (Bool-cases (not (pref == q.leader) && alive pref && contains q.isr pref)) [
      | inl back ↦ rw back (record {
        led = record { is_replica = rw eq (contains-first pref rs); in_isr = ground arith };
        same_id = e.same_id;
        same_replicas = e.same_replicas;
        leader_alive = λ v h k. ground arith;
      })
      | inr stay ↦ rw stay e
    ]

with_leader-Elected :
    (alive : ℕ → Bool) (p : PartitionMeta) (l : ℕ) (isr : List ℕ)
    → contains p.replicas l ≡ true
    → contains isr l ≡ true
    → ((v : ℕ) → contains p.replicas v ≡ true → alive v ≡ true → alive l ≡ true)
    → Elected alive p (with_leader l isr p)
unfolding with_leader
with_leader-Elected alive p l isr h k a = record {
  led = record { is_replica = h; in_isr = k };
  same_id = refl;
  same_replicas = refl;
  leader_alive = a;
}

fail_over-Elected :
    (alive : ℕ → Bool) (p : PartitionMeta) (rs : List ℕ) (isr : List ℕ)
    → p.replicas ≡ rs
    → IsLed p
    → (q : PartitionMeta) × (fail_over (first_alive rs alive) isr p ≡ some q) × Elected alive p q
unfolding fail_over first_alive contains
fail_over-Elected alive p [] isr eq led =
    ground (arith, led.is_replica, ap (λ rs. contains rs p.leader) eq)
fail_over-Elected alive p (r ∷ rs) isr eq led =
    let l = first_or r (r ∷ rs) alive in
    (
      with_leader l (if contains isr l then isr else l ∷ isr) p,
      refl,
      with_leader-Elected alive p l _ (rw eq (contains-first_chosen r rs alive))
          (contains-in_front l isr)
          (λ v h k. alive-first_or r (r ∷ rs) alive v (subst (λ xs. contains xs v ≡ true) eq h) k),
    )

elect-Elected :
    (alive : ℕ → Bool) (p : PartitionMeta)
    → IsLed p
    → (q : PartitionMeta) × (elect alive (filter_alive p.isr alive) p ≡ some q) × Elected alive p q
unfolding elect
elect-Elected alive p led = elim (Bool-cases (alive p.leader)) [
  | inl up ↦ rw up (
    _,
    refl,
    with_leader-Elected alive p p.leader _ led.is_replica
        (contains-filter_alive p.isr alive p.leader led.in_isr up) (λ v h k. up),
  )
  | inr down ↦ rw down (fail_over-Elected alive p p.replicas _ refl led)
]

unfoldable pub any_alive : (ℕ → Bool) → List ℕ → Bool
any_alive alive [] = false
any_alive alive (i ∷ is) = let rest = any_alive alive is in if alive i then true else rest

any_alive_member :
    (alive : ℕ → Bool) (is : List ℕ) (v : ℕ)
    → contains is v ≡ true
    → alive v ≡ true
    → any_alive alive is ≡ true
unfolding any_alive contains
any_alive_member alive [] v h k = cc
any_alive_member alive (i ∷ is) v h k = grind (arith, any_alive_member alive is v)

alive_member :
    (alive : ℕ → Bool) (is : List ℕ)
    → any_alive alive is ≡ true
    → (v : ℕ) × (contains is v ≡ true) × (alive v ≡ true)
unfolding any_alive contains
alive_member alive [] h = cc
alive_member alive (i ∷ is) h = elim (Bool-cases (alive i)) [
  | inl up ↦ (i, contains-first i is, up)
  | inr down ↦ let (v, there, up) = alive_member alive is (rw down at h) in (v, ground arith, up)
]

leader-any_alive :
    (alive : ℕ → Bool) (p q : PartitionMeta)
    → Elected alive p q
    → alive q.leader ≡ any_alive alive p.replicas
leader-any_alive alive p q e = elim (Bool-cases (any_alive alive p.replicas)) [
  | inl some_up ↦
      let (v, there, up) = alive_member alive p.replicas some_up in
      e.leader_alive v there up ∙ sym some_up
  | inr all_down ↦ elim (Bool-cases (alive q.leader)) [
    | inl up ↦
        up
        ∙ sym
            (any_alive_member alive p.replicas q.leader (rw e.same_replicas at e.led.is_replica) up)
    | inr down ↦ down ∙ sym all_down
  ]
]

-- For a partition whose leader is a replica in the ISR, one tick of the controller succeeds, and
-- gives the same partition with again a leader that is a replica in the ISR. The new leader is
-- alive if and only if one of the replicas is.
pub tick_partition-IsLed :
    (alive : ℕ → Bool) (p : PartitionMeta)
    → IsLed p
    → (q : PartitionMeta) × (tick_partition alive p ≡ some q)
      × IsLed q
      × (q.id ≡ p.id)
      × (q.replicas ≡ p.replicas)
      × (alive q.leader ≡ any_alive alive p.replicas)
unfolding tick_partition tick_preferred
tick_partition-IsLed alive p led =
    let (q, eq, e) = elect-Elected alive p led in
    let e' = never_empty-Elected alive p _ (prefer-Elected alive p q q.replicas refl e) in
    (
      tick_preferred alive q,
      ap (Option.map (tick_preferred alive)) eq,
      e'.led,
      e'.same_id,
      e'.same_replicas,
      leader-any_alive alive p _ e',
    )
