-- ===== src/Node/Metadata/Led.antt =====
-- The leaders and the ISRs of all partitions of a broker that creates topics, watches over them as the
-- controller and computes watermarks, internal/broker.
use logship.Prelude.{
  ℕ, zero, suc, ◌≡◌, refl, ◌∙◌, Bool, Option, none, some, List, [], ◌∷◌, ==_refl, Bytes, insert,
  str_eq, All, Bool-cases, inl, inr,
}
use logship.Broker.{
  ◌>>=◌, PartitionMeta, contains, find_partition, with_leader, same_ints, tick_partition,
  assign_replicas, assign_from, led_by_first, replicas_from, replication,
}
use logship.Broker
use logship.Broker.Election.{IsLed, tick_partition-IsLed}
use logship.Broker.Produce.{Topics, created}
use logship.Node.Metadata.{controller_tick, tick_next}

-- The partitions are numbered from `k` on.
abbrev pub Numbered : ℕ → List PartitionMeta → Type 0
Numbered k [] = Unit
Numbered k (p ∷ ps) = (p.id ≡ k) × Numbered (suc k) ps

-- The partitions of a topic: numbered, and each led by a replica in its ISR.
abbrev pub IsSound : List PartitionMeta → Type 0
IsSound ps = Numbered 0 ps × All IsLed ps

abbrev pub AllSound : Topics → Type 0
AllSound ts = All (λ t. IsSound t.1) ts

-- An option that, if there is one, has the property.
abbrev pub IfSome {ℓ} : {A : Type ℓ} → (A → Type 0) → Option A → Type 0
IfSome P none = Unit
IfSome P (some a) = P a

led_by_first-Led :
    (i : ℕ) (reps : List ℕ) → IfSome (λ p. (p.id ≡ i) × IsLed p) (led_by_first i reps)
unfolding led_by_first contains
led_by_first-Led i [] = tt
led_by_first-Led i (r ∷ rs) =
    (refl, record { is_replica = rw (==_refl r); in_isr = rw (==_refl r) })

pub assign_from_sound :
    (ids : List ℕ) (rf i k : ℕ)
    → IfSome (λ ps. Numbered i ps × All IsLed ps) (assign_from ids rf i k)
unfolding assign_from
assign_from_sound ids rf i zero = (tt, tt)
assign_from_sound ids rf i (suc k) =
    joined (replicas_from ids i 0 rf) (assign_from ids rf (suc i) k)
      (assign_from_sound ids rf (suc i) k)
  where
    behind :
        (p : Option PartitionMeta) (rest : Option (List PartitionMeta))
        → IfSome (λ q. (q.id ≡ i) × IsLed q) p
        → IfSome (λ ps. Numbered (suc i) ps × All IsLed ps) rest
        → IfSome (λ ps. Numbered i ps × All IsLed ps) (p >>= (λ q. rest >>= (λ ps. some (q ∷ ps))))
    behind none rest h hs = tt
    behind (some q) none h hs = tt
    behind (some q) (some ps) h hs = ((h.0, hs.0), (h.1, hs.1))

    joined :
        (reps : Option (List ℕ)) (rest : Option (List PartitionMeta))
        → IfSome (λ ps. Numbered (suc i) ps × All IsLed ps) rest
        → IfSome
            (λ ps. Numbered i ps × All IsLed ps)
            (reps >>= (λ rs. led_by_first i rs >>= (λ q. rest >>= (λ ps. some (q ∷ ps)))))
    joined none rest hs = tt
    joined (some rs) rest hs = behind (led_by_first i rs) rest (led_by_first-Led i rs) hs

insert-AllSound :
    (name : Bytes) (ps : List PartitionMeta) (ts : Topics)
    → IsSound ps
    → AllSound ts
    → AllSound (insert name ps ts)
unfolding insert
insert-AllSound name ps [] h hs = (h, tt)
insert-AllSound name ps ((t, qs) ∷ ts) h (k, ks) = elim (Bool-cases (str_eq t name)) [
  | inl same ↦ rw (same, AllSound) (h, ks)
  | inr other ↦ rw (other, AllSound) (k, insert-AllSound name ps ts h ks)
]

pub created-AllSound :
    (name : Bytes) (made : Option (List PartitionMeta)) (ts : Topics)
    → IfSome IsSound made
    → AllSound ts
    → IfSome AllSound (created name made ts)
unfolding created
created-AllSound name none ts h hs = tt
created-AllSound name (some ps) ts h hs = insert-AllSound name ps ts h hs

-- A tick over the partitions of one topic.
controller_tick-IsSound :
    (alive : ℕ → Bool) (k : ℕ) (ps : List PartitionMeta)
    → Numbered k ps
    → All IsLed ps
    → (qs : List PartitionMeta) × (Broker.controller_tick alive ps ≡ some qs)
      × Numbered k qs
      × All IsLed qs
unfolding Broker.controller_tick
controller_tick-IsSound alive k [] n h = ([], refl, tt, tt)
controller_tick-IsSound alive k (p ∷ ps) n h =
    let (q, made, led, same_id, same_replicas, up) = tick_partition-IsLed alive p h.0 in
    let (qs, rest, numbered, leds) = controller_tick-IsSound alive (suc k) ps n.1 h.1 in
    (q ∷ qs, rw (made, rest) refl, (same_id ∙ n.0, numbered), (led, leds))

-- Where all partitions of the topics are sound, a tick of the controller does not fail, and they are
-- sound again.
pub controller_tick-AllSound :
    (alive : ℕ → Bool) (ts : Topics)
    → AllSound ts
    → (us : Topics) × (controller_tick alive ts ≡ some us) × AllSound us
unfolding controller_tick tick_next
controller_tick-AllSound alive [] h = ([], refl, tt)
controller_tick-AllSound alive ((name, ps) ∷ ts) (h, hs) =
    let (qs, made, numbered, leds) = controller_tick-IsSound alive 0 ps h.0 h.1 in
    let (us, rest, sounds) = controller_tick-AllSound alive ts hs in
    ((name, qs) ∷ us, rw (made, rest) refl, ((numbered, leds), sounds))
