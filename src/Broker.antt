-- ===== src/Broker.antt =====
-- Partition metadata and replication of a broker, internal/broker/metadata.go, replica.go and
-- broker.go. `alive` stands for `Cluster.IsAlive`; broker ids are ℕ; where the source would index
-- an empty slice the result is `none`. Whether something changed decides only on saving the metadata
-- and broadcasting it, which is left out.
pub mod Election
pub mod Watermark
pub mod Produce
pub mod Follow
pub mod Prefix
mod Tests
use logship.Prelude.{
  ℕ, zero, suc, ◌+◌, ◌-◌, ◌*◌, ◌%◌, ◌<◌, ◌≤◌, ◌≡◌, refl, Bool, true, false, not, ◌&&◌, ◌||◌, Option,
  none, some, List, [], ◌∷◌, ◌++◌, arith, ltb, leb, ◌==◌, if◌then◌else◌, length, get_elem?,
}
use mathlib.Core.Option

infixl 5 ◌>>=◌
abbrev pub ◌>>=◌ {ℓ κ} : {A : Type ℓ} {B : Type κ} → Option A → (A → Option B) → Option B
none >>= f = none
some a >>= f = f a

pub record PartitionMeta : Type 0 where
  pub id : ℕ
  pub leader : ℕ
  pub replicas : List ℕ
  pub isr : List ℕ

unfoldable pub contains : List ℕ → ℕ → Bool
contains [] v = false
contains (x ∷ xs) v = if x == v then true else contains xs v

unfoldable pub filter_alive : List ℕ → (ℕ → Bool) → List ℕ
filter_alive [] alive = []
filter_alive (i ∷ is) alive = let rest = filter_alive is alive in if alive i then i ∷ rest else rest

unfoldable pub first_or : ℕ → List ℕ → (ℕ → Bool) → ℕ
first_or d [] alive = d
first_or d (i ∷ is) alive = if alive i then i else first_or d is alive

-- The broker to lead, `replicas[0]` when none is alive.
unfoldable pub first_alive : List ℕ → (ℕ → Bool) → Option ℕ
first_alive [] alive = none
first_alive (r ∷ rs) alive = some (first_or r (r ∷ rs) alive)

unfoldable pub with_leader : ℕ → List ℕ → PartitionMeta → PartitionMeta
with_leader leader isr p = record { id = p.id; leader = leader; replicas = p.replicas; isr = isr }

-- The new leader of a partition whose leader is dead, put in front of the ISR.
unfoldable pub fail_over : Option ℕ → List ℕ → PartitionMeta → Option PartitionMeta
fail_over none isr p = none
fail_over (some l) isr p = some (with_leader l (if contains isr l then isr else l ∷ isr) p)

unfoldable pub elect : (ℕ → Bool) → List ℕ → PartitionMeta → Option PartitionMeta
elect alive isr p =
    if alive p.leader
    then some (with_leader p.leader isr p)
    else fail_over (first_alive p.replicas alive) isr p

-- Back to the first replica once it is alive and in the ISR again.
unfoldable pub prefer : (ℕ → Bool) → List ℕ → PartitionMeta → PartitionMeta
prefer alive [] p = p
prefer alive (pref ∷ rs) p =
    if not (pref == p.leader) && alive pref && contains p.isr pref
    then with_leader pref p.isr p
    else p

unfoldable pub never_empty : PartitionMeta → PartitionMeta
never_empty p = with_leader p.leader (if length p.isr == 0 then p.leader ∷ [] else p.isr) p

unfoldable pub tick_preferred : (ℕ → Bool) → PartitionMeta → PartitionMeta
tick_preferred alive p = never_empty (prefer alive p.replicas p)

-- What `controllerTick` makes of one partition.
unfoldable pub tick_partition : (ℕ → Bool) → PartitionMeta → Option PartitionMeta
tick_partition alive p =
    Option.map (tick_preferred alive) (elect alive (filter_alive p.isr alive) p)

unfoldable pub controller_tick : (ℕ → Bool) → List PartitionMeta → Option (List PartitionMeta)
controller_tick alive [] = some []
controller_tick alive (p ∷ ps) = do
  p' ← tick_partition alive p
  ps' ← controller_tick alive ps
  some (p' ∷ ps')

-- `reps[r] = ids[(i+r)%nbrokers]` for the `k` places from `r` on.
unfoldable pub replicas_from : List ℕ → ℕ → ℕ → ℕ → Option (List ℕ)
replicas_from ids i r zero = some []
replicas_from ids i r (suc k) = do
  x ← get_elem? ids ((i + r) % length ids)
  xs ← replicas_from ids i (suc r) k
  some (x ∷ xs)

unfoldable pub led_by_first : ℕ → List ℕ → Option PartitionMeta
led_by_first i [] = none
led_by_first i (r ∷ rs) = some record { id = i; leader = r; replicas = r ∷ rs; isr = r ∷ [] }

unfoldable pub assign_from : List ℕ → ℕ → ℕ → ℕ → Option (List PartitionMeta)
assign_from ids rf i zero = some []
assign_from ids rf i (suc k) = do
  reps ← replicas_from ids i 0 rf
  p ← led_by_first i reps
  ps ← assign_from ids rf (suc i) k
  some (p ∷ ps)

-- `rf` in the range from 1 to the number of brokers.
unfoldable pub replication : ℕ → ℕ → ℕ
replication rf brokers =
    let rf' = if ltb rf 1 then 1 else rf in if ltb brokers rf' then brokers else rf'

-- `nbrokers` is the number of `ids`, as its one caller has it.
unfoldable pub assign_replicas : ℕ → ℕ → List ℕ → Option (List PartitionMeta)
assign_replicas npart rf ids = assign_from ids (replication rf (length ids)) 0 npart

-- What a leader knows of a replica: its log end offset and when it last fetched.
pub record ReplicaState : Type 0 where
  pub leo : ℕ
  pub last_seen : ℕ

unfoldable pub note_replica : ℕ → ℕ → ℕ → (ℕ → Option ReplicaState) → ℕ → Option ReplicaState
note_replica broker_id leo now states i =
    if i == broker_id then some record { leo = leo; last_seen = now } else states i

unfoldable pub recent : ℕ → ℕ → Option ReplicaState → Bool
recent lag now none = false
recent lag now (some st) = leb (now - st.last_seen) lag

unfoldable pub isr_of : ℕ → (ℕ → Bool) → ℕ → ℕ → (ℕ → Option ReplicaState) → List ℕ → List ℕ
isr_of self alive lag now states [] = []
isr_of self alive lag now states (i ∷ is) =
    let rest = isr_of self alive lag now states is in
    if i == self
    then rest
    else if not (alive i)
    then rest
    else if recent lag now (states i)
    then i ∷ rest
    else rest

unfoldable pub lower : Option ReplicaState → ℕ → ℕ
lower none hw = hw
lower (some st) hw = if ltb st.leo hw then st.leo else hw

unfoldable pub lowest : ℕ → (ℕ → Option ReplicaState) → List ℕ → ℕ → ℕ
lowest self states [] hw = hw
lowest self states (i ∷ is) hw =
    if i == self then lowest self states is hw else lowest self states is (lower (states i) hw)

unfoldable pub subset : List ℕ → List ℕ → Bool
subset a [] = true
subset a (x ∷ xs) = if contains a x then subset a xs else false

unfoldable pub same_ints : List ℕ → List ℕ → Bool
same_ints a b = if length a == length b then subset a b else false

-- The ISR and the high watermark that `recomputeHW` finds for a partition that `self` leads.
unfoldable pub recompute_hw :
    ℕ → (ℕ → Bool) → ℕ → ℕ → (ℕ → Option ReplicaState) → ℕ → PartitionMeta → PartitionMeta × ℕ
recompute_hw self alive lag now states leo pm =
    let isr = self ∷ isr_of self alive lag now states pm.replicas in
    let kept = if same_ints pm.isr isr then pm.isr else isr in
    (with_leader pm.leader kept pm, lowest self states isr leo)

-- The partition that `applyTopics` knows under the same id.
unfoldable pub find_partition : ℕ → List PartitionMeta → Option PartitionMeta
find_partition id [] = none
find_partition id (p ∷ ps) = if p.id == id then some p else find_partition id ps

unfoldable pub or_leader : ℕ → List ℕ → List ℕ
or_leader leader isr = if length isr == 0 then leader ∷ [] else isr

unfoldable pub leader_kept : Bool → (ℕ → Bool) → Option PartitionMeta → PartitionMeta → ℕ
leader_kept controller alive none p = p.leader
leader_kept controller alive (some local) p =
    if controller && not (alive p.leader) then local.leader else p.leader

unfoldable pub leads_both : ℕ → Option PartitionMeta → PartitionMeta → Option (List ℕ)
leads_both self none p = none
leads_both self (some local) p =
    if local.leader == self && p.leader == self then some local.isr else none

unfoldable pub follow :
    ℕ → Bool → (ℕ → Bool) → Option PartitionMeta → PartitionMeta → Option (List ℕ) → PartitionMeta
follow self controller alive local p (some isr) = with_leader p.leader isr p
follow self controller alive local p none =
    let leader = leader_kept controller alive local p in
    with_leader leader (or_leader leader (filter_alive p.isr (λ i. i == self || alive i))) p

-- One partition of a snapshot, against the metadata the broker has.
unfoldable pub apply_partition :
    ℕ → Bool → (ℕ → Bool) → List PartitionMeta → PartitionMeta → PartitionMeta
apply_partition self controller alive prev p =
    let local = find_partition p.id prev in
    follow self controller alive local p (leads_both self local p)
