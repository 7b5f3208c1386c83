-- ===== src/Broker/Tests.antt =====
-- The theorems on partitions at one of three replicas.
use logship.Prelude.{ℕ, ◌≡◌, refl, arith, Bool, true, not, Option, none, some, [], ◌∷◌, ◌==◌}
use logship.Broker.{
  PartitionMeta, ReplicaState, contains, tick_partition, assign_replicas, note_replica, elect,
  fail_over, first_alive, tick_preferred, never_empty, with_leader, prefer, first_or, filter_alive,
  assign_from, replicas_from, replication, led_by_first,
}
use logship.Prelude.Int.{pos}
use logship.Broker.Produce.{IsBelow, choose_partition, choose_partition-IsBelow}
use logship.Broker.Election.{IsLed, any_alive, tick_partition-IsLed}

abbrev three : PartitionMeta
three = record { id = 0; leader = 1; replicas = 1 ∷ 2 ∷ 3 ∷ []; isr = 1 ∷ 3 ∷ [] }

-- Broker 1, the leader, is dead.
abbrev without_1 : ℕ → Bool
without_1 i = not (i == 1)

-- Broker 2 takes over although it is not in the ISR.
fails_over :
    tick_partition without_1 three
    ≡ some (record { id = 0; leader = 2; replicas = 1 ∷ 2 ∷ 3 ∷ []; isr = 2 ∷ 3 ∷ [] })
unfolding tick_partition elect fail_over first_alive tick_preferred never_empty with_leader prefer
    first_or contains filter_alive
fails_over = refl

assigned :
    assign_replicas 2 5 (4 ∷ 7 ∷ [])
    ≡ some (
        record { id = 0; leader = 4; replicas = 4 ∷ 7 ∷ []; isr = 4 ∷ [] }
        ∷ record { id = 1; leader = 7; replicas = 7 ∷ 4 ∷ []; isr = 7 ∷ [] }
        ∷ [])
unfolding assign_replicas assign_from replicas_from replication led_by_first
assigned = refl

three-IsLed : IsLed three
unfolding contains
three-IsLed = record { is_replica = refl; in_isr = refl }

tick_partition-IsLed_example :
    (q : PartitionMeta) × (tick_partition without_1 three ≡ some q)
    × IsLed q
    × (q.id ≡ 0)
    × (q.replicas ≡ 1 ∷ 2 ∷ 3 ∷ [])
    × (without_1 q.leader ≡ any_alive without_1 (1 ∷ 2 ∷ 3 ∷ []))
tick_partition-IsLed_example = tick_partition-IsLed without_1 three three-IsLed

-- Broker 3 has fetched up to 40 at time 90.
abbrev states : ℕ → Option ReplicaState
states = note_replica 3 40 90 (λ i. none)

replica_3 : contains three.replicas 3 ≡ true
unfolding contains
replica_3 = refl

state_3 : states 3 ≡ some (record { leo = 40; last_seen = 90 })
unfolding note_replica
state_3 = refl

-- The request names partition 9 of 3.
choose_partition-IsBelow_example :
    IsBelow 3 (choose_partition (107 ∷ []) true (pos 0) (pos 9) 3 0).0
choose_partition-IsBelow_example =
    choose_partition-IsBelow (107 ∷ []) true (pos 0) (pos 9) 3 0 (omega arith) (omega arith)
