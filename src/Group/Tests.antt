-- ===== src/Group/Tests.antt =====
-- A group that one member joins and then syncs.
use mathlib.Core.List.{Mem}
use logship.Group.Fetch.{fetch_offsets, fetch_offsets-commit}
use logship.Prelude.{
  arith, inl, true, some, if◌then◌else◌, ◌&&◌, FitsInt, ◌≡◌, refl, [], ◌∷◌, Bytes, lookup, insert,
  str_eq, ◌++◌, false,
}
use logship.Prelude.Int.{pos, eq_ℤ}
use logship.Group.Offsets.{Committed, offset_key, place, commit, commit-one_lookup}
use logship.Group.{
  completing_rebalance, is_preparing, Config, Group, new_group, join_group, sync_group,
  maybe_complete_join, all_members, keep, each, begin_rebalance, heard, mark_joined, reset, touched,
  has_joined, finish_assignment,
}
use logship.Group.Sound.{IsSound}
use logship.Group.Reach.{Steps, start, step, join, sync, Steps-IsSound}

abbrev config : Config
config = record { session_timeout = 10; rebalance_wait = 2; partitions_of = λ t. 0 ∷ 1 ∷ [] }

abbrev member : Bytes
member = 109 ∷ []

abbrev joined : Group
joined = join_group config 100 member ((116 ∷ []) ∷ []) new_group

abbrev synced : Group
synced = (sync_group 101 member 1 joined).1

after_join : joined.state ≡ completing_rebalance
unfolding join_group maybe_complete_join all_members keep each is_preparing new_group
    begin_rebalance insert heard mark_joined str_eq reset touched lookup has_joined
    finish_assignment
after_join = refl

to_joined : Steps config new_group joined
to_joined = step start (join 100 member ((116 ∷ []) ∷ []))

to_synced : Steps config new_group synced
to_synced = step to_joined (sync 101 member 1)

Steps-IsSound_example : IsSound synced
Steps-IsSound_example = Steps-IsSound config synced to_synced

-- Group "m/x" with topic "t", and group "m" with topic "x/t".
abbrev longer_group : Bytes
longer_group = member ++ (47 ∷ 120 ∷ [])

abbrev shorter_topic : Committed
shorter_topic = record { topic = 116 ∷ []; partition = pos 0; offset = pos 9 }

abbrev longer_topic : Committed
longer_topic = record { topic = 120 ∷ 47 ∷ 116 ∷ []; partition = pos 0; offset = pos 4 }

partition_zero : FitsInt (pos 0)
unfolding FitsInt
partition_zero = omega arith

commit-one_lookup_example :
    lookup
      (offset_key longer_group shorter_topic.topic (pos 0))
      (commit true member (longer_topic ∷ []) []).1
    ≡ (if eq_ℤ (pos 0) (pos 0)
          && str_eq (place member longer_topic.topic) (place longer_group shorter_topic.topic)
        then some (pos 4)
        else lookup (offset_key longer_group shorter_topic.topic (pos 0)) [])
commit-one_lookup_example =
    commit-one_lookup true longer_group member shorter_topic longer_topic [] partition_zero
      partition_zero

fetch_offsets-commit_example :
    Mem
      (record { topic = 120 ∷ 47 ∷ 121 ∷ []; partition = pos 3; offset = pos 42 })
      (fetch_offsets member []
        (commit false member
          ([] ++ record { topic = 120 ∷ 47 ∷ 121 ∷ []; partition = pos 3; offset = pos 42 } ∷ [])
          []).1)
unfolding FitsInt
fetch_offsets-commit_example =
    fetch_offsets-commit false member [] []
      (record { topic = 120 ∷ 47 ∷ 121 ∷ []; partition = pos 3; offset = pos 42 }) [] (omega arith)
      (inl refl)
