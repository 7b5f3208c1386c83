-- ===== src/Assignor/Tests.antt =====
-- Two members share three partitions.
use logship.Prelude.{
  ◌≡◌, refl, arith, List, [], ◌∷◌, Bytes, str_eq, lookup, sort_by, insert_by, str_leb, insert,
}
use logship.Assignor.{
  Assignment, held, assign_range, range_assign, or_empty, assign_topics, keys, assign_members,
  count_at, give, empty_shares,
}
use logship.Assignor.Shares.{IsDistinct, gathered, gathered-assign_range}

abbrev members : List Bytes
members = (97 ∷ []) ∷ (98 ∷ []) ∷ []

abbrev nothing_yet : Assignment
nothing_yet = (97 ∷ [], []) ∷ (98 ∷ [], []) ∷ []

members-IsDistinct : IsDistinct members
unfolding IsDistinct str_eq
members-IsDistinct = ((refl, tt), (tt, tt))

none_held :
    (held (97 ∷ []) (116 ∷ []) nothing_yet ≡ []) × (held (98 ∷ []) (116 ∷ []) nothing_yet ≡ [])
unfolding held lookup str_eq or_empty
none_held = (refl, refl)

shared :
    range_assign ((98 ∷ []) ∷ (97 ∷ []) ∷ []) ((116 ∷ [], 2 ∷ 0 ∷ 1 ∷ []) ∷ [])
    ≡ (97 ∷ [], (116 ∷ [], 0 ∷ 1 ∷ []) ∷ []) ∷ (98 ∷ [], (116 ∷ [], 2 ∷ []) ∷ []) ∷ []
unfolding range_assign sort_by insert_by str_leb assign_topics keys assign_range or_empty lookup
    str_eq assign_members count_at give insert empty_shares held
shared = refl

gathered-assign_range_example :
    gathered members (116 ∷ []) (assign_range members (116 ∷ []) (0 ∷ 1 ∷ 2 ∷ []) nothing_yet)
    ≡ 0 ∷ 1 ∷ 2 ∷ []
gathered-assign_range_example =
    gathered-assign_range members (116 ∷ []) (0 ∷ 1 ∷ 2 ∷ []) nothing_yet (omega arith)
      members-IsDistinct (none_held.0, (none_held.1, tt))
