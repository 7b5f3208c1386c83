-- ===== src/Group/Sound.antt =====
-- What each state of a group means, and the operations of the coordinator one by one,
-- internal/group/coordinator.go.
use logship.Prelude.{
  ℕ, ◌-◌, ◌≡◌, refl, true, false, not, ◌&&◌, ◌||◌, Option, none, some, List, [], ◌∷◌, arith, ltb,
  ◌==◌, if◌then◌else◌, length, Bytes, str_leb, sort_by, subst, sym, Bool-cases, inl, inr, ==_iff,
  ◌∙◌,
}
use logship.Group.{
  State, empty, preparing_rebalance, completing_rebalance, stable, Member, Group, Config, each,
  all_members, ids, first_of, has_synced, with_members, finish_assignment, maybe_complete_join,
  begin_rebalance, join_group, leave_group, sync_group, sync_known, sync_member, heartbeat_group,
  beat, expire_group, complete_delayed, mark_synced, heard_from, keep, heard, has_joined,
  is_preparing, is_completing, is_stable, oldest,
}
use logship.Group.Members.{has, ids-each, length-each, all_members-each, has_first-sort_by}

-- Empty: no members. Preparing: no leader. Completing: a member leads. Stable: a member leads, and
-- all have synced.
unfoldable pub Fits : State → Bytes → List (Bytes × Member) → Type 0
Fits empty leader ms = length ms ≡ 0
Fits preparing_rebalance leader ms = leader ≡ []
Fits completing_rebalance leader ms = has leader (ids ms) ≡ true
Fits stable leader ms = (has leader (ids ms) ≡ true) × (all_members has_synced ms ≡ true)

unfoldable pub IsSound : Group → Type 0
IsSound g = Fits g.state g.leader g.members

first-IsMember :
    (f : Bytes → Member → Member) (ms : List (Bytes × Member))
    → (length ms == 0) ≡ false
    → has (first_of (sort_by str_leb (ids ms))) (ids (each f ms)) ≡ true
unfolding ids
first-IsMember f [] h = cc
first-IsMember f ((id, m) ∷ ms) h =
    rw (ids-each f ((id, m) ∷ ms)) (has_first-sort_by str_leb id (ids ms))

finish-IsSound : (cfg : Config) (g : Group) → IsSound (finish_assignment cfg g)
unfolding finish_assignment IsSound Fits
finish-IsSound cfg g = elim (Bool-cases (length g.members == 0)) [
  | inl gone ↦ rw gone ((==_iff (length g.members) 0).0 gone)
  | inr left ↦ rw left (first-IsMember _ g.members left)
]

begin-IsSound : (g : Group) → IsSound (begin_rebalance g)
unfolding begin_rebalance IsSound Fits
begin-IsSound g = refl

preparing-Fits :
    (st : State) (leader : Bytes) (ms : List (Bytes × Member))
    → st ≡ preparing_rebalance
    → leader ≡ []
    → Fits st leader ms
unfolding Fits
preparing-Fits st leader ms at none_leads = subst (λ s. Fits s leader ms) (sym at) none_leads

complete-IsSound :
    (cfg : Config) (now : ℕ) (g : Group)
    → g.state ≡ preparing_rebalance
    → g.leader ≡ []
    → IsSound (maybe_complete_join cfg now g)
unfolding maybe_complete_join IsSound
complete-IsSound cfg now g at none_leads =
    let left = keep (heard cfg.session_timeout now) g.members in
    elim (Bool-cases (not (all_members has_joined left) && ltb 0 (length left))) [
      | inl waits ↦ rw waits (preparing-Fits g.state g.leader left at none_leads)
      | inr done ↦ rw done (finish-IsSound cfg (with_members left g))
    ]

-- After a member leaves, the group is sound.
pub leave_group-IsSound :
    (cfg : Config) (now : ℕ) (id : Bytes) (g : Group) → IsSound (leave_group cfg now id g)
unfolding leave_group begin_rebalance
leave_group-IsSound cfg now id g = complete-IsSound cfg now _ refl refl

is_preparing→eq : (st : State) → not (is_preparing st) ≡ false → st ≡ preparing_rebalance
unfolding is_preparing
is_preparing→eq empty h = cc
is_preparing→eq preparing_rebalance h = refl
is_preparing→eq completing_rebalance h = cc
is_preparing→eq stable h = cc

preparing-leader :
    (st : State) (leader : Bytes) (ms : List (Bytes × Member))
    → st ≡ preparing_rebalance
    → Fits st leader ms
    → leader ≡ []
unfolding Fits
preparing-leader st leader ms at h = subst (λ s. Fits s leader ms) at h

sound-leader : (g : Group) → g.state ≡ preparing_rebalance → IsSound g → g.leader ≡ []
unfolding IsSound
sound-leader g at sound = preparing-leader g.state g.leader g.members at sound

pub join_group-IsSound :
    (cfg : Config) (now : ℕ) (id : Bytes) (topics : List Bytes) (g : Group)
    → IsSound g
    → IsSound (join_group cfg now id topics g)
unfolding join_group begin_rebalance
join_group-IsSound cfg now id topics g sound = elim (Bool-cases (not (is_preparing g.state))) [
  | inl begins ↦ rw begins (complete-IsSound cfg now _ refl refl)
  | inr under_way ↦
      let at = is_preparing→eq g.state under_way in
      rw under_way (complete-IsSound cfg now _ at (sound-leader g at sound))
]

Fits-each :
    (st : State) (leader : Bytes) (ms : List (Bytes × Member)) (f : Bytes → Member → Member)
    → ((id : Bytes) (m : Member) → has_synced m ≡ true → has_synced (f id m) ≡ true)
    → Fits st leader ms
    → Fits st leader (each f ms)
unfolding Fits
Fits-each empty leader ms f keeps h = length-each f ms ∙ h
Fits-each preparing_rebalance leader ms f keeps h = h
Fits-each completing_rebalance leader ms f keeps h = rw (ids-each f ms) h
Fits-each stable leader ms f keeps (h, k) =
    (rw (ids-each f ms) h, all_members-each has_synced f keeps ms k)

sync-keeps :
    (now : ℕ) (id j : Bytes) (m : Member)
    → has_synced m ≡ true
    → has_synced (mark_synced now id j m) ≡ true
unfolding has_synced mark_synced
sync-keeps now id j m h = ground arith

beat-keeps :
    (now : ℕ) (id j : Bytes) (m : Member)
    → has_synced m ≡ true
    → has_synced (heard_from now id j m) ≡ true
unfolding has_synced heard_from
beat-keeps now id j m h = ground arith

synced-Fits :
    (st : State) (leader : Bytes) (ms : List (Bytes × Member))
    → Fits st leader ms
    → Fits (if is_completing st && all_members has_synced ms then stable else st) leader ms
unfolding Fits is_completing
synced-Fits empty leader ms h = h
synced-Fits preparing_rebalance leader ms h = h
synced-Fits completing_rebalance leader ms h = elim (Bool-cases (all_members has_synced ms)) [
  | inl done ↦ rw done (h, done)
  | inr waits ↦ rw waits h
]
synced-Fits stable leader ms h = h

sync_known-IsSound :
    (now : ℕ) (id : Bytes) (found : Option Member) (g : Group)
    → IsSound g
    → IsSound (sync_known now id found g).1
unfolding sync_known sync_member IsSound
sync_known-IsSound now id none g sound = sound
sync_known-IsSound now id (some m) g sound = elim (Bool-cases (is_preparing g.state)) [
  | inl busy ↦ rw busy sound
  | inr free ↦ rw free (
      synced-Fits g.state g.leader _
        (Fits-each g.state g.leader g.members _ (sync-keeps now id) sound))
]

pub sync_group-IsSound :
    (now : ℕ) (id : Bytes) (generation : ℕ) (g : Group)
    → IsSound g
    → IsSound (sync_group now id generation g).1
unfolding sync_group
sync_group-IsSound now id generation g sound =
    elim (Bool-cases (not (generation == g.generation))) [
      | inl stale ↦ rw stale sound
      | inr current ↦ rw current (sync_known-IsSound now id _ g sound)
    ]

beat-IsSound :
    (now : ℕ) (id : Bytes) (generation : ℕ) (found : Option Member) (g : Group)
    → IsSound g
    → IsSound (beat now id generation found g).1
unfolding beat IsSound
beat-IsSound now id generation none g sound = sound
beat-IsSound now id generation (some m) g sound =
    elim (Bool-cases (not (generation == g.generation) || not (is_stable g.state))) [
      | inl refused ↦ rw refused sound
      | inr fine ↦ rw fine (Fits-each g.state g.leader g.members _ (beat-keeps now id) sound)
    ]

pub heartbeat_group-IsSound :
    (now : ℕ) (id : Bytes) (generation : ℕ) (g : Group)
    → IsSound g
    → IsSound (heartbeat_group now id generation g).1
unfolding heartbeat_group
heartbeat_group-IsSound now id generation g sound = beat-IsSound now id generation _ g sound

delayed-IsSound :
    (cfg : Config) (now : ℕ) (g : Group) → IsSound g → IsSound (complete_delayed cfg now g)
unfolding complete_delayed
delayed-IsSound cfg now g sound = elim (Bool-cases (not (is_preparing g.state))) [
  | inl other ↦ rw other sound
  | inr under_way ↦
      elim (Bool-cases
        (all_members has_joined g.members || ltb cfg.rebalance_wait (now - oldest now g.members))) [
          | inl due ↦ rw (under_way, due) (finish-IsSound cfg _)
          | inr early ↦ rw (under_way, early) sound
        ]
]

gone-IsSound :
    (g : Group) (left : List (Bytes × Member))
    → (length left == 0) ≡ true
    → IsSound (record (begin_rebalance (with_members left g)) { state = empty })
unfolding begin_rebalance IsSound Fits
gone-IsSound g left gone = length-each _ left ∙ (==_iff (length left) 0).0 gone

pub expire_group-IsSound :
    (cfg : Config) (now : ℕ) (g : Group) → IsSound g → IsSound (expire_group cfg now g)
unfolding expire_group begin_rebalance
expire_group-IsSound cfg now g sound =
    let left = keep (heard cfg.session_timeout now) g.members in
    elim (Bool-cases (length left == length g.members)) [
      | inl same ↦ rw same (delayed-IsSound cfg now g sound)
      | inr fewer ↦ elim (Bool-cases (length left == 0)) [
        | inl gone ↦ rw (fewer, gone) (gone-IsSound g left gone)
        | inr left_over ↦
            rw (fewer, left_over) (delayed-IsSound cfg now _ (begin-IsSound (with_members left g)))
      ]
    ]
