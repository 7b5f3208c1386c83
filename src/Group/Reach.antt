-- ===== src/Group/Reach.antt =====
-- The coordinator as a state machine, internal/group/coordinator.go: a step is one call, or one
-- round of `Expire`, on a group.
use logship.Prelude.{
  ℕ, ◌+◌, ◌≤◌, ◌≡◌, ◌≢◌, ◌↔◌, refl, true, not, Option, none, some, List, arith, ◌==◌, if◌then◌else◌,
  either_branch, length, Bytes, lookup, ◌∙◌,
}
use logship.Group.{
  State, Member, Group, Error, Config, new_group, is_stable, with_members, keep, finish_assignment,
  maybe_complete_join, begin_rebalance, join_group, leave_group, sync_group, sync_known,
  sync_member, heartbeat_group, beat, expire_group, complete_delayed, is_preparing, heard, Reply,
}
use logship.Group.Sound.{
  IsSound, Fits, join_group-IsSound, leave_group-IsSound, sync_group-IsSound,
  heartbeat_group-IsSound, expire_group-IsSound,
}

pub data Step (cfg : Config) : Group → Group → Type 0 where
  join :
      (now : ℕ) (id : Bytes) (topics : List Bytes) {g : Group}
      → Step cfg g (join_group cfg now id topics g)
  leave : (now : ℕ) (id : Bytes) {g : Group} → Step cfg g (leave_group cfg now id g)
  sync :
      (now : ℕ) (id : Bytes) (generation : ℕ) {g : Group}
      → Step cfg g (sync_group now id generation g).1
  heartbeat :
      (now : ℕ) (id : Bytes) (generation : ℕ) {g : Group}
      → Step cfg g (heartbeat_group now id generation g).1
  expire : (now : ℕ) {g : Group} → Step cfg g (expire_group cfg now g)

-- Any number of steps.
pub data Steps (cfg : Config) : Group → Group → Type 0 where
  start : {g : Group} → Steps cfg g g
  step : {g h k : Group} → Steps cfg g h → Step cfg h k → Steps cfg g k

Step-IsSound : (cfg : Config) (g h : Group) → Step cfg g h → IsSound g → IsSound h
Step-IsSound cfg g h (join now id topics) sound = join_group-IsSound cfg now id topics g sound
Step-IsSound cfg g h (leave now id) sound = leave_group-IsSound cfg now id g
Step-IsSound cfg g h (sync now id generation) sound = sync_group-IsSound now id generation g sound
Step-IsSound cfg g h (heartbeat now id generation) sound =
    heartbeat_group-IsSound now id generation g sound
Step-IsSound cfg g h (expire now) sound = expire_group-IsSound cfg now g sound

new_group-IsSound : IsSound new_group
unfolding IsSound Fits new_group
new_group-IsSound = refl

-- Whatever calls a new group has seen, in any order: when it is empty it has no members, while it
-- prepares a rebalance nobody leads, and when it completes one or is stable a member leads; when
-- it is stable every member has synced.
pub Steps-IsSound : (cfg : Config) (g : Group) → Steps cfg new_group g → IsSound g
Steps-IsSound cfg g start = new_group-IsSound
Steps-IsSound cfg g (step {h = h} before last) =
    Step-IsSound cfg h g last (Steps-IsSound cfg h before)

HasGeneration : ℕ → Group → Type 0
HasGeneration n g = g.generation ≡ n

finish-generation :
    (cfg : Config) (g : Group) → HasGeneration g.generation (finish_assignment cfg g)
unfolding finish_assignment HasGeneration
finish-generation cfg g =
    either_branch (HasGeneration g.generation) (length g.members == 0) refl refl

complete-generation :
    (cfg : Config) (now : ℕ) (g : Group)
    → HasGeneration g.generation (maybe_complete_join cfg now g)
unfolding maybe_complete_join HasGeneration
complete-generation cfg now g =
    either_branch (HasGeneration g.generation) _ refl (finish-generation cfg (with_members _ g))

delayed-generation :
    (cfg : Config) (now : ℕ) (g : Group) → HasGeneration g.generation (complete_delayed cfg now g)
unfolding complete_delayed HasGeneration
delayed-generation cfg now g =
    either_branch (HasGeneration g.generation) (not (is_preparing g.state)) refl
      (either_branch (HasGeneration g.generation) _ (finish-generation cfg (with_members _ g)) refl)

sync_known-generation :
    (now : ℕ) (id : Bytes) (found : Option Member) (g : Group)
    → (sync_known now id found g).1.generation ≡ g.generation
unfolding sync_known sync_member
sync_known-generation now id none g = refl
sync_known-generation now id (some m) g =
    either_branch (λ (x : Reply × Group). x.1.generation ≡ g.generation) (is_preparing g.state) refl
      refl

pub sync_group-generation :
    (now : ℕ) (id : Bytes) (generation : ℕ) (g : Group)
    → (sync_group now id generation g).1.generation ≡ g.generation
unfolding sync_group
sync_group-generation now id generation g =
    either_branch (λ (x : Reply × Group). x.1.generation ≡ g.generation) _ refl
      (sync_known-generation now id _ g)

beat-generation :
    (now : ℕ) (id : Bytes) (generation : ℕ) (found : Option Member) (g : Group)
    → (beat now id generation found g).1.generation ≡ g.generation
unfolding beat
beat-generation now id generation none g = refl
beat-generation now id generation (some m) g =
    either_branch (λ (x : (State × Option Error) × Group). x.1.generation ≡ g.generation) _ refl
      refl

pub leave_group-generation :
    (cfg : Config) (now : ℕ) (id : Bytes) (g : Group)
    → (leave_group cfg now id g).generation ≡ g.generation + 1
unfolding leave_group begin_rebalance HasGeneration
leave_group-generation cfg now id g = complete-generation cfg now _

-- A join during a rebalance keeps the generation, and any other starts the next one.
pub join_group-generation :
    (cfg : Config) (now : ℕ) (id : Bytes) (topics : List Bytes) (g : Group)
    → (join_group cfg now id topics g).generation
      ≡ (if not (is_preparing g.state) then g.generation + 1 else g.generation)
unfolding join_group begin_rebalance HasGeneration
join_group-generation cfg now id topics g = complete-generation cfg now _ ∙ ground arith

pub expire_group-generation :
    (cfg : Config) (now : ℕ) (g : Group)
    → (expire_group cfg now g).generation ≡ (
        if length (keep (heard cfg.session_timeout now) g.members) == length g.members
        then g.generation
        else g.generation + 1)
unfolding expire_group begin_rebalance HasGeneration
expire_group-generation cfg now g = ground (
  arith,
  delayed-generation cfg now g,
  delayed-generation cfg now
      (begin_rebalance (with_members (keep (heard cfg.session_timeout now) g.members) g)),
)

beat-accepted :
    (now : ℕ) (id : Bytes) (generation : ℕ) (found : Option Member) (g : Group)
    → ((beat now id generation found g).0.1 ≡ none)
      ↔ ((found ≢ none) × (generation ≡ g.generation) × (is_stable g.state ≡ true))
unfolding beat
beat-accepted now id generation none g = ground arith
beat-accepted now id generation (some m) g = ground arith

-- A heartbeat is accepted exactly when the sender is a member, the generation is the current one,
-- and the group is stable.
pub heartbeat_group-accepted :
    (now : ℕ) (id : Bytes) (generation : ℕ) (g : Group)
    → ((heartbeat_group now id generation g).0.1 ≡ none)
      ↔ ((lookup id g.members ≢ none) × (generation ≡ g.generation) × (is_stable g.state ≡ true))
unfolding heartbeat_group
heartbeat_group-accepted now id generation g =
    beat-accepted now id generation (lookup id g.members) g

Step-generation : (cfg : Config) (g h : Group) → Step cfg g h → g.generation ≤ h.generation
unfolding heartbeat_group
Step-generation cfg g h (join now id topics) =
    ground (arith, join_group-generation cfg now id topics g)
Step-generation cfg g h (leave now id) = omega (arith, leave_group-generation cfg now id g)
Step-generation cfg g h (sync now id generation) =
    omega (arith, sync_group-generation now id generation g)
Step-generation cfg g h (heartbeat now id generation) =
    omega (arith, beat-generation now id generation (lookup id g.members) g)
Step-generation cfg g h (expire now) = ground (arith, expire_group-generation cfg now g)

-- The generation of a group never goes back.
pub Steps-generation : (cfg : Config) (g h : Group) → Steps cfg g h → g.generation ≤ h.generation
Steps-generation cfg g h start = omega arith
Steps-generation cfg g h (step {h = k} before last) =
    omega (arith, Steps-generation cfg g k before, Step-generation cfg k h last)
