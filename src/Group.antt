-- ===== src/Group.antt =====
-- The consumer-group coordinator, internal/group/coordinator.go. A Go map is an association list
-- with distinct keys; the clock, the fresh member id, and the file system's answer are arguments.
-- Every method holds the coordinator's mutex to its end, so a call is one step. A state stands for
-- its name too; `partitionsOf` is set, as the broker has it.
pub mod Members
pub mod Sound
pub mod Reach
pub mod Offsets
pub mod Durable
pub mod Fetch
mod Tests
use logship.Prelude.{
  ℕ, zero, suc, ◌+◌, ◌-◌, ◌*◌, ◌≡◌, refl, Bool, true, false, not, ◌&&◌, ◌||◌, Option, none, some,
  List, [], ◌∷◌, ◌++◌, arith, ltb, leb, ◌==◌, if◌then◌else◌, length, Bytes, str_leb, str_eq,
  sort_by, lookup, insert,
}
use logship.Assignor.{Topics, Assignment, range_assign}

pub data State : Type 0 where
  empty : State
  preparing_rebalance : State
  completing_rebalance : State
  stable : State

pub record Member : Type 0 where
  pub topics : List Bytes
  pub last_heartbeat : ℕ
  pub joined : Bool
  pub synced : Bool
  pub assignment : Option Topics

pub record Group : Type 0 where
  pub state : State
  pub generation : ℕ
  pub members : List (Bytes × Member)
  pub leader : Bytes

pub record Config : Type 0 where
  pub session_timeout : ℕ
  pub rebalance_wait : ℕ
  pub partitions_of : Bytes → List ℕ

pub data Error : Type 0 where
  unknown_member : Error
  generation_mismatch : Error
  rebalance_in_progress : Error
  unknown_group : Error

unfoldable pub is_preparing : State → Bool
is_preparing empty = false
is_preparing preparing_rebalance = true
is_preparing completing_rebalance = false
is_preparing stable = false

unfoldable pub is_completing : State → Bool
is_completing empty = false
is_completing preparing_rebalance = false
is_completing completing_rebalance = true
is_completing stable = false

unfoldable pub is_stable : State → Bool
is_stable empty = false
is_stable preparing_rebalance = false
is_stable completing_rebalance = false
is_stable stable = true

unfoldable pub new_group : Group
new_group = record { state = empty; generation = 0; members = []; leader = [] }

abbrev pub with_members : List (Bytes × Member) → Group → Group
with_members ms g = record {
  state = g.state;
  generation = g.generation;
  members = ms;
  leader = g.leader;
}

-- `for _, m := range g.Members`, changing each.
unfoldable pub each : (Bytes → Member → Member) → List (Bytes × Member) → List (Bytes × Member)
each f [] = []
each f ((id, m) ∷ ms) = (id, f id m) ∷ each f ms

-- The loop that deletes members.
unfoldable pub keep : (Member → Bool) → List (Bytes × Member) → List (Bytes × Member)
keep ok [] = []
keep ok ((id, m) ∷ ms) = let rest = keep ok ms in if ok m then (id, m) ∷ rest else rest

unfoldable pub delete : Bytes → List (Bytes × Member) → List (Bytes × Member)
delete id [] = []
delete id ((j, m) ∷ ms) = let rest = delete id ms in if str_eq j id then rest else (j, m) ∷ rest

unfoldable pub all_members : (Member → Bool) → List (Bytes × Member) → Bool
all_members ok [] = true
all_members ok ((id, m) ∷ ms) = let rest = all_members ok ms in if ok m then rest else false

unfoldable pub ids : List (Bytes × Member) → List Bytes
ids [] = []
ids ((id, m) ∷ ms) = id ∷ ids ms

unfoldable pub reset : Bytes → Member → Member
reset id m = record {
  topics = m.topics;
  last_heartbeat = m.last_heartbeat;
  joined = false;
  synced = false;
  assignment = none;
}

unfoldable pub begin_rebalance : Group → Group
begin_rebalance g = record {
  state = preparing_rebalance;
  generation = g.generation + 1;
  members = each reset g.members;
  leader = [];
}

unfoldable pub subscribe : (Bytes → List ℕ) → List Bytes → Topics → Topics
subscribe partitions_of [] tp = tp
subscribe partitions_of (t ∷ ts) tp = subscribe partitions_of ts (insert t (partitions_of t) tp)

unfoldable pub subscriptions : (Bytes → List ℕ) → List (Bytes × Member) → Topics → Topics
subscriptions partitions_of [] tp = tp
subscriptions partitions_of ((id, m) ∷ ms) tp =
    subscriptions partitions_of ms (subscribe partitions_of m.topics tp)

unfoldable pub assigned : Option Topics → Member → Member
assigned none m = m
assigned (some topics) m = record {
  topics = m.topics;
  last_heartbeat = m.last_heartbeat;
  joined = m.joined;
  synced = false;
  assignment = some topics;
}

unfoldable pub first_of : List Bytes → Bytes
first_of [] = []
first_of (i ∷ is) = i

unfoldable pub finish_assignment : Config → Group → Group
finish_assignment cfg g =
    let sorted = sort_by str_leb (ids g.members) in
    let asg = range_assign sorted (subscriptions cfg.partitions_of g.members []) in
    if length g.members == 0
    then record { state = empty; generation = g.generation; members = g.members; leader = [] }
    else record {
      state = completing_rebalance;
      generation = g.generation;
      members = each (λ id m. assigned (lookup id asg) m) g.members;
      leader = first_of sorted;
    }

-- Has the member been heard of within `timeout`?
unfoldable pub heard : ℕ → ℕ → Member → Bool
heard timeout now m = not (ltb timeout (now - m.last_heartbeat))

unfoldable pub has_joined : Member → Bool
has_joined m = m.joined

unfoldable pub has_synced : Member → Bool
has_synced m = m.synced

unfoldable pub maybe_complete_join : Config → ℕ → Group → Group
maybe_complete_join cfg now g =
    let left = keep (heard cfg.session_timeout now) g.members in
    let g' = with_members left g in
    if not (all_members has_joined left) && ltb 0 (length left)
    then g'
    else finish_assignment cfg g'

unfoldable pub touched : ℕ → List Bytes → Option Member → Member
touched now topics none = record {
  topics = topics;
  last_heartbeat = now;
  joined = false;
  synced = false;
  assignment = none;
}
touched now topics (some m) = record {
  topics = topics;
  last_heartbeat = now;
  joined = m.joined;
  synced = false;
  assignment = m.assignment;
}

unfoldable pub mark_joined : Bytes → Bytes → Member → Member
mark_joined id j m = if str_eq j id then record m { joined = true } else m

-- `Join` of a group: a member with an empty id is given the `fresh` one.
unfoldable pub join_group : Config → ℕ → Bytes → List Bytes → Group → Group
join_group cfg now id topics g =
    let ms = insert id (touched now topics (lookup id g.members)) g.members in
    let g1 = with_members ms g in
    let g2 = if not (is_preparing g.state) then begin_rebalance g1 else g1 in
    maybe_complete_join cfg now (with_members (each (mark_joined id) g2.members) g2)

pub record JoinResult : Type 0 where
  pub member_id : Bytes
  pub generation : ℕ
  pub leader_id : Bytes
  pub member_ids : List Bytes
  pub state : State

unfoldable pub join_result : Bytes → Group → JoinResult
join_result id g = record {
  member_id = id;
  generation = g.generation;
  leader_id = g.leader;
  member_ids = if str_eq g.leader id then sort_by str_leb (ids g.members) else [];
  state = g.state;
}

abbrev pub Groups : Type 0
Groups = List (Bytes × Group)

unfoldable pub group_or_new : Option Group → Group
group_or_new none = new_group
group_or_new (some g) = g

unfoldable pub join : Config → ℕ → Bytes → Bytes → Bytes → List Bytes → Groups → JoinResult × Groups
join cfg now fresh group_id member_id topics groups =
    let id = if length member_id == 0 then fresh else member_id in
    let g = join_group cfg now id topics (group_or_new (lookup group_id groups)) in
    (join_result id g, insert group_id g groups)

-- What a call answers: an assignment, or an error with the generation and state it reports.
pub data Reply : Type 0 where
  assignment : Topics → ℕ → State → Reply
  refused : Error → Option (ℕ × State) → Reply

unfoldable pub mark_synced : ℕ → Bytes → Bytes → Member → Member
mark_synced now id j m = if str_eq j id then record m { last_heartbeat = now; synced = true } else m

unfoldable pub topics_of : Option Topics → Topics
topics_of none = []
topics_of (some t) = t

unfoldable pub sync_member : ℕ → Bytes → Member → Group → Reply × Group
sync_member now id m g =
    let ms = each (mark_synced now id) g.members in
    let state = if is_completing g.state && all_members has_synced ms then stable else g.state in
    (
      assignment (topics_of m.assignment) g.generation state,
      record g { members = ms; state = state },
    )

unfoldable pub sync_known : ℕ → Bytes → Option Member → Group → Reply × Group
sync_known now id none g = (refused unknown_member (some (g.generation, g.state)), g)
sync_known now id (some m) g =
    if is_preparing g.state
    then (refused rebalance_in_progress (some (g.generation, g.state)), g)
    else sync_member now id m g

unfoldable pub sync_group : ℕ → Bytes → ℕ → Group → Reply × Group
sync_group now id generation g =
    if not (generation == g.generation)
    then (refused generation_mismatch (some (g.generation, g.state)), g)
    else sync_known now id (lookup id g.members) g

unfoldable pub sync_found : ℕ → Bytes → Bytes → ℕ → Option Group → Groups → Reply × Groups
sync_found now group_id id generation none groups = (refused unknown_group none, groups)
sync_found now group_id id generation (some g) groups =
    let (reply, g') = sync_group now id generation g in (reply, insert group_id g' groups)

unfoldable pub sync : ℕ → Bytes → Bytes → ℕ → Groups → Reply × Groups
sync now group_id id generation groups =
    sync_found now group_id id generation (lookup group_id groups) groups

-- A heartbeat's answer: the state, and the error if there is one.
unfoldable pub heard_from : ℕ → Bytes → Bytes → Member → Member
heard_from now id j m = if str_eq j id then record m { last_heartbeat = now } else m

unfoldable pub beat : ℕ → Bytes → ℕ → Option Member → Group → (State × Option Error) × Group
beat now id generation none g = ((g.state, some unknown_member), g)
beat now id generation (some m) g =
    if not (generation == g.generation) || not (is_stable g.state)
    then ((g.state, some rebalance_in_progress), g)
    else ((g.state, none), record g { members = each (heard_from now id) g.members })

unfoldable pub heartbeat_group : ℕ → Bytes → ℕ → Group → (State × Option Error) × Group
heartbeat_group now id generation g = beat now id generation (lookup id g.members) g

heartbeat_found :
    ℕ → Bytes → Bytes → ℕ → Option Group → Groups → (Option State × Option Error) × Groups
heartbeat_found now group_id id generation none groups = ((none, some unknown_group), groups)
heartbeat_found now group_id id generation (some g) groups =
    let (answer, g') = heartbeat_group now id generation g in
    ((some answer.0, answer.1), insert group_id g' groups)

-- No state is reported of an unknown group.
unfoldable pub heartbeat : ℕ → Bytes → Bytes → ℕ → Groups → (Option State × Option Error) × Groups
unfolding heartbeat_found
heartbeat now group_id id generation groups =
    heartbeat_found now group_id id generation (lookup group_id groups) groups

unfoldable pub leave_group : Config → ℕ → Bytes → Group → Group
leave_group cfg now id g =
    maybe_complete_join cfg now (begin_rebalance (with_members (delete id g.members) g))

unfoldable pub leave_found : Config → ℕ → Bytes → Bytes → Option Group → Groups → Groups
leave_found cfg now group_id id none groups = groups
leave_found cfg now group_id id (some g) groups = insert group_id (leave_group cfg now id g) groups

unfoldable pub leave : Config → ℕ → Bytes → Bytes → Groups → Groups
leave cfg now group_id id groups = leave_found cfg now group_id id (lookup group_id groups) groups

unfoldable pub oldest : ℕ → List (Bytes × Member) → ℕ
oldest t [] = t
oldest t ((id, m) ∷ ms) = oldest (if ltb m.last_heartbeat t then m.last_heartbeat else t) ms

unfoldable pub joined_or_heard : ℕ → ℕ → Member → Bool
joined_or_heard timeout now m = m.joined || heard timeout now m

-- The second half of `Expire`: a rebalance under way is completed.
unfoldable pub complete_delayed : Config → ℕ → Group → Group
complete_delayed cfg now g =
    if not (is_preparing g.state)
    then g
    else if all_members has_joined g.members || ltb cfg.rebalance_wait (now - oldest now g.members)
    then finish_assignment cfg
        (with_members (keep (joined_or_heard cfg.rebalance_wait now) g.members) g)
    else g

unfoldable pub expire_group : Config → ℕ → Group → Group
expire_group cfg now g =
    let left = keep (heard cfg.session_timeout now) g.members in
    if length left == length g.members
    then complete_delayed cfg now g
    else if length left == 0
    then record (begin_rebalance (with_members left g)) { state = empty }
    else complete_delayed cfg now (begin_rebalance (with_members left g))

unfoldable pub expire : Config → ℕ → Groups → Groups
expire cfg now [] = []
expire cfg now ((id, g) ∷ groups) = (id, expire_group cfg now g) ∷ expire cfg now groups
