-- ===== src/Node/GroupHandlers.antt =====
-- The handlers of the consumer groups' calls, internal/broker/handlers.go, on the state of the
-- coordinator. A request is what was decoded of it, `none` where that failed.
use logship.Prelude.{ℕ, Bool, Option, none, some, List, [], ◌∷◌, if◌then◌else◌, Bytes}
use logship.Prelude.Int.{ℤ}
use logship.Cluster.{addr, controller_id, is_controller}
use logship.Group
use logship.Group.{Groups, JoinResult, State}
use logship.Group.Offsets.{Committed, commit}
use logship.Group.Fetch.{fetch_offsets}
use logship.Node.{Node}
use logship.Node.Handlers.{Reply, answered, failed, passed}

at_controller : {A : Type 0} → Bytes → (Bytes → Option A) → Reply A
at_controller [] ask = failed 503
at_controller (c ∷ cs) ask = relayed (ask (c ∷ cs))
  where
    relayed : {A : Type 0} → Option A → Reply A
    relayed none = failed 502
    relayed (some a) = passed a

-- `forwardGroup` and the handler behind it, on the coordinator's state.
unfoldable pub forward_group :
    {S A : Type 0} → ℕ → (Bytes → Option A) → (S → Reply A × S) → Node → S → Reply A × S
unfolding at_controller
forward_group now ask op n s =
    let here = op s in
    if is_controller now n.cluster
    then here
    else (at_controller (addr (controller_id now n.cluster) n.cluster) ask, s)

-- What the group handlers answer with, behind `forwardGroup`.
unfoldable pub handle_join :
    Group.Config → ℕ → Bytes → Bytes → Bytes → List Bytes → Groups → Reply JoinResult × Groups
handle_join cfg now fresh group member_id topics gs =
    let joined = Group.join cfg now fresh group member_id topics gs in
    (answered 200 joined.0, joined.1)

sync_status : Group.Reply → ℕ
sync_status (Group.assignment a generation state) = 200
sync_status (Group.refused e at) = 409

unfoldable pub handle_sync : ℕ → Bytes → Bytes → ℕ → Groups → Reply Group.Reply × Groups
unfolding sync_status
handle_sync now group member_id generation gs =
    let synced = Group.sync now group member_id generation gs in
    (answered (sync_status synced.0) synced.0, synced.1)

heartbeat_status : Option Group.Error → ℕ
heartbeat_status none = 200
heartbeat_status (some e) = 409

unfoldable pub handle_heartbeat : ℕ → Bytes → Bytes → ℕ → Groups → Reply (Option State) × Groups
unfolding heartbeat_status
handle_heartbeat now group member_id generation gs =
    let beat = Group.heartbeat now group member_id generation gs in
    (answered (heartbeat_status beat.0.1) beat.0.0, beat.1)

unfoldable pub handle_leave : Group.Config → ℕ → Bytes → Bytes → Groups → Reply Unit × Groups
handle_leave cfg now group member_id gs = (answered 200 tt, Group.leave cfg now group member_id gs)

unfoldable pub handle_commit_offsets :
    Bool → Bytes → Option (List Committed) → List (Bytes × ℤ) → Reply Unit × List (Bytes × ℤ)
handle_commit_offsets saved group none offsets = (failed 400, offsets)
handle_commit_offsets saved group (some os) offsets =
    let done = commit saved group os offsets in
    (if done.0 then answered 200 tt else failed 500, done.1)

unfoldable pub handle_fetch_offsets :
    Bytes → Bytes → List (Bytes × ℤ) → Reply (List Committed) × List (Bytes × ℤ)
handle_fetch_offsets group topic offsets =
    (answered 200 (fetch_offsets group topic offsets), offsets)
