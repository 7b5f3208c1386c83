-- ===== src/Node/Replicate.antt =====
-- Replication between two brokers: the follower's loop of internal/broker/replica.go with
-- `handleReplicaFetch` and `handleReplicaAck` of internal/broker/handlers.go at the leader.
use logship.Prelude.{
  arith, ℕ, ◌+◌, ◌-◌, ◌≤◌, ◌<◌, ◌^◌, ◌≡◌, refl, sym, ap, subst, ◌∙◌, true, ◌||◌, not, Option, none,
  some, List, [], ◌∷◌, ◌++◌, Bytes, length, length-append, drop, take-all, drop-length_append, All,
  min, ◌==◌, if◌then◌else◌,
}
use Prim.Native.Nat.{max}
use logship.Prelude.Int.{ℤ, pos}
use logship.Record.{Record}
use logship.Segment.{Result, ok}
use logship.Segment.Contents.{Consecutive, size_of}
use logship.Log.{Log, LogIo, leo}
use logship.Log.Chain.{
  LogHolds, records, leo-LogHolds, Consecutive-append_right, Consecutive-LogHolds,
}
use logship.Log.Stretch.{stretch}
use logship.Log.Read.{read-LogHolds}
use logship.Log.Watermark.{set_high_watermark_lem}
use logship.Cluster.{addr}
use logship.Broker.{PartitionMeta, contains}
use logship.Broker.Follow.{
  Stored, from_wire, follow_records, follow_round, follow_records-Grown, working,
}
use logship.Protocol.{FetchResponse, ReplicaAckRequest}
use logship.Protocol.Json.{
  is_text, IsText, ack_over_json, response_over_json, records_over_json, records_over_json-text,
}
use logship.Node.{Node, meta_of, note_replica, recompute_hw}
use logship.Node.Fetch.{
  Fetched, served, to_wire, fetch_log, fetch_log-served, fetch_bytes, max_offset,
}

follow_at : (ℕ → LogIo) → (Bytes → Option FetchResponse) → Bytes → Log → Log
follow_at fs ask [] l = l
follow_at fs ask (c ∷ cs) l = follow_round fs (ask (c ∷ cs)) l

follow_known :
    (ℕ → LogIo) → (Bytes → Option FetchResponse) → Option PartitionMeta → Node → Log → Option Log
follow_known fs ask none n l = none
follow_known fs ask (some pm) n l =
    if pm.leader == n.id || not (contains pm.replicas n.id)
    then none
    else some (follow_at fs ask (addr pm.leader n.cluster) l)

-- One round of `followLoop`: the log behind it, or `none` where the loop ends. `ask` is the client's
-- `ReplicaFetch` from the end of the log, at an address.
unfoldable pub follow_once :
    (ℕ → LogIo) → (Bytes → Option FetchResponse) → Bytes → ℤ → Node → Log → Option Log
unfolding follow_known follow_at
follow_once fs ask topic partition n l = follow_known fs ask (meta_of topic partition n) n l

-- An acknowledgement as the leader decodes it.
unfoldable pub replica_ack : Bytes → ℤ → Node → Log → ReplicaAckRequest
replica_ack topic partition n l =
    ack_over_json (record { broker_id = n.id; topic = topic; partition = partition; leo = leo l })

-- The leader, at an acknowledgement.
unfoldable pub handle_replica_ack : (Bytes → Result Log) → ℕ → ReplicaAckRequest → Node → Node
handle_replica_ack opened now req n =
    recompute_hw opened now req.topic req.partition
      (note_replica now req.topic req.partition req.broker_id req.leo n)

-- What the client makes of the leader's answer, which has come as JSON.
unfoldable pub response : Fetched → Option FetchResponse
response (served fr) = some (response_over_json fr)
response other = none

pub from_wire-to_wire : (rs : List Record) → from_wire (to_wire rs) ≡ rs
unfolding from_wire to_wire
from_wire-to_wire [] = refl
from_wire-to_wire (r ∷ rs) = ap (λ k. r ∷ k) (from_wire-to_wire rs)

wire_text :
    (rs : List Record)
    → All IsText rs
    → All (λ w. (is_text w.key ≡ true) × (is_text w.value ≡ true)) (to_wire rs)
unfolding to_wire
wire_text [] h = tt
wire_text (r ∷ rs) (h, hs) = (h, wire_text rs hs)

pub to_wire-text : (rs : List Record) → All IsText rs → records_over_json (to_wire rs) ≡ to_wire rs
to_wire-text rs h = records_over_json-text (to_wire rs) (wire_text rs h)

-- Records of UTF-8 come to the follower as the leader has them.
pub from_wire-over_json :
    (rs : List Record) → All IsText rs → from_wire (records_over_json (to_wire rs)) ≡ rs
from_wire-over_json rs h = ap from_wire (to_wire-text rs h) ∙ from_wire-to_wire rs

-- What the leader's answer is for a follower whose records are the first of its own.
module _ (base : ℕ) (l : Log) (parts : List (List Record)) (last mine missing : List Record)
    (h : LogHolds base l parts last) (split : records parts last ≡ mine ++ missing)
    (room : size_of missing ≤ 2 ^ 20) where
  missing-stretch : stretch base (base + length mine) (leo l) (records parts last) ≡ missing
  missing-stretch =
      let skip : base + length mine - base ≡ length mine = omega arith in
      let left : length missing ≤ leo l - (base + length mine) =
        omega (arith, leo-LogHolds h, ap length split, length-append mine missing) in
      rw (split, skip, drop-length_append mine missing (length mine) refl)
        (take-all (leo l - (base + length mine)) missing left)

  pub fetch_log-missing :
      (topic : Bytes) (partition : ℤ)
      → fetch_log true topic partition (pos (base + length mine)) (pos 1048576) l
        ≡ served record {
          topic = topic;
          partition = partition;
          high_watermark = l.hw;
          log_end_offset = leo l;
          records = to_wire missing;
        }
  unfolding fetch_bytes max_offset
  fetch_log-missing topic partition =
      fetch_log-served true topic partition (pos (base + length mine)) (pos 1048576) l missing (
        read-LogHolds base l parts last (base + length mine) (pos 1048576) (pos (leo l)) h
          (omega arith) (rw missing-stretch room)
        ∙ ap ok missing-stretch)

-- The two logs hold the same records, and the follower has the leader's watermark or a higher one.
pub record CaughtUp (base : ℕ) (rs : List Record) (hw : ℕ) (l : Log) : Type 0 where
  pub parts : List (List Record)
  pub last : List Record
  pub held : LogHolds base l parts last
  pub same : records parts last ≡ rs
  pub watermark : l.hw ≡ hw

-- A follower whose log holds the first records of the leader's log, in the format and with times,
-- holds all of them after one fetch, if the others are at most 1 MiB with keys and values of UTF-8, its
-- segment limit is below 4 GiB and its file system works; its watermark is the larger of its own and the leader's, cut at the end.
pub follow_round-CaughtUp :
    (clock : ℕ → ℕ) (topic : Bytes) (partition : ℤ) (base : ℕ) (l mine : Log)
    (parts my_parts : List (List Record)) (last my_last missing : List Record)
    → LogHolds base l parts last
    → LogHolds base mine my_parts my_last
    → records parts last ≡ records my_parts my_last ++ missing
    → All Stored missing
    → All IsText missing
    → size_of missing ≤ 2 ^ 20
    → mine.cfg.max_segment_bytes < 2 ^ 32
    → CaughtUp base (records parts last) (max mine.hw (min l.hw (leo l))) (
        follow_round
          (working clock)
          (response (fetch_log true topic partition (pos (leo mine)) (pos 1048576) l))
          mine)
unfolding response response_over_json follow_round
follow_round-CaughtUp clock topic partition base l mine parts my_parts last my_last missing h my
      split stored text room small =
    let from : leo mine ≡ base + length (records my_parts my_last) = leo-LogHolds my in
    let none_old : leo mine - leo mine ≡ 0 = omega arith in
    let next : Consecutive (leo mine) missing =
      subst (λ b. Consecutive b missing) (sym from)
        (Consecutive-append_right base (records my_parts my_last) missing
          (subst (Consecutive base) split (Consecutive-LogHolds h))) in
    let g =
      follow_records-Grown clock base (leo mine) missing mine my_parts my_last my next (omega arith)
        stored small in
    let whole : records g.parts g.last ≡ records parts last =
      g.grown ∙ ap (λ k. records my_parts my_last ++ drop k missing) none_old ∙ sym split in
    let end : leo (follow_records (working clock) missing mine) ≡ leo l =
      omega (arith, leo-LogHolds g.held, leo-LogHolds h, ap length whole) in
    let got =
      ap (λ o. fetch_log true topic partition (pos o) (pos 1048576) l) from
      ∙ fetch_log-missing base l parts last (records my_parts my_last) missing h split room topic
          partition in
    rw
      (
        got,
        from_wire-over_json missing text,
        set_high_watermark_lem (pos l.hw) (follow_records (working clock) missing mine),
      )
      record {
        parts = g.parts;
        last = g.last;
        held = record {
          sealed = g.held.sealed;
          active = g.held.active;
          active_base = g.held.active_base;
        };
        same = whole;
        watermark = rw (g.same_hw, end) refl;
      }
