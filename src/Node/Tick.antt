-- ===== src/Node/Tick.antt =====
-- The tick of a broker, internal/broker/broker.go.
use logship.Prelude.{ℕ, Option, none, some, List, [], ◌∷◌, ◌==◌, if◌then◌else◌, Bytes}
use logship.Prelude.Int.{pos}
use logship.Segment.{Result}
use logship.Log.{Log}
use logship.Cluster.{is_controller, mark_seen, is_alive}
use logship.Broker.{PartitionMeta}
use logship.Broker.Produce.{Topics}
use logship.Node.{Node, recompute_hw}
use logship.Node.Metadata.{ensure_offsets_topic, controller_tick, snapshot_topics}

recompute_partitions : (Bytes → Result Log) → ℕ → Bytes → List PartitionMeta → Node → Node
recompute_partitions opened now topic [] n = n
recompute_partitions opened now topic (p ∷ ps) n =
    recompute_partitions opened now topic ps
      (if p.leader == n.id then recompute_hw opened now topic (pos p.id) n else n)

recompute_topics : (Bytes → Result Log) → ℕ → Topics → Node → Node
recompute_topics opened now [] n = n
recompute_topics opened now ((topic, ps) ∷ ts) n =
    recompute_topics opened now ts (recompute_partitions opened now topic ps n)

unfoldable pub recompute_all_hw : (Bytes → Result Log) → ℕ → Node → Node
unfolding recompute_topics recompute_partitions
recompute_all_hw opened now n = recompute_topics opened now (snapshot_topics n.topics) n

with_topics : Option Topics → Node → Option Node
with_topics none n = none
with_topics (some ts) n = some (record n { topics = ts })

offsets_ensured : Option Node → Option Node
offsets_ensured none = none
offsets_ensured (some n) = with_topics (ensure_offsets_topic n) n

recomputed : (Bytes → Result Log) → ℕ → Option Node → Option Node
recomputed opened now none = none
recomputed opened now (some n) = some (recompute_all_hw opened now n)

-- The tick on the broker's own state, between the heartbeats to the others and the start of the
-- followers; the groups expire on their own.
unfoldable pub tick : (Bytes → Result Log) → ℕ → Node → Option Node
unfolding with_topics offsets_ensured recomputed
tick opened now n =
    let m = record n { cluster = mark_seen n.id now n.cluster } in
    let controlled =
      offsets_ensured (with_topics (controller_tick (is_alive now m.cluster) m.topics) m) in
    recomputed opened now (if is_controller now m.cluster then controlled else some m)
