-- ===== src/Node/Start/Tests.antt =====
-- A broker that starts with the topics that were saved before.
use logship.Prelude.{◌≡◌, refl, true, Option, some, [], ◌∷◌, Bytes, lookup, sort_by, insert_by}
use logship.Prelude.Int.{pos}
use logship.Broker.Produce.{Topics}
use logship.Config.{Config}
use logship.Disk.{SaveIo, whole, replace_file, write_file}
use logship.Group.Durable.{read_at}
use logship.Store.{new_store, load_existing}
use logship.Node.{Node}
use logship.Node.Metadata.{snapshot_topics}
use logship.Node.Sample.{topic, solo}
use logship.Node.Start.{persist_topics, new_broker}
use logship.Node.Start.Saved.{Distinct, new_broker-persist_topics}

abbrev saved : Topics
saved = (topic, solo ∷ []) ∷ []

-- An encoding that knows these topics.
abbrev written : Topics → Option Bytes
written ts = some (49 ∷ [])

abbrev read : Bytes → Option Topics
read bytes = some saved

abbrev io : SaveIo
io = record { made = true; writing = whole; renamed = true }

abbrev config : Config
config = record {
  bind = [];
  data_dir = [];
  session_timeout = 0;
  group_session = 0;
  rebalance_wait = 0;
  replica_lag_time = 0;
  max_segment_bytes = 0;
  index_interval = 0;
  min_isr = pos 0;
  produce_timeout = 0;
}

saved-Distinct : Distinct saved
unfolding lookup
saved-Distinct = (refl, tt)

reads_back :
    (bytes : Bytes)
    → written (snapshot_topics saved) ≡ some bytes
    → read bytes ≡ some (snapshot_topics saved)
unfolding snapshot_topics sort_by insert_by
reads_back bytes e = refl

no_error : (persist_topics written read (47 ∷ []) io saved []).0 ≡ true
unfolding persist_topics replace_file write_file
no_error = refl

opened : load_existing [] new_store ≡ (true, new_store)
unfolding load_existing
opened = refl

new_broker-persist_topics_example :
    (n : Node) × (new_broker written read
        (47 ∷ [])
        5
        true
        1
        (97 ∷ [])
        []
        config
        []
        (read_at (lookup (47 ∷ []) (persist_topics written read (47 ∷ []) io saved []).1))
      ≡ some n)
    × (n.store ≡ new_store)
    × ((name : Bytes) → lookup name n.topics ≡ lookup name saved)
new_broker-persist_topics_example =
    new_broker-persist_topics written read (47 ∷ []) io saved [] 5 1 (97 ∷ []) [] config []
      new_store saved-Distinct reads_back no_error opened
