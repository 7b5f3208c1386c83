-- ===== src/Node/Start.antt =====
-- A broker that starts, `New` of internal/broker/broker.go, with `loadTopics` and `persistTopicsLocked` of
-- internal/broker/metadata.go. `marshal` and `unmarshal` are those of encoding/json.
pub mod Saved
mod Tests
use logship.Prelude.{
  ℕ, ◌≡◌, ◌⊎◌, inl, inr, refl, sym, ap, subst, ◌∙◌, Bool, true, false, Option, none, some, List, [],
  ◌∷◌, Bytes, lookup, insert, lookup-insert, str_eq, str_eq→eq, str_eq_refl, str_leb, sort_by,
  insert_by, if◌then◌else◌, Bool-cases, arith, ==_refl, ◌==◌, length,
}
use logship.Cluster.{Peer, put_peer}
use logship.Cluster
use logship.Broker.{PartitionMeta}
use logship.Broker.Produce.{Topics}
use logship.Config.{Config, with_defaults}
use logship.Disk.{Disk, SaveIo, replace_file, replace_file-new}
use logship.Group.Durable.{Reading, missing, unreadable, found, read_at}
use logship.Store.{Store, Partitions, new_store, load_existing}
use logship.Node.{Node}
use logship.Node.Metadata.{snapshot_topics}

-- The topics of a file, one after another into the map.
unfoldable pub put_topics : Topics → Topics → Topics
put_topics [] topics = topics
put_topics ((name, ps) ∷ ts) topics = put_topics ts (insert name ps topics)

-- What New makes of the store and of the topics.
store_loaded : Bool × Store → Option Store
store_loaded (true, s) = some s
store_loaded (false, s) = none

topics_loaded : Bool × Topics → Option Topics
topics_loaded (true, ts) = some ts
topics_loaded (false, ts) = none

node_of : ℕ → ℕ → Bytes → List Peer → Config → Option Store → Option Topics → Option Node
node_of now id advertise peers cfg none ts = none
node_of now id advertise peers cfg (some s) none = none
node_of now id advertise peers cfg (some s) (some ts) = some record {
  id = id;
  advertise = advertise;
  replica_lag_time = cfg.replica_lag_time;
  produce_timeout = cfg.produce_timeout;
  cluster = Cluster.new (record { id = id; addr = advertise }) peers cfg.session_timeout now;
  store = s;
  topics = ts;
  replica_leo = [];
  counter = 0;
}

module _ (marshal : Topics → Option Bytes) (unmarshal : Bytes → Option Topics) (path : Bytes) where
  persist_marshalled : SaveIo → Option Bytes → Disk → Bool × Disk
  persist_marshalled io none d = (false, d)
  persist_marshalled io (some bytes) d =
      if io.made then replace_file io path bytes d else (false, d)

  unfoldable pub persist_topics : SaveIo → Topics → Disk → Bool × Disk
  unfolding persist_marshalled
  persist_topics io topics d = persist_marshalled io (marshal (snapshot_topics topics)) d

  load_unmarshalled : Option Topics → Topics → Bool × Topics
  load_unmarshalled none topics = (false, topics)
  load_unmarshalled (some ts) topics = (true, put_topics ts topics)

  -- Whether there was no error, and the map.
  unfoldable pub load_topics : Reading → Topics → Bool × Topics
  unfolding load_unmarshalled
  load_topics missing topics = (true, topics)
  load_topics unreadable topics = (false, topics)
  load_topics (found bytes) topics = load_unmarshalled (unmarshal bytes) topics

  -- `none` is an error. `made` is whether the data directory could be made, and the directories
  -- of the topics are those that `LoadExisting` finds.
  unfoldable pub new_broker :
      ℕ
      → Bool
      → ℕ
      → Bytes
      → List Peer
      → Config
      → List (Bytes × Option Partitions)
      → Reading
      → Option Node
  unfolding store_loaded topics_loaded node_of
  new_broker now made id advertise peers cfg directories reading =
      let started =
        node_of now id advertise peers (with_defaults cfg)
          (store_loaded (load_existing directories new_store))
          (topics_loaded (load_topics reading [])) in
      if made then started else none

-- `Start` takes the address of the listener where none is given.
unfoldable pub advertised : Bytes → Node → Node
advertised listener n =
    if length n.advertise == 0
    then record n {
      advertise = listener;
      cluster = record n.cluster {
        self = record { id = n.id; addr = listener };
        peers = put_peer (record { id = n.id; addr = listener }) n.cluster.peers;
      };
    }
    else n
