-- ===== src/Node/Metadata/Tests.antt =====
-- A controller that creates a topic and ticks.
use logship.Prelude.{◌≡◌, refl, some, [], ◌∷◌, lookup, insert, sort_by, insert_by}
use logship.Prelude.Int.{pos}
use logship.Cluster.{is_alive, all}
use logship.Broker.{assign_replicas, assign_from, replicas_from, replication, led_by_first}
use logship.Broker.Produce.{Topics, create_topic, create_absent, created}
use logship.Store.{new_store}
use logship.Node.{Node}
use logship.Node.Metadata.{create_topic_locked, broker_ids, at_least_zero, controller_tick}
use logship.Node.Metadata.Led.{AllSound}
use logship.Node.Metadata.Reach.{Steps, start, then, creates, Steps-controller_tick}

abbrev broker : Topics → Node
broker ts = record {
  id = 1;
  advertise = [];
  replica_lag_time = 10;
  produce_timeout = 5;
  cluster = record {
    self = record { id = 1; addr = [] };
    peers = record { id = 1; addr = [] } ∷ record { id = 2; addr = [] } ∷ [];
    last_seen = λ i. some 5;
    session_timeout = 3;
  };
  store = new_store;
  topics = ts;
  replica_leo = [];
  counter = 0;
}

abbrev made : Topics
made =
    (
      116 ∷ [],
      record { id = 0; leader = 1; replicas = 1 ∷ 2 ∷ []; isr = 1 ∷ [] }
          ∷ record { id = 1; leader = 2; replicas = 2 ∷ 1 ∷ []; isr = 2 ∷ [] }
          ∷ [],
    )
    ∷ []

creates_topic : create_topic_locked (116 ∷ []) (pos 2) (pos 2) (broker []) ≡ some made
unfolding create_topic_locked broker_ids at_least_zero all sort_by insert_by create_topic
    create_absent created assign_replicas assign_from replicas_from replication led_by_first lookup
    insert
creates_topic = refl

to_made : Steps (broker []) (broker made)
to_made =
    then (start (broker [])) (creates (broker []) (116 ∷ []) (pos 2) (pos 2) made creates_topic)

Steps-controller_tick_example :
    AllSound made
    × ((ts : Topics) × (controller_tick (is_alive 100 (broker made).cluster) made ≡ some ts)
        × AllSound ts)
Steps-controller_tick_example =
    Steps-controller_tick (broker []) (broker made) (is_alive 100 (broker made).cluster) refl
      to_made
