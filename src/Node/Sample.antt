-- ===== src/Node/Sample.antt =====
-- A small broker, for the tests.
use logship.Prelude.{◌≡◌, refl, Option, none, some, List, [], ◌∷◌, Bytes, lookup, str_eq}
use logship.Prelude.Int.{pos}
use logship.Segment.{Result, err, io}
use logship.Log.{Log}
use logship.Log.Sample.{one, log_of}
use logship.Broker.{PartitionMeta, find_partition}
use logship.Broker.Produce.{partition_meta}
use logship.Store.{new_store, key, put}
use logship.Protocol.{FetchResponse}
use logship.Node.{Node, meta_of}

-- "t"
abbrev pub topic : Bytes
topic = 116 ∷ []

abbrev pub solo : PartitionMeta
solo = record { id = 0; leader = 1; replicas = 1 ∷ []; isr = 1 ∷ [] }

abbrev pub shared : PartitionMeta
shared = record { id = 0; leader = 1; replicas = 1 ∷ 2 ∷ []; isr = 1 ∷ 2 ∷ [] }

abbrev pub elsewhere : PartitionMeta
elsewhere = record { id = 1; leader = 2; replicas = 2 ∷ []; isr = 2 ∷ [] }

-- Broker 1, which has heard of all others at time 5, with one record in partition 0.
abbrev pub broker : List PartitionMeta → Node
broker ps = record {
  id = 1;
  advertise = 97 ∷ [];
  replica_lag_time = 10;
  produce_timeout = 5;
  cluster = record {
    self = record { id = 1; addr = 97 ∷ [] };
    peers = record { id = 1; addr = 97 ∷ [] } ∷ record { id = 2; addr = 98 ∷ [] } ∷ [];
    last_seen = λ i. some 5;
    session_timeout = 3;
  };
  store = put (key topic (pos 0)) (log_of 0 one) new_store;
  topics = (topic, ps) ∷ [];
  replica_leo = [];
  counter = 0;
}

abbrev pub unopened : Bytes → Result Log
unopened k = err io

abbrev pub silent : Bytes → Option FetchResponse
silent at = none

pub meta_of-broker :
    (p : PartitionMeta) (ps : List PartitionMeta)
    → p.id ≡ 0
    → meta_of topic (pos 0) (broker (p ∷ ps)) ≡ some p
unfolding meta_of partition_meta find_partition lookup str_eq
meta_of-broker p ps e = rw e refl
