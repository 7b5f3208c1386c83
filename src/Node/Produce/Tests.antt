-- ===== src/Node/Produce/Tests.antt =====
-- The theorems on produced records at a small broker.
use logship.Prelude.{
  ◌+◌, ◌^◌, ◌≤◌, ◌≡◌, refl, true, false, some, [], ◌∷◌, ◌++◌, arith, lookup, str_eq,
}
use logship.Prelude.Int.{pos}
use logship.Record.{Record, encoded_size}
use logship.Log.Sample.{one, log_of, one-LogHolds}
use logship.Log.Append.{healthy}
use logship.Broker.{find_partition}
use logship.Broker.Produce.{partition_meta, choose_partition}
use logship.Routing.{partition, hash32}
use logship.Store.{new_store}
use logship.Store.Keys.{get-put_same}
use logship.Protocol.{ProduceRecord, ProduceRequest}
use logship.Node.{meta_of}
use logship.Node.Fetch.{IsCommitted, serve_fetch, served, to_wire, serve_fetch-IsCommitted}
use logship.Node.Produce.{ProduceIo, produce_at, produce_record, produce_local}
use logship.Node.Produce.Acks.{IsVisible, produce_record-IsVisible}
use logship.Node.Produce.Alone.{IsAlone}
use logship.Node.Produce.Solo.{Committed, produce_at-Committed}
use logship.Node.Produce.Fetched.{serve_fetch-Committed}
use logship.Node.Produce.Partial.{HalfDone, produce_local-half}
use logship.Node.Sample.{topic, solo, elsewhere, broker, unopened, silent, meta_of-broker}

solo-IsAlone : IsAlone topic (pos 0) solo (broker (solo ∷ []))
solo-IsAlone = record {
  known = meta_of-broker solo [] refl;
  leads = refl;
  replicas = refl;
  isr = refl;
}

abbrev asked : ProduceRecord
asked = record { key = 1 ∷ []; value = 2 ∷ []; partition = pos 0 }

abbrev stored : Record
stored = record { offset = 1; timestamp = 8; key = 1 ∷ []; value = 2 ∷ [] }

abbrev fine : ProduceIo
fine = record { now = 8; opened = unopened; append = healthy 8; rounds = [] }

produce_at-Committed_example :
    Committed
      (broker (solo ∷ []))
      topic
      (pos 0)
      solo
      0
      (one ++ stored ∷ [])
      1
      (produce_at fine true topic (pos 0) asked (broker (solo ∷ [])))
produce_at-Committed_example =
    produce_at-Committed unopened 8 [] true topic (pos 0) asked solo (broker (solo ∷ []))
      (log_of 0 one) 0 [] one solo-IsAlone (get-put_same topic (pos 0) (log_of 0 one) new_store)
      (one-LogHolds 0) (omega arith)
      (record { offset_fits = omega arith; timestamp_fits = omega arith; size_fits = omega arith })
      (omega arith)

-- The produced record, for the fetch behind it.
produced :
    Committed
      (broker (solo ∷ []))
      topic
      (pos 0)
      solo
      0
      (one ++ stored ∷ [])
      1
      (produce_at fine false topic (pos 0) asked (broker (solo ∷ [])))
produced =
    produce_at-Committed unopened 8 [] false topic (pos 0) asked solo (broker (solo ∷ []))
      (log_of 0 one) 0 [] one solo-IsAlone (get-put_same topic (pos 0) (log_of 0 one) new_store)
      (one-LogHolds 0) (omega arith)
      (record { offset_fits = omega arith; timestamp_fits = omega arith; size_fits = omega arith })
      (omega arith)

stored_small : encoded_size stored ≤ 2 ^ 20
unfolding encoded_size
stored_small = omega arith

serve_fetch-Committed_example :
    (serve_fetch unopened silent false topic
      (pos 0)
      (pos 1)
      (pos 0)
      (produce_at fine false topic (pos 0) asked (broker (solo ∷ []))).1).0
    ≡ served record {
      topic = topic;
      partition = pos 0;
      high_watermark = 1 + 1;
      log_end_offset = 1 + 1;
      records = to_wire (stored ∷ []);
    }
serve_fetch-Committed_example =
    serve_fetch-Committed (broker (solo ∷ [])) topic (pos 0) solo 0 one stored
      (produce_at fine false topic (pos 0) asked (broker (solo ∷ []))) unopened silent produced refl
      stored_small

serve_fetch-IsCommitted_example :
    IsCommitted
      (serve_fetch unopened silent false topic (pos 0) (pos 0) (pos 0) (broker (solo ∷ []))).0
serve_fetch-IsCommitted_example =
    serve_fetch-IsCommitted unopened silent topic (pos 0) (pos 0) (pos 0) solo (broker (solo ∷ []))
      (meta_of-broker solo [] refl) refl

abbrev second : ProduceRecord
second = record { key = 1 ∷ []; value = 3 ∷ []; partition = pos 1 }

abbrev request : ProduceRequest
request = record {
  topic = topic;
  partition = pos 0;
  key = [];
  value = [];
  acks = 45 ∷ 49 ∷ [];
  records = asked ∷ second ∷ [];
}

produce_record-IsVisible_example :
    IsVisible topic (produce_record fine true request 1 asked (broker (solo ∷ [])))
produce_record-IsVisible_example =
    produce_record-IsVisible fine request 1 asked (broker (solo ∷ []))

first-choice :
    choose_partition asked.key (str_eq request.key asked.key) asked.partition request.partition 2 0
    ≡ (pos 0, 0)
unfolding choose_partition partition hash32 str_eq
first-choice = refl

second-choice :
    choose_partition second.key
      (str_eq request.key second.key)
      second.partition
      request.partition
      2
      0
    ≡ (pos 1, 0)
unfolding choose_partition str_eq
second-choice = refl

meta_of-elsewhere : meta_of topic (pos 1) (broker (solo ∷ elsewhere ∷ [])) ≡ some elsewhere
unfolding meta_of partition_meta find_partition lookup str_eq
meta_of-elsewhere = refl

lookup-topic : lookup topic ((topic, solo ∷ elsewhere ∷ []) ∷ []) ≡ some (solo ∷ elsewhere ∷ [])
unfolding lookup str_eq
lookup-topic = refl

-- The second record belongs to broker 2.
produce_local-half_example :
    HalfDone
      (broker (solo ∷ elsewhere ∷ []))
      topic
      (pos 0)
      0
      (one ++ stored ∷ [])
      1
      2
      (produce_local (λ i. fine) request (broker (solo ∷ elsewhere ∷ [])))
produce_local-half_example =
    produce_local-half (λ i. fine) unopened 8 [] request asked second (solo ∷ elsewhere ∷ [])
      (broker (solo ∷ elsewhere ∷ [])) (pos 0) (pos 1) 0 0 solo elsewhere (log_of 0 one) 0 [] one
      refl lookup-topic refl first-choice second-choice
      (record {
        known = meta_of-broker solo (elsewhere ∷ []) refl;
        leads = refl;
        replicas = refl;
        isr = refl;
      })
      meta_of-elsewhere refl (get-put_same topic (pos 0) (log_of 0 one) new_store) (one-LogHolds 0)
      (omega arith)
      (record { offset_fits = omega arith; timestamp_fits = omega arith; size_fits = omega arith })
      (omega arith)
