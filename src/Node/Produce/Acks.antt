-- ===== src/Node/Produce/Acks.antt =====
-- What `produceLocal` of internal/broker/handlers.go has done when it answers.
use logship.Prelude.{
  arith, ℕ, suc, ◌+◌, ◌<◌, ◌≡◌, refl, subst, Bool, true, not, Option, none, some, List, [], ◌∷◌,
  ◌++◌, Bytes, length, length-append, lookup, str_eq, either_branch, ◌==◌,
}
use logship.Prelude.Int.{ℤ}
use logship.Segment.{Result, ok, err, panic, stuck}
use logship.Log
use logship.Log.{Log}
use logship.Log.Wait.{Outcome, visible, timed_out, blocked, wait_high_watermark-visible}
use logship.Broker.{PartitionMeta}
use logship.Broker.Produce.{choose_partition}
use logship.Store.{Store}
use logship.Protocol.{ProduceRecord, ProduceRequest, ProduceResult}
use logship.Node.{Node, meta_of}
use logship.Node.Produce.{
  ProduceIo, ProduceError, Answer, done, failed, hw_at, waited, acknowledge, appended, append_open,
  lead, produce_at, produce_record, next_record, produce_loop, or_single, produce_topic,
  produce_local,
}

-- The record of the result is below the watermark of its partition's log.
abbrev pub IsVisible : Bytes → Answer ProduceResult × Node → Type 0
IsVisible topic (done res, n) = res.offset < hw_at topic res.partition n
IsVisible topic (failed e, n) = Unit

waited-IsVisible :
    (topic : Bytes) (res : ProduceResult) (w : Outcome × Node)
    → (w.0 ≡ visible → res.offset < hw_at topic res.partition w.1)
    → IsVisible topic (waited res w)
unfolding waited
waited-IsVisible topic res (visible, n) h = h refl
waited-IsVisible topic res (timed_out, n) h = tt
waited-IsVisible topic res (blocked, n) h = tt

appended-IsVisible :
    (io : ProduceIo) (topic : Bytes) (partition : ℤ) (out : Result ℕ × Log) (n : Node)
    → IsVisible topic (appended io true topic partition out n)
unfolding appended acknowledge
appended-IsVisible io topic partition (ok off, l) n =
    waited-IsVisible topic _ _ (wait_high_watermark-visible (hw_at topic partition) off _ _ _ _)
appended-IsVisible io topic partition (err e, l) n = tt
appended-IsVisible io topic partition (panic, l) n = tt
appended-IsVisible io topic partition (stuck, l) n = tt

append_open-IsVisible :
    (io : ProduceIo) (topic : Bytes) (partition : ℤ) (rec : ProduceRecord)
    (opened : Result Log × Store) (n : Node)
    → IsVisible topic (append_open io true topic partition rec opened n)
unfolding append_open
append_open-IsVisible io topic partition rec (ok l, s) n =
    appended-IsVisible io topic partition (Log.append io.append rec.key rec.value l)
      (record n { store = s })
append_open-IsVisible io topic partition rec (err e, s) n = tt
append_open-IsVisible io topic partition rec (panic, s) n = tt
append_open-IsVisible io topic partition rec (stuck, s) n = tt

lead-IsVisible :
    (io : ProduceIo) (topic : Bytes) (partition : ℤ) (rec : ProduceRecord)
    (pm : Option PartitionMeta) (n : Node)
    → IsVisible topic (lead io true topic partition rec pm n)
unfolding lead
lead-IsVisible io topic partition rec none n = tt
lead-IsVisible io topic partition rec (some pm) n =
    either_branch (IsVisible topic) (not (pm.leader == n.id)) tt
      (append_open-IsVisible io topic partition rec _ n)

-- A record that is acknowledged to a producer that asked for all replicas is below the high watermark
-- of its partition's log at that moment, whatever the other goroutines do to the broker meanwhile.
pub produce_record-IsVisible :
    (io : ProduceIo) (req : ProduceRequest) (parts : ℕ) (rec : ProduceRecord) (n : Node)
    → IsVisible req.topic (produce_record io true req parts rec n)
unfolding produce_record produce_at
produce_record-IsVisible io req parts rec n =
    let chosen =
      choose_partition rec.key (str_eq req.key rec.key) rec.partition req.partition parts
        n.counter in
    let m = record n { counter = chosen.1 } in
    lead-IsVisible io req.topic chosen.0 rec (meta_of req.topic chosen.0 m) m

-- Whether an answer has no error, and then as many results as records.
abbrev pub IsComplete : ℕ → (List ProduceResult × Option ProduceError) × Node → Type 0
IsComplete k ((out, none), n) = length out ≡ k
IsComplete k ((out, some e), n) = Unit

next_record-IsComplete :
    (k : ℕ) (out : List ProduceResult) (one : Answer ProduceResult × Node)
    (rest : List ProduceResult → Node → (List ProduceResult × Option ProduceError) × Node)
    → ((more : List ProduceResult) (n : Node)
        → length more ≡ length out + 1
        → IsComplete k (rest more n))
    → IsComplete k (next_record out one rest)
unfolding next_record
next_record-IsComplete k out (done res, n) rest h =
    h (out ++ res ∷ []) n (length-append out (res ∷ []))
next_record-IsComplete k out (failed e, n) rest h = tt

produce_loop-IsComplete :
    (io : ℕ → ProduceIo) (all : Bool) (req : ProduceRequest) (parts i : ℕ)
    (recs : List ProduceRecord) (out : List ProduceResult) (n : Node)
    → IsComplete (length out + length recs) (produce_loop io all req parts i recs out n)
unfolding produce_loop
produce_loop-IsComplete io all req parts i [] out n = omega arith
produce_loop-IsComplete io all req parts i (rec ∷ recs) out n =
    next_record-IsComplete _ out (produce_record (io i) all req parts rec n) _ (λ more m e.
      let same : length more + length recs ≡ length out + length (rec ∷ recs) = omega (arith, e) in
      subst (λ k. IsComplete k (produce_loop io all req parts (suc i) recs more m)) same
        (produce_loop-IsComplete io all req parts (suc i) recs more m))

produce_topic-IsComplete :
    (io : ℕ → ProduceIo) (req : ProduceRequest) (found : Option (List PartitionMeta)) (n : Node)
    → IsComplete (length (or_single req req.records)) (produce_topic io req found n)
unfolding produce_topic
produce_topic-IsComplete io req none n = tt
produce_topic-IsComplete io req (some ps) n =
    let recs = or_single req req.records in
    let zero_more : 0 + length recs ≡ length recs = omega arith in
    subst (λ k. IsComplete k (produce_topic io req (some ps) n)) zero_more
      (produce_loop-IsComplete io _ req _ 0 _ [] n)

-- A request that ends with no error has a result for each of its records, and one if it has none
-- but the key and value of the request itself.
pub produce_local-IsComplete :
    (io : ℕ → ProduceIo) (req : ProduceRequest) (n : Node)
    → IsComplete (length (or_single req req.records)) (produce_local io req n)
unfolding produce_local
produce_local-IsComplete io req n = produce_topic-IsComplete io req (lookup req.topic n.topics) n
