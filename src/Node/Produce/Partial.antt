-- ===== src/Node/Produce/Partial.antt =====
-- A request of two records, `produceLocal` of internal/broker/handlers.go.
use logship.Prelude.{
  ℕ, ◌≤◌, ◌<◌, ◌^◌, ◌≡◌, refl, sym, ap, subst, ◌∙◌, Bool, false, Option, some, List, [], ◌∷◌, ◌++◌,
  ◌==◌, Bytes, length, lookup, str_eq,
}
use logship.Prelude.Int.{ℤ}
use logship.Record.{Record}
use logship.Record.RoundTrip.{IsWire}
use logship.Segment.{Result}
use logship.Log.{Log, leo}
use logship.Log.Wait.{Round}
use logship.Log.Chain.{LogHolds, records}
use logship.Log.Append.{healthy}
use logship.Broker.{PartitionMeta}
use logship.Broker.Produce.{choose_partition}
use logship.Store.{get}
use logship.Protocol.{ProduceRecord, ProduceRequest, ProduceResult}
use logship.Node.{Node, meta_of, meta_of-topics}
use logship.Node.Produce.{
  ProduceIo, ProduceError, not_leader, Answer, done, failed, lead, produce_at, produce_record,
  next_record, produce_loop, or_single, produce_topic, produce_local, wants_all,
}
use logship.Node.Produce.Alone.{IsAlone, IsAlone-same}
use logship.Node.Produce.Solo.{Committed, produce_at-Committed}

next_record-done :
    (out : List ProduceResult) (one : Answer ProduceResult × Node)
    (rest : List ProduceResult → Node → (List ProduceResult × Option ProduceError) × Node)
    (res : ProduceResult)
    → one.0 ≡ done res
    → next_record out one rest ≡ rest (out ++ res ∷ []) one.1
unfolding next_record
next_record-done out one rest res e = rw e refl

next_record-failed :
    (out : List ProduceResult) (one : Answer ProduceResult × Node)
    (rest : List ProduceResult → Node → (List ProduceResult × Option ProduceError) × Node)
    (bad : ProduceError)
    → one.0 ≡ failed bad
    → next_record out one rest ≡ ((out, some bad), one.1)
unfolding next_record
next_record-failed out one rest bad e = rw e refl

produce_at-not_leader :
    (io : ProduceIo) (all : Bool) (topic : Bytes) (partition : ℤ) (rec : ProduceRecord)
    (pm : PartitionMeta) (n : Node)
    → meta_of topic partition n ≡ some pm
    → (pm.leader == n.id) ≡ false
    → produce_at io all topic partition rec n ≡ (failed (not_leader pm.leader), n)
unfolding produce_at lead
produce_at-not_leader io all topic partition rec pm n known other = rw (known, other) refl

-- What is left of a request of which the first record was produced and the second belongs elsewhere.
pub record HalfDone (n : Node) (topic : Bytes) (partition : ℤ) (base : ℕ) (rs : List Record)
    (end leader : ℕ) (out : (List ProduceResult × Option ProduceError) × Node) : Type 0 where
  pub results : out.0.0 ≡ record { partition = partition; offset = end } ∷ []
  pub error : out.0.1 ≡ some (not_leader leader)
  pub log : Log
  pub found : get topic partition out.1.store ≡ some log
  pub parts : List (List Record)
  pub last : List Record
  pub held : LogHolds base log parts last
  pub grown : records parts last ≡ rs

module _ (io : ProduceIo) (all : Bool) (req : ProduceRequest) (first second : ProduceRecord)
    (n : Node) (count : ℕ) (p q : ℤ) (c d : ℕ) (pm other : PartitionMeta) (base end : ℕ)
    (rs : List Record)
    (to_p : choose_partition first.key
        (str_eq req.key first.key)
        first.partition
        req.partition
        count
        n.counter
      ≡ (p, c))
    (to_q : choose_partition second.key
        (str_eq req.key second.key)
        second.partition
        req.partition
        count
        c
      ≡ (q, d))
    (made : Committed
      (record n { counter = c })
      req.topic
      p
      pm
      base
      rs
      end
      (produce_at io all req.topic p first (record n { counter = c })))
    (known : meta_of req.topic q n ≡ some other) (elsewhere : (other.leader == n.id) ≡ false) where
  abbrev behind : Node
  behind = (produce_at io all req.topic p first (record n { counter = c })).1

  first_produced :
      produce_record io all req count first n
      ≡ produce_at io all req.topic p first (record n { counter = c })
  unfolding produce_record
  first_produced = rw to_p refl

  second_refused :
      (io' : ProduceIo)
      → produce_record io' all req count second behind
        ≡ (failed (not_leader other.leader), record behind { counter = d })
  unfolding produce_record
  second_refused io' =
      let routed =
        ap
          (choose_partition second.key (str_eq req.key second.key) second.partition req.partition
            count)
          made.same_counter
        ∙ to_q in
      rw routed (
        produce_at-not_leader io' all req.topic q second other (record behind { counter = d })
          (meta_of-topics req.topic q n (record behind { counter = d }) (sym made.same_topics)
            ∙ known)
          (subst (λ i. (other.leader == i) ≡ false) (sym made.same_id) elsewhere))

  produce_loop-half :
      (ios : ℕ → ProduceIo)
      → ios 0 ≡ io
      → HalfDone n req.topic p base rs end other.leader
          (produce_loop ios all req count 0 (first ∷ second ∷ []) [] n)
  unfolding produce_loop
  produce_loop-half ios same =
      let one = produce_record (ios 0) all req count first n in
      let one_is : one ≡ produce_at io all req.topic p first (record n { counter = c }) =
        ap (λ i. produce_record i all req count first n) same ∙ first_produced in
      let res : ProduceResult = record { partition = p; offset = end } in
      let two = produce_record (ios 1) all req count second behind in
      let whole : produce_loop ios all req count 0 (first ∷ second ∷ []) [] n
          ≡ ((res ∷ [], some (not_leader other.leader)), record behind { counter = d }) =
        ap (λ o. next_record [] o (produce_loop ios all req count 1 (second ∷ []))) one_is
        ∙ next_record-done [] (produce_at io all req.topic p first (record n { counter = c }))
            (produce_loop ios all req count 1 (second ∷ [])) res made.result
        ∙ next_record-failed (res ∷ []) two (produce_loop ios all req count 2 [])
            (not_leader other.leader) (ap (λ o. o.0) (second_refused (ios 1)))
        ∙ ap (λ m. ((res ∷ [], some (not_leader other.leader)), m))
            (ap (λ o. o.1) (second_refused (ios 1))) in
      subst (HalfDone n req.topic p base rs end other.leader) (sym whole) (record {
        results = refl;
        error = refl;
        log = made.log;
        found = made.found;
        parts = made.parts;
        last = made.last;
        held = made.held;
        grown = made.grown;
      })

-- A request of two records, of which this broker leads the partition of the first, alone, and another
-- broker that of the second: the first record is in the log, under the conditions of a produced
-- record, and the request as a whole ends in the error that names the other broker, to which the
-- handler then passes on the whole of it.
pub produce_local-half :
    (ios : ℕ → ProduceIo) (opened : Bytes → Result Log) (now : ℕ) (rounds : List (Round Node))
    (req : ProduceRequest) (first second : ProduceRecord) (ps : List PartitionMeta) (n : Node)
    (p q : ℤ) (c d : ℕ) (pm other : PartitionMeta) (l : Log) (base : ℕ) (parts : List (List Record))
    (last : List Record)
    → ios 0 ≡ record { now = now; opened = opened; append = healthy now; rounds = rounds }
    → lookup req.topic n.topics ≡ some ps
    → req.records ≡ first ∷ second ∷ []
    → choose_partition first.key
        (str_eq req.key first.key)
        first.partition
        req.partition
        (length ps)
        n.counter
      ≡ (p, c)
    → choose_partition second.key
        (str_eq req.key second.key)
        second.partition
        req.partition
        (length ps)
        c
      ≡ (q, d)
    → IsAlone req.topic p pm n
    → meta_of req.topic q n ≡ some other
    → (other.leader == n.id) ≡ false
    → get req.topic p n.store ≡ some l
    → LogHolds base l parts last
    → l.hw ≤ leo l
    → IsWire (record { offset = leo l; timestamp = now; key = first.key; value = first.value })
    → l.cfg.max_segment_bytes < 2 ^ 32
    → HalfDone n req.topic p base
        (records parts last
          ++ record { offset = leo l; timestamp = now; key = first.key; value = first.value } ∷ [])
        (leo l)
        other.leader
        (produce_local ios req n)
unfolding produce_local produce_topic or_single
produce_local-half ios opened now rounds req first second ps n p q c d pm other l base parts last
      same topic given to_p to_q alone known elsewhere found h bound wire small =
    let io : ProduceIo = record {
      now = now;
      opened = opened;
      append = healthy now;
      rounds = rounds;
    } in
    let n' = record n { counter = c } in
    let made =
      produce_at-Committed opened now rounds (wants_all req.acks) req.topic p first pm n' l base
        parts last (IsAlone-same req.topic p pm n alone n' refl refl) found h bound wire small in
    let all = wants_all req.acks in
    let before = records parts last in
    let stored : Record = record {
      offset = leo l;
      timestamp = now;
      key = first.key;
      value = first.value;
    } in
    rw topic (
      subst
        (λ recs.
          HalfDone n req.topic p base (before ++ stored ∷ []) (leo l) other.leader
            (produce_loop ios all req (length ps) 0 recs [] n))
        (sym (ap (or_single req) given))
        (produce_loop-half io all req first second n (length ps) p q c d pm other base (leo l)
          (before ++ stored ∷ []) to_p to_q made known elsewhere ios same))
