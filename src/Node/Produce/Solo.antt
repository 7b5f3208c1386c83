-- ===== src/Node/Produce/Solo.antt =====
-- A partition with no other replica: `produceLocal` and `serveFetch` of internal/broker/handlers.go.
use logship.Prelude.{
  arith, ℕ, ◌+◌, ◌<◌, ◌≤◌, ◌^◌, ◌≡◌, refl, sym, ap, subst, ◌∙◌, Bool, true, false, some, List, [],
  ◌∷◌, ◌++◌, Bytes, length, length-append, eq→==-true,
}
use logship.Prelude.Int.{ℤ}
use logship.Record.{Record}
use logship.Record.RoundTrip.{IsWire}
use logship.Segment.{Result, ok}
use logship.Log
use logship.Log.{Log, LogIo, leo, high_watermark, set_high_watermark}
use logship.Log.Chain.{LogHolds, records, leo-LogHolds}
use logship.Log.Append.{healthy, append-Appended}
use logship.Log.Wait.{Round, wait_high_watermark-now}
use logship.Broker.{PartitionMeta}
use logship.Store.{key, put, get}
use logship.Store.Keys.{get-put_same, open_partition-get}
use logship.Protocol.{ProduceRecord, ProduceResult}
use logship.Node.{Node, note_self_leo, note_replica, recompute_hw}
use logship.Node.Produce.{
  hw_at-put, acknowledge, waited, appended, append_open, lead, set_log, ProduceIo, Answer, done,
  hw_at, produce_at,
}
use logship.Node.Produce.Alone.{
  IsAlone, IsAlone-same, recompute_hw-alone, solo_found-alone, raised, raised-hw, raised-leo,
  raised-LogHolds,
}

-- What a produced record leaves behind: the result, and the log that now holds it, all committed.
pub record Committed (n : Node) (topic : Bytes) (partition : ℤ) (pm : PartitionMeta) (base : ℕ)
    (rs : List Record) (end : ℕ) (out : Answer ProduceResult × Node) : Type 0 where
  pub result : out.0 ≡ done record { partition = partition; offset = end }
  pub alone : IsAlone topic partition pm out.1
  pub same_id : out.1.id ≡ n.id
  pub same_topics : out.1.topics ≡ n.topics
  pub same_counter : out.1.counter ≡ n.counter
  pub same_cluster : out.1.cluster ≡ n.cluster
  pub same_advertise : out.1.advertise ≡ n.advertise
  pub log : Log
  pub found : get topic partition out.1.store ≡ some log
  pub parts : List (List Record)
  pub last : List Record
  pub held : LogHolds base log parts last
  pub grown : records parts last ≡ rs
  pub committed : log.hw ≡ end + 1

module _ (io : ProduceIo) (topic : Bytes) (partition : ℤ) (pm : PartitionMeta) (n : Node)
    (alone : IsAlone topic partition pm n) (l : Log) (found : get topic partition n.store ≡ some l)
    (off : ℕ) (end : leo l ≡ off + 1) (bound : l.hw ≤ leo l) where
  abbrev settled : Node
  settled = record n { store = put (key topic partition) (raised l) n.store }

  abbrev settled_again : Node
  settled_again = record settled {
    store = put (key topic partition) (raised (raised l)) settled.store;
  }

  abbrev res : ProduceResult
  res = record { partition = partition; offset = off }

  acknowledge-all :
      acknowledge io true topic res (recompute_hw io.opened io.now topic partition n)
      ≡ (done res, settled)
  unfolding acknowledge waited
  acknowledge-all =
      ap (acknowledge io true topic res)
        (recompute_hw-alone topic partition pm n alone io.opened io.now l found)
      ∙ ap (waited res) (
          wait_high_watermark-now (hw_at topic partition) off n.produce_timeout io.now io.rounds
            settled (omega (arith, hw_at-put topic partition (raised l) n, raised-hw l bound)))

  acknowledge-one :
      acknowledge io false topic res (recompute_hw io.opened io.now topic partition n)
      ≡ (done res, settled_again)
  unfolding acknowledge
  acknowledge-one =
      ap (acknowledge io false topic res)
        (recompute_hw-alone topic partition pm n alone io.opened io.now l found)
      ∙ ap (λ m. (done res, m))
          (solo_found-alone topic partition pm settled
            (IsAlone-same topic partition pm n alone settled refl refl) (raised l)
            (get-put_same topic partition (raised l) n.store))

  acknowledge-Committed :
      (all : Bool) (base : ℕ) (parts : List (List Record)) (last : List Record)
      → LogHolds base l parts last
      → Committed n topic partition pm base
          (records parts last)
          off
          (acknowledge io all topic res (recompute_hw io.opened io.now topic partition n))
  acknowledge-Committed true base parts last h =
      subst (Committed n topic partition pm base (records parts last) off) (sym acknowledge-all)
        (record {
          result = refl;
          alone = IsAlone-same topic partition pm n alone settled refl refl;
          same_id = refl;
          same_topics = refl;
          same_counter = refl;
          same_cluster = refl;
          same_advertise = refl;
          log = raised l;
          found = get-put_same topic partition (raised l) n.store;
          parts = parts;
          last = last;
          held = raised-LogHolds h;
          grown = refl;
          committed = raised-hw l bound ∙ end;
        })
  acknowledge-Committed false base parts last h =
      subst (Committed n topic partition pm base (records parts last) off) (sym acknowledge-one)
        (record {
          result = refl;
          alone = IsAlone-same topic partition pm n alone settled_again refl refl;
          same_id = refl;
          same_topics = refl;
          same_counter = refl;
          same_cluster = refl;
          same_advertise = refl;
          log = raised (raised l);
          found = get-put_same topic partition (raised (raised l)) settled.store;
          parts = parts;
          last = last;
          held = raised-LogHolds (raised-LogHolds h);
          grown = refl;
          committed = omega (arith, raised-hw (raised l), raised-leo l, raised-hw l bound, end);
        })

-- The call of the log's `append`, and what comes behind.
appended-ok :
    (io : ProduceIo) (all : Bool) (topic : Bytes) (partition : ℤ) (out : Result ℕ × Log) (n : Node)
    (off : ℕ)
    → out.0 ≡ ok off
    → appended io all topic partition out n
      ≡ acknowledge io all topic
          (record { partition = partition; offset = off })
          (recompute_hw io.opened io.now topic partition (
            note_self_leo io.now topic partition
              (leo out.1)
              (set_log (key topic partition) out.1 n)))
unfolding appended
appended-ok io all topic partition out n off e = rw e refl

-- On a partition of which this broker has the only replica and an open log that holds its records, with
-- a working file system, a segment limit below 4 GiB and a watermark that is not past the end of the
-- log, a record that fits the format is produced with either kind of acknowledgement:
-- the result is the end offset that the log had, and afterwards the log ends with the record, and
-- all of it is committed.
pub produce_at-Committed :
    (opened : Bytes → Result Log) (now : ℕ) (rounds : List (Round Node)) (all : Bool)
    (topic : Bytes) (partition : ℤ) (rec : ProduceRecord) (pm : PartitionMeta) (n : Node) (l : Log)
    (base : ℕ) (parts : List (List Record)) (last : List Record)
    → IsAlone topic partition pm n
    → get topic partition n.store ≡ some l
    → LogHolds base l parts last
    → l.hw ≤ leo l
    → IsWire (record { offset = leo l; timestamp = now; key = rec.key; value = rec.value })
    → l.cfg.max_segment_bytes < 2 ^ 32
    → Committed n topic partition pm base
        (records parts last
          ++ record { offset = leo l; timestamp = now; key = rec.key; value = rec.value } ∷ [])
        (leo l)
        (produce_at
          (record { now = now; opened = opened; append = healthy now; rounds = rounds })
          all
          topic
          partition
          rec
          n)
unfolding produce_at lead append_open set_log note_self_leo note_replica
produce_at-Committed opened now rounds all topic partition rec pm n l base parts last alone found h
      bound wire small =
    let stored : Record = record {
      offset = leo l;
      timestamp = now;
      key = rec.key;
      value = rec.value;
    } in
    let io : ProduceIo = record {
      now = now;
      opened = opened;
      append = healthy now;
      rounds = rounds;
    } in
    let a = append-Appended now base rec.key rec.value l parts last h wire small in
    let out = Log.append (healthy now) rec.key rec.value l in
    let noted =
      note_self_leo now topic partition (leo out.1) (set_log (key topic partition) out.1 n) in
    let result : out.0 ≡ ok (leo l) = a.offset ∙ ap ok (sym (leo-LogHolds h)) in
    let longer : leo out.1 ≡ leo l + 1 = omega (
      arith,
      leo-LogHolds a.held,
      leo-LogHolds h,
      ap length a.grown,
      length-append (records parts last) (stored ∷ []),
    ) in
    let c =
      acknowledge-Committed io topic partition pm noted
        (IsAlone-same topic partition pm n alone noted refl refl) out.1
        (get-put_same topic partition out.1 n.store) (leo l) longer (omega (arith, a.same_hw)) all
        base a.parts a.last a.held in
    rw
      (
        alone.known,
        eq→==-true pm.leader n.id alone.leads,
        open_partition-get (opened (key topic partition)) topic partition l n.store found,
        appended-ok io all topic partition out n (leo l) result,
        sym a.grown,
      )
      record {
        result = c.result;
        alone = c.alone;
        same_id = c.same_id;
        same_topics = c.same_topics;
        same_counter = c.same_counter;
        same_cluster = c.same_cluster;
        same_advertise = c.same_advertise;
        log = c.log;
        found = c.found;
        parts = c.parts;
        last = c.last;
        held = c.held;
        grown = c.grown;
        committed = c.committed;
      }
