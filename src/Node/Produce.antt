-- ===== src/Node/Produce.antt =====
-- `produceLocal` of internal/broker/handlers.go.
pub mod Alone
pub mod Solo
pub mod Fetched
pub mod Acks
pub mod Partial
mod Tests
use logship.Prelude.{
  ℕ, zero, suc, ◌+◌, ◌<◌, ◌≡◌, refl, Bool, true, false, ◌&&◌, ◌||◌, not, Option, none, some, List,
  [], ◌∷◌, ◌++◌, ◌==◌, if◌then◌else◌, Bytes, lookup, str_eq, length,
}
use logship.Prelude.Int.{ℤ, pos, negsuc}
use logship.Segment.{Result, ok, err, panic, stuck}
use logship.Log
use logship.Log.{Log, LogIo, leo, high_watermark}
use logship.Log.Wait.{Round, Outcome, visible, timed_out, blocked, wait_high_watermark}
use logship.Broker.{PartitionMeta}
use logship.Broker.Produce.{choose_partition}
use logship.Store.{Store, key, put, get, open_partition}
use logship.Store.Keys.{get-put_same}
use logship.Protocol.{ProduceRecord, ProduceRequest, ProduceResult}
use logship.Node.{Node, meta_of, note_self_leo, recompute_hw, maybe_solo_hw}

-- What happens outside while one record is produced: the clock, what opening a log gives, the append,
-- and the rounds of a wait.
pub record ProduceIo : Type 0 where
  pub now : ℕ
  pub opened : Bytes → Result Log
  pub append : LogIo
  pub rounds : List (Round Node)

-- `log_failed` holds what the log gave; `waiting` is a request that has not been woken again.
pub data ProduceError : Type 0 where
  unknown_topic : ProduceError
  not_leader : ℕ → ProduceError
  log_failed : Result ℕ → ProduceError
  timeout : ProduceError
  waiting : ProduceError

log_hw : Option Log → ℕ
log_hw none = 0
log_hw (some l) = high_watermark l

-- The watermark of a partition's log.
unfoldable pub hw_at : Bytes → ℤ → Node → ℕ
unfolding log_hw
hw_at topic partition n = log_hw (get topic partition n.store)

-- The watermark of the log that is stored.
pub hw_at-get :
    (topic : Bytes) (partition : ℤ) (l : Log) (n : Node)
    → get topic partition n.store ≡ some l
    → hw_at topic partition n ≡ l.hw
unfolding hw_at log_hw
hw_at-get topic partition l n e = rw e refl

pub hw_at-put :
    (topic : Bytes) (partition : ℤ) (l : Log) (n : Node)
    → hw_at topic partition (record n { store = put (key topic partition) l n.store }) ≡ l.hw
hw_at-put topic partition l n =
    hw_at-get topic partition l (record n { store = put (key topic partition) l n.store })
      (get-put_same topic partition l n.store)

pub data Answer {ℓ} (A : Type ℓ) : Type ℓ where
  done : A → Answer A
  failed : ProduceError → Answer A

-- The log that the pointer of the caller points to, changed.
unfoldable pub set_log : Bytes → Log → Node → Node
set_log k l n = record n { store = put k l n.store }

waited : ProduceResult → Outcome × Node → Answer ProduceResult × Node
waited res (visible, n) = (done res, n)
waited res (timed_out, n) = (failed timeout, n)
waited res (blocked, n) = (failed waiting, n)

unfoldable pub solo_found : Bytes → ℤ → Option Log → Node → Node
solo_found topic partition none n = n
solo_found topic partition (some l) n =
    set_log (key topic partition) (maybe_solo_hw topic partition n l) n

-- With `all`, until the watermark is behind the record; otherwise a leader that is alone commits it.
acknowledge : ProduceIo → Bool → Bytes → ProduceResult → Node → Answer ProduceResult × Node
acknowledge io all topic res n =
    if all
    then waited res (
        wait_high_watermark (hw_at topic res.partition) res.offset n.produce_timeout io.now
          io.rounds n)
    else (done res, solo_found topic res.partition (get topic res.partition n.store) n)

appended : ProduceIo → Bool → Bytes → ℤ → Result ℕ × Log → Node → Answer ProduceResult × Node
appended io all topic partition (ok off, l) n =
    let noted = note_self_leo io.now topic partition (leo l) (set_log (key topic partition) l n) in
    acknowledge io all topic (record { partition = partition; offset = off })
      (recompute_hw io.opened io.now topic partition noted)
appended io all topic partition (bad, l) n =
    (failed (log_failed bad), set_log (key topic partition) l n)

store_failed : Result Log → Result ℕ
store_failed (ok l) = ok 0
store_failed (err e) = err e
store_failed panic = panic
store_failed stuck = stuck

append_open :
    ProduceIo
    → Bool
    → Bytes
    → ℤ
    → ProduceRecord
    → Result Log × Store
    → Node
    → Answer ProduceResult × Node
append_open io all topic partition rec (ok l, s) n =
    appended io all topic partition (Log.append io.append rec.key rec.value l)
      (record n { store = s })
append_open io all topic partition rec (bad, s) n =
    (failed (log_failed (store_failed bad)), record n { store = s })

lead :
    ProduceIo
    → Bool
    → Bytes
    → ℤ
    → ProduceRecord
    → Option PartitionMeta
    → Node
    → Answer ProduceResult × Node
lead io all topic partition rec none n = (failed unknown_topic, n)
lead io all topic partition rec (some pm) n =
    if not (pm.leader == n.id)
    then (failed (not_leader pm.leader), n)
    else append_open io all topic partition rec
        (open_partition (io.opened (key topic partition)) topic partition n.store) n

-- One record at a partition that is chosen.
unfoldable pub produce_at :
    ProduceIo → Bool → Bytes → ℤ → ProduceRecord → Node → Answer ProduceResult × Node
unfolding lead append_open appended acknowledge waited solo_found set_log store_failed
produce_at io all topic partition rec n =
    lead io all topic partition rec (meta_of topic partition n) n

-- One record of a request, in a topic of `parts` partitions.
unfoldable pub produce_record :
    ProduceIo → Bool → ProduceRequest → ℕ → ProduceRecord → Node → Answer ProduceResult × Node
produce_record io all req parts rec n =
    let chosen =
      choose_partition rec.key (str_eq req.key rec.key) rec.partition req.partition parts
        n.counter in
    produce_at io all req.topic chosen.0 rec (record n { counter = chosen.1 })

next_record :
    List ProduceResult
    → Answer ProduceResult × Node
    → (List ProduceResult → Node → (List ProduceResult × Option ProduceError) × Node)
    → (List ProduceResult × Option ProduceError) × Node
next_record out (done res, n) rest = rest (out ++ res ∷ []) n
next_record out (failed e, n) rest = ((out, some e), n)

-- The loop over the records, of which the next one is number `i`.
produce_loop :
    (ℕ → ProduceIo)
    → Bool
    → ProduceRequest
    → ℕ
    → ℕ
    → List ProduceRecord
    → List ProduceResult
    → Node
    → (List ProduceResult × Option ProduceError) × Node
produce_loop io all req parts i [] out n = ((out, none), n)
produce_loop io all req parts i (rec ∷ recs) out n =
    next_record out (produce_record (io i) all req parts rec n)
      (produce_loop io all req parts (suc i) recs)

-- No records are one, of the request's own key and value.
unfoldable pub or_single : ProduceRequest → List ProduceRecord → List ProduceRecord
or_single req [] = record { key = req.key; value = req.value; partition = req.partition } ∷ []
or_single req (r ∷ rs) = r ∷ rs

-- "all" or "-1"; none given is "1".
unfoldable pub wants_all : Bytes → Bool
wants_all acks = str_eq acks (97 ∷ 108 ∷ 108 ∷ []) || str_eq acks (45 ∷ 49 ∷ [])

produce_topic :
    (ℕ → ProduceIo)
    → ProduceRequest
    → Option (List PartitionMeta)
    → Node
    → (List ProduceResult × Option ProduceError) × Node
produce_topic io req none n = (([], some unknown_topic), n)
produce_topic io req (some ps) n =
    produce_loop io (wants_all req.acks) req (length ps) 0 (or_single req req.records) [] n

-- The results so far, with the error that ended them.
unfoldable pub produce_local :
    (ℕ → ProduceIo) → ProduceRequest → Node → (List ProduceResult × Option ProduceError) × Node
unfolding produce_topic produce_loop next_record or_single
produce_local io req n = produce_topic io req (lookup req.topic n.topics) n
