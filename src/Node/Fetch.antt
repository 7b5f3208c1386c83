-- ===== src/Node/Fetch.antt =====
-- `serveFetch` of internal/broker/handlers.go.
pub mod Served
use logship.Prelude.{
  ℕ, Bool, true, false, Option, none, some, List, [], ◌∷◌, ◌==◌, not, if◌then◌else◌, Bytes, All,
  ◌<◌, ◌≡◌, refl, eq→==-true,
}
use logship.Prelude.Int.{ℤ, pos, leb_ℤ}
use logship.Record.{Record}
use logship.Segment.{Result, ok, err, panic, stuck}
use logship.Log.{Log, leo, high_watermark, read}
use logship.Log.Visible.{IsBelow, read-Below}
use logship.Broker.{PartitionMeta}
use logship.Cluster.{addr}
use logship.Store.{Store, key, get, open_partition}
use logship.Store.Keys.{open_partition-get}
use logship.Protocol.{WireRecord, FetchResponse}
use logship.Node.{Node, meta_of}

unfoldable pub to_wire : List Record → List WireRecord
to_wire [] = []
to_wire (r ∷ rs) =
    record { offset = r.offset; timestamp = r.timestamp; key = r.key; value = r.value } ∷ to_wire rs

-- What a fetch comes to: a response, or the status with what it says.
pub data Fetched : Type 0 where
  served : FetchResponse → Fetched
  unknown : Fetched
  not_leader : ℕ → Bytes → Fetched
  log_failed : Fetched

answer : Bytes → ℤ → Log → Result (List Record) → Fetched
answer topic partition l (ok rs) = served record {
  topic = topic;
  partition = partition;
  high_watermark = high_watermark l;
  log_end_offset = leo l;
  records = to_wire rs;
}
answer topic partition l bad = log_failed

-- A replica reads to the end of the log, a consumer to the high watermark.
unfoldable pub max_offset : Bool → Log → ℕ
max_offset replica l = if replica then leo l else high_watermark l

-- 0 and less is 1 MiB.
unfoldable pub fetch_bytes : ℤ → ℤ
fetch_bytes max_bytes = if leb_ℤ max_bytes (pos 0) then pos 1048576 else max_bytes

-- From the log on.
unfoldable pub fetch_log : Bool → Bytes → ℤ → ℤ → ℤ → Log → Fetched
unfolding answer
fetch_log replica topic partition offset max_bytes l =
    answer topic partition l (read l offset (fetch_bytes max_bytes) (pos (max_offset replica l)))

fetch_open : Bool → Bytes → ℤ → ℤ → ℤ → Result Log × Store → Node → Fetched × Node
fetch_open replica topic partition offset max_bytes (ok l, s) n =
    (fetch_log replica topic partition offset max_bytes l, record n { store = s })
fetch_open replica topic partition offset max_bytes (bad, s) n =
    (log_failed, record n { store = s })

-- `proxied` is what a leader that was asked in turn has answered, if it did.
elsewhere : Bool → Bytes → Option FetchResponse → ℕ → Fetched
elsewhere replica [] proxied leader = not_leader leader []
elsewhere true (c ∷ cs) proxied leader = not_leader leader (c ∷ cs)
elsewhere false (c ∷ cs) (some fr) leader = served fr
elsewhere false (c ∷ cs) none leader = not_leader leader (c ∷ cs)

fetch_known :
    (Bytes → Result Log)
    → (Bytes → Option FetchResponse)
    → Bool
    → Bytes
    → ℤ
    → ℤ
    → ℤ
    → Option PartitionMeta
    → Node
    → Fetched × Node
fetch_known opened ask replica topic partition offset max_bytes none n = (unknown, n)
fetch_known opened ask replica topic partition offset max_bytes (some pm) n =
    let at = addr pm.leader n.cluster in
    if not (pm.leader == n.id)
    then (elsewhere replica at (ask at) pm.leader, n)
    else fetch_open replica topic partition offset max_bytes
        (open_partition (opened (key topic partition)) topic partition n.store) n

-- `ask` is the client's call of another broker with this request.
unfoldable pub serve_fetch :
    (Bytes → Result Log)
    → (Bytes → Option FetchResponse)
    → Bool
    → Bytes
    → ℤ
    → ℤ
    → ℤ
    → Node
    → Fetched × Node
unfolding fetch_known fetch_open elsewhere
serve_fetch opened ask replica topic partition offset max_bytes n =
    fetch_known opened ask replica topic partition offset max_bytes (meta_of topic partition n) n

-- A fetch of a partition that this broker leads comes to the log that the store has.
pub serve_fetch-led :
    (opened : Bytes → Result Log) (ask : Bytes → Option FetchResponse) (replica : Bool)
    (topic : Bytes) (partition offset max_bytes : ℤ) (pm : PartitionMeta) (l : Log) (n : Node)
    → meta_of topic partition n ≡ some pm
    → pm.leader ≡ n.id
    → get topic partition n.store ≡ some l
    → (serve_fetch opened ask replica topic partition offset max_bytes n).0
      ≡ fetch_log replica topic partition offset max_bytes l
unfolding serve_fetch fetch_known fetch_open
serve_fetch-led opened ask replica topic partition offset max_bytes pm l n known leads found = rw (
  known,
  eq→==-true pm.leader n.id leads,
  open_partition-get (opened (key topic partition)) topic partition l n.store found,
)

pub fetch_log-served :
    (replica : Bool) (topic : Bytes) (partition offset max_bytes : ℤ) (l : Log) (rs : List Record)
    → read l offset (fetch_bytes max_bytes) (pos (max_offset replica l)) ≡ ok rs
    → fetch_log replica topic partition offset max_bytes l
      ≡ served record {
        topic = topic;
        partition = partition;
        high_watermark = high_watermark l;
        log_end_offset = leo l;
        records = to_wire rs;
      }
unfolding fetch_log answer
fetch_log-served replica topic partition offset max_bytes l rs e = rw e refl

to_wire-All :
    (max : ℕ) (rs : List Record) → All (IsBelow max) rs → All (λ w. w.offset < max) (to_wire rs)
unfolding to_wire
to_wire-All max [] h = tt
to_wire-All max (r ∷ rs) (h, hs) = (h, to_wire-All max rs hs)

-- A response has only records below the watermark that it names.
abbrev pub IsCommitted : Fetched → Type 0
IsCommitted (served fr) = All (λ w. w.offset < fr.high_watermark) fr.records
IsCommitted _ = Unit

answer-IsCommitted :
    (topic : Bytes) (partition : ℤ) (l : Log) (got : Result (List Record))
    → ((rs : List Record) → got ≡ ok rs → All (IsBelow (high_watermark l)) rs)
    → IsCommitted (answer topic partition l got)
unfolding answer
answer-IsCommitted topic partition l (ok rs) low = to_wire-All (high_watermark l) rs (low rs refl)
answer-IsCommitted topic partition l (err e) low = tt
answer-IsCommitted topic partition l panic low = tt
answer-IsCommitted topic partition l stuck low = tt

fetch_open-IsCommitted :
    (topic : Bytes) (partition offset max_bytes : ℤ) (opened : Result Log × Store) (n : Node)
    → IsCommitted (fetch_open false topic partition offset max_bytes opened n).0
unfolding fetch_open fetch_log max_offset
fetch_open-IsCommitted topic partition offset max_bytes (ok l, s) n =
    answer-IsCommitted topic partition l _ (read-Below l offset (fetch_bytes max_bytes) l.hw)
fetch_open-IsCommitted topic partition offset max_bytes (err e, s) n = tt
fetch_open-IsCommitted topic partition offset max_bytes (panic, s) n = tt
fetch_open-IsCommitted topic partition offset max_bytes (stuck, s) n = tt

-- Whatever a consumer asks for and whatever the logs hold, a broker that leads the partition answers
-- with no record at or above the high watermark that it names in the response.
pub serve_fetch-IsCommitted :
    (opened : Bytes → Result Log) (ask : Bytes → Option FetchResponse) (topic : Bytes)
    (partition offset max_bytes : ℤ) (pm : PartitionMeta) (n : Node)
    → meta_of topic partition n ≡ some pm
    → pm.leader ≡ n.id
    → IsCommitted (serve_fetch opened ask false topic partition offset max_bytes n).0
unfolding serve_fetch fetch_known
serve_fetch-IsCommitted opened ask topic partition offset max_bytes pm n known leads =
    rw (known, eq→==-true pm.leader n.id leads)
      (fetch_open-IsCommitted topic partition offset max_bytes _ n)
