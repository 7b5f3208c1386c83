-- ===== src/Commands/Consume.antt =====
-- `consumeCmd` of cmd/logship-cli/main.go, behind its flags. The answers of the cluster are arguments, `none` for an
-- error; the waits are left out.
pub mod Lines
pub mod Order
pub mod Resume
pub mod Printed
pub mod Drains
pub mod AtLeastOnce
mod Tests
use logship.Prelude.{
  ℕ, zero, suc, ◌+◌, Bool, true, false, not, ◌&&◌, ◌||◌, Option, none, some, List, [], ◌∷◌, ◌++◌,
  Bytes, length, ◌==◌, ltb, lookup, str_eq, if◌then◌else◌,
}
use logship.Prelude.Int.{ℤ, pos, ltb_ℤ, leb_ℤ, eq_ℤ}
use logship.Protocol.{
  WireRecord, FetchResponse, PartitionInfo, TopicInfo, Metadata, JoinResponse, SyncResponse,
  HeartbeatResponse, OffsetCommit, OffsetFetchResponse,
}

pub record Options : Type 0 where
  pub topic : Bytes
  pub from_beginning : Bool
  pub max : ℤ

-- A line of the output.
pub record Line : Type 0 where
  pub partition : ℤ
  pub printed : WireRecord

-- A Go map from partitions.
abbrev pub Positions : Type 0
Positions = ℤ → Option ℤ

-- `commits` are the offsets of the requests that were sent, whatever came of them; each request has
-- one, with the member and the generation, which are left out.
pub record Consumer : Type 0 where
  pub lines : List Line
  pub printed : ℕ
  pub offsets : Positions
  pub commits : List OffsetCommit

unfoldable pub set_position : ℤ → ℤ → Positions → Positions
set_position p offset m q = if eq_ℤ q p then some offset else m q

or_zero : Option ℤ → ℤ
or_zero none = pos 0
or_zero (some o) = o

-- A missing key of the map is 0.
unfoldable pub position : ℤ → Consumer → ℤ
unfolding or_zero
position p s = or_zero (s.offsets p)

unfoldable pub commit_position : Options → ℤ → Consumer → Consumer
commit_position opts p s = record s {
  commits = s.commits ++ record { topic = opts.topic; partition = p; offset = position p s } ∷ [];
}

unfoldable pub print_record : ℤ → WireRecord → Consumer → Consumer
print_record p r s = record s {
  lines = s.lines ++ record { partition = p; printed = r } ∷ [];
  printed = s.printed + 1;
  offsets = set_position p (pos (r.offset + 1)) s.offsets;
}

-- Whether the command ends, `max` records being printed, and the state.
unfoldable pub print_records : Options → ℤ → List WireRecord → Consumer → Bool × Consumer
print_records opts p [] s = (false, s)
print_records opts p (r ∷ rs) s =
    let s' = print_record p r s in
    let rest = print_records opts p rs s' in
    if ltb_ℤ (pos 0) opts.max && leb_ℤ opts.max (pos s'.printed)
    then (true, commit_position opts p s')
    else rest

-- How a part of the loop ends: whether the command is over, and whether anything was printed.
pub record Progress : Type 0 where
  pub over : Bool
  pub progress : Bool
  pub state : Consumer

committed : Options → ℤ → Bool × Consumer → Progress
committed opts p (true, s) = record { over = true; progress = true; state = s }
committed opts p (false, s) = record {
  over = false;
  progress = true;
  state = commit_position opts p s;
}

answered : Options → ℤ → Option FetchResponse → Consumer → Progress
answered opts p none s = record { over = false; progress = false; state = s }
answered opts p (some fr) s =
    if length fr.records == 0
    then record { over = false; progress = false; state = s }
    else committed opts p (print_records opts p fr.records s)

-- One partition; `fetch` is what a partition and an offset give.
unfoldable pub consume_partition :
    Options → (ℤ → ℤ → Option FetchResponse) → ℤ → Consumer → Progress
unfolding committed answered
consume_partition opts fetch p s = answered opts p (fetch p (position p s)) s

and_then : Progress → (Consumer → Progress) → Progress
and_then g rest =
    let later = rest g.state in
    if g.over
    then g
    else record { over = later.over; progress = g.progress || later.progress; state = later.state }

unfoldable pub consume_partitions :
    Options → (ℤ → ℤ → Option FetchResponse) → List ℤ → Consumer → Progress
unfolding and_then
consume_partitions opts fetch [] s = record { over = false; progress = false; state = s }
consume_partitions opts fetch (p ∷ ps) s =
    and_then (consume_partition opts fetch p s) (consume_partitions opts fetch ps)

-- What happens in one round of the inner loop.
pub record Round : Type 0 where
  pub heartbeat : Option HeartbeatResponse
  pub fetch : ℤ → ℤ → Option FetchResponse

unfoldable pub refuses : Option HeartbeatResponse → Bool
refuses none = true
refuses (some hb) = not (length hb.error == 0)

-- `finished` and `failed` end the command; `waiting` is where what happens outside ends.
pub data Outcome : Type 0 where
  finished failed rejoins waiting : Outcome

-- The inner loop; `idle` counts the rounds in which nothing came.
unfoldable pub consume_rounds : Options → List ℤ → List Round → ℕ → Consumer → Outcome × Consumer
unfolding refuses
consume_rounds opts parts [] idle s = (waiting, s)
consume_rounds opts parts (r ∷ rs) idle s =
    let g = consume_partitions opts r.fetch parts s in
    let busy = consume_rounds opts parts rs idle g.state in
    let quiet = consume_rounds opts parts rs (idle + 1) g.state in
    if refuses r.heartbeat
    then (rejoins, s)
    else if g.over
    then (finished, g.state)
    else if g.progress
    then busy
    else if ltb_ℤ (pos 0) opts.max && ltb 25 (idle + 1)
    then (finished, g.state)
    else quiet

unfoldable pub stored_positions : List OffsetCommit → Positions → Positions
stored_positions [] m = m
stored_positions (o ∷ os) m = stored_positions os (set_position o.partition o.offset m)

unfoldable pub fetched_positions : Option OffsetFetchResponse → Positions
fetched_positions none = λ p. none
fetched_positions (some of) = stored_positions of.offsets (λ p. none)

-- The last watermark that the metadata has for the partition, or what was there before.
latest_of : ℤ → List PartitionInfo → ℤ → ℤ
latest_of p [] at = at
latest_of p (i ∷ is) at = latest_of p is (if eq_ℤ (pos i.id) p then pos i.hw else at)

latest_in : Bytes → ℤ → List TopicInfo → ℤ → ℤ
latest_in topic p [] at = at
latest_in topic p (t ∷ ts) at =
    latest_in topic p ts (if str_eq t.name topic then latest_of p t.partitions at else at)

latest : Bytes → ℤ → Option Metadata → ℤ
latest topic p none = pos 0
latest topic p (some md) = latest_in topic p md.topics (pos 0)

start_missing : Options → (ℤ → Option Metadata) → ℤ → Option ℤ → Positions → Positions
start_missing opts metadata p (some o) m = m
start_missing opts metadata p none m =
    set_position p (if opts.from_beginning then pos 0 else latest opts.topic p (metadata p)) m

start_positions : Options → (ℤ → Option Metadata) → List ℤ → Positions → Positions
start_positions opts metadata [] m = m
start_positions opts metadata (p ∷ ps) m =
    start_positions opts metadata ps (start_missing opts metadata p (m p) m)

-- Where each partition starts in a session; `metadata` is asked for each one without a committed offset.
unfoldable pub initial_positions :
    Options → (ℤ → Option Metadata) → List ℤ → Option OffsetFetchResponse → Positions
unfolding stored_positions fetched_positions latest_of latest_in latest start_missing
    start_positions
initial_positions opts metadata parts fetched =
    start_positions opts metadata parts (fetched_positions fetched)

-- One turn of the outer loop, with the answers to Join, Sync, FetchOffsets and Metadata.
pub record Session : Type 0 where
  pub join : Option JoinResponse
  pub sync : Option SyncResponse
  pub fetched : Option OffsetFetchResponse
  pub metadata : ℤ → Option Metadata
  pub rounds : List Round

unfoldable pub assigned : Bytes → List (Bytes × List ℤ) → List ℤ
assigned topic assignment = or_nothing (lookup topic assignment)
  where
    or_nothing : Option (List ℤ) → List ℤ
    or_nothing none = []
    or_nothing (some ps) = ps

synced : Options → Session → SyncResponse → Consumer → Outcome × Consumer
synced opts x sr s =
    let parts = assigned opts.topic sr.assignment in
    consume_rounds opts parts x.rounds 0
      (record s { offsets = initial_positions opts x.metadata parts x.fetched })

-- A failed Sync leads to another turn, a failed Join ends the command.
session_of :
    Options → Session → Option JoinResponse → Option SyncResponse → Consumer → Outcome × Consumer
session_of opts x none sync s = (failed, s)
session_of opts x (some jr) none s = (rejoins, s)
session_of opts x (some jr) (some sr) s = synced opts x sr s

unfoldable pub consume_session : Options → Session → Consumer → Outcome × Consumer
unfolding session_of synced assigned
consume_session opts x s = session_of opts x x.join x.sync s

next_session : Outcome × Consumer → (Consumer → Outcome × Consumer) → Outcome × Consumer
next_session (rejoins, s) rest = rest s
next_session (finished, s) rest = (finished, s)
next_session (failed, s) rest = (failed, s)
next_session (waiting, s) rest = (waiting, s)

unfoldable pub consume : Options → List Session → Consumer → Outcome × Consumer
unfolding next_session
consume opts [] s = (waiting, s)
consume opts (x ∷ xs) s = next_session (consume_session opts x s) (consume opts xs)

-- The state that the command begins with.
abbrev pub idle_consumer : Consumer
idle_consumer = record { lines = []; printed = 0; offsets = λ p. none; commits = [] }
