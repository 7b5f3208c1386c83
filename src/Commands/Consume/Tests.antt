-- ===== src/Commands/Consume/Tests.antt =====
-- A consumer that has committed offset 1 of a log of two records.
use logship.Prelude.{
  ℕ, zero, suc, ◌+◌, ◌≡◌, ◌≤◌, ◌^◌, ◌⊎◌, true, All, refl, sym, false, some, none, List, [], ◌∷◌,
  Option, OneOf, inl, inr, lookup, str_eq, arith,
}
use logship.Prelude.Int.{ℤ, pos, negsuc}
use logship.Record.{encoded_size}
use logship.Segment.Contents.{size_of}
use logship.Log.Sample.{two, log_of, two-LogHolds}
use logship.Protocol.{WireRecord, FetchResponse, JoinResponse, SyncResponse}
use logship.Protocol.Json.{IsText, is_text, valid_behind, over_json, coerced, rune_size}
use logship.Node.Fetch.{to_wire, fetch_log}
use logship.Node.Replicate.{response}
use logship.Node.Sample.{topic}
use logship.Commands.Consume.{
  Options, Consumer, Session, set_position, stored_positions, fetched_positions, initial_positions,
  position, commit_position, print_record, print_records, consume_partition, consume_partitions,
  consume_rounds, consume_session, consume, assigned, refuses, idle_consumer,
}
use logship.Commands.Consume.Order.{Shown}
use logship.Commands.Consume.AtLeastOnce.{Covers, Resumes, LedOrFails, consume-Covers}
use logship.Commands.Consume.Resume.{Led, fetched_window}
use logship.Commands.Consume.Drains.{promised, consume_session-Led}

abbrev options : Options
options = record { topic = topic; from_beginning = false; max = pos 0 }

abbrev fetch : ℤ → ℤ → Option FetchResponse
fetch p o = response (fetch_log false topic p o (pos 1048576) (log_of 2 two))

abbrev joined : JoinResponse
joined = record { member_id = []; generation = pos 1; leader_id = []; members = []; state = [] }

abbrev synced : SyncResponse
synced = record { generation = pos 1; assignment = (topic, pos 0 ∷ []) ∷ []; state = [] }

abbrev session : Session
session = record {
  join = some joined;
  sync = some synced;
  fetched =
      some record { offsets = record { topic = topic; partition = pos 0; offset = pos 1 } ∷ [] };
  metadata = λ p. none;
  rounds =
      record { heartbeat = some record { error = []; state = [] }; fetch = fetch }
      ∷ record { heartbeat = none; fetch = fetch }
      ∷ [];
}

stored : fetched_positions session.fetched (pos 0) ≡ some (pos 1)
unfolding fetched_positions stored_positions set_position
stored = refl

two_small : size_of two ≤ 2 ^ 20
unfolding size_of encoded_size
two_small = omega arith

no_text : is_text [] ≡ true
unfolding is_text valid_behind
no_text = refl

two-IsText : All IsText two
two-IsText = ((no_text, no_text), ((no_text, no_text), tt))

abbrev led : Led topic (pos 0) two fetch
led = record {
  log = log_of 2 two;
  parts = [];
  last = two;
  later = [];
  held = two-LogHolds 2;
  split = refl;
  small = two_small;
  text = two-IsText;
  end = omega arith;
  answers = λ o. refl;
}

assigned_zero : OneOf (assigned topic synced.assignment) (pos 0)
unfolding assigned lookup str_eq
assigned_zero = inl refl

consume_session-Led_example :
    (h : Shown
      (pos 0)
      (to_wire two)
      1
      idle_consumer
      (consume_session options session idle_consumer).1)
    × (promised topic (pos 0) two options session.rounds (led, (led, tt)) ≤ 1 + h.k)
consume_session-Led_example =
    consume_session-Led options (pos 0) two 1 session joined synced idle_consumer (led, (led, tt))
      refl refl stored assigned_zero (refl, (refl, tt)) (omega arith)

-- What it comes to there: the second round has a failed heartbeat, and the first a watermark of 2.
promised-two : promised topic (pos 0) two options session.rounds (led, (led, tt)) ≡ 2
unfolding refuses
promised-two = refl

-- A cluster that has these records of the partition, and answers from the start only.
abbrev wires : List WireRecord
wires = to_wire two

abbrev whole : FetchResponse
whole = record {
  topic = topic;
  partition = pos 0;
  high_watermark = 2;
  log_end_offset = 2;
  records = wires;
}

abbrev from_start : ℤ → ℤ → Option FetchResponse
from_start p (pos zero) = some whole
from_start p (pos (suc o)) = none
from_start p (negsuc o) = none

from_start-comes :
    (o : ℕ)
    → (from_start (pos 0) (pos o) ≡ none) ⊎ (from_start (pos 0) (pos o) ≡ fetch (pos 0) (pos o))
unfolding over_json coerced rune_size to_wire
from_start-comes zero = inr (
    sym
      (fetched_window topic (pos 0) (log_of 2 two) [] two 0 (two-LogHolds 2) two_small two-IsText))
from_start-comes (suc o) = inl refl

from_start-Led : LedOrFails topic (pos 0) two from_start
from_start-Led = record { answers = fetch; led = led; comes = from_start-comes }

-- A session that starts at an offset, and ends when a heartbeat is refused.
abbrev session_at : ℕ → Session
session_at o = record {
  join = some joined;
  sync = some synced;
  fetched =
      some record { offsets = record { topic = topic; partition = pos 0; offset = pos o } ∷ [] };
  metadata = λ p. none;
  rounds =
      record { heartbeat = some record { error = []; state = [] }; fetch = from_start }
      ∷ record { heartbeat = none; fetch = from_start }
      ∷ [];
}

abbrev after_first : Consumer
after_first = (consume_session options (session_at 0) idle_consumer).1

-- The first session has committed offset 2.
committed_two :
    OneOf after_first.commits record { topic = topic; partition = pos 0; offset = pos 2 }
unfolding consume_session consume_rounds consume_partitions consume_partition print_records
    print_record position commit_position set_position initial_positions stored_positions
    fetched_positions lookup str_eq to_wire
committed_two = inl refl

first-Resumes : Resumes (pos 0) 0 idle_consumer (session_at 0)
unfolding fetched_positions stored_positions set_position
first-Resumes = record { from = 0; stored = refl; behind = omega arith; known = inl refl }

second-Resumes : Resumes (pos 0) 0 after_first (session_at 2)
unfolding fetched_positions stored_positions set_position
second-Resumes = record {
  from = 2;
  stored = refl;
  behind = omega arith;
  known =
      inr (record { topic = topic; partition = pos 0; offset = pos 2 }, committed_two, refl, refl);
}

idle-Covers : Covers (pos 0) wires 0 idle_consumer
idle-Covers = record {
  end = 0;
  begun = omega arith;
  inside = omega arith;
  printed = tt;
  reached = tt;
}

consume-Covers_example :
    Covers (pos 0) wires 0 (consume options (session_at 0 ∷ session_at 2 ∷ []) idle_consumer).1
consume-Covers_example =
    consume-Covers options (pos 0) two 0 (session_at 0 ∷ session_at 2 ∷ []) idle_consumer
      (refl, (refl, tt))
      (
        λ jr sr ej es. first-Resumes,
        (from_start-Led, (from_start-Led, tt)),
        (λ jr sr ej es. second-Resumes, (from_start-Led, (from_start-Led, tt)), tt),
      )
      idle-Covers
