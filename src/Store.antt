-- ===== src/Store.antt =====
-- The logs of a broker's partitions, internal/store/store.go. `opened` is what log.Open gives for a
-- partition's directory, `Log.Open.open_log` at its files; a log that is changed through the pointer
-- that the store hands out is put back by `put`. An unreadable directory is an argument.
pub mod Keys
use logship.Prelude.{
  ℕ, ◌≡◌, Bool, true, false, Option, none, some, List, [], ◌∷◌, ◌++◌, Bytes, itoa, atoi, split_last,
  lookup, insert,
}
use logship.Prelude.Int.{ℤ}
use logship.Segment.{Result, ok, err, panic, stuck, io}
use logship.Log.{Log}

pub record Store : Type 0 where
  pub logs : List (Bytes × Log)

unfoldable pub new_store : Store
new_store = record { logs = [] }

-- 47 is the slash.
unfoldable pub key : Bytes → ℤ → Bytes
key topic partition = topic ++ (47 ∷ itoa partition)

-- The store after a change to the log of a key.
unfoldable pub put : Bytes → Log → Store → Store
put k l s = record { logs = insert k l s.logs }

keep_opened : Bytes → Result Log → Store → Result Log × Store
keep_opened k (ok l) s = (ok l, put k l s)
keep_opened k failed s = (failed, s)

open_found : Bytes → Option Log → Result Log → Store → Result Log × Store
open_found k (some l) opened s = (ok l, s)
open_found k none opened s = keep_opened k opened s

unfoldable pub open_partition : Result Log → Bytes → ℤ → Store → Result Log × Store
unfolding open_found keep_opened
open_partition opened topic partition s =
    open_found (key topic partition) (lookup (key topic partition) s.logs) opened s

unfoldable pub get : Bytes → ℤ → Store → Option Log
get topic partition s = lookup (key topic partition) s.logs

-- The subdirectories of a topic's directory: their names, and what opening each as a log gives. A
-- name that is no number is passed over.
abbrev pub Partitions : Type 0
Partitions = List (Bytes × Result Log)

load_partition : Bytes → Option ℤ → Result Log → Store → Result Log × Store
load_partition topic none opened s = (opened, s)
load_partition topic (some p) opened s = open_partition opened topic p s

-- Whether there was no error, and the store; `rest` is the loop behind.
and_then : Bool → Result Log × Store → (Store → Bool × Store) → Bool × Store
and_then false (opened, s) rest = rest s
and_then true (ok l, s) rest = rest s
and_then true (failed, s) rest = (false, s)

is_number : Option ℤ → Bool
is_number none = false
is_number (some p) = true

load_partitions : Bytes → Partitions → Store → Bool × Store
load_partitions topic [] s = (true, s)
load_partitions topic ((name, opened) ∷ ps) s =
    and_then (is_number (atoi name)) (load_partition topic (atoi name) opened s)
      (load_partitions topic ps)

next_topic : Bool × Store → (Store → Bool × Store) → Bool × Store
next_topic (true, s) rest = rest s
next_topic (false, s) rest = (false, s)

-- The topics' directories, `none` for one that cannot be read.
load_topic : Bytes → Option Partitions → Store → Bool × Store
load_topic topic none s = (false, s)
load_topic topic (some ps) s = load_partitions topic ps s

unfoldable pub load_existing : List (Bytes × Option Partitions) → Store → Bool × Store
unfolding load_topic load_partitions next_topic and_then load_partition is_number
load_existing [] s = (true, s)
load_existing ((topic, ps) ∷ topics) s = next_topic (load_topic topic ps s) (load_existing topics)

numbered_key : Bytes → Option ℤ → Option (Bytes × ℤ)
numbered_key topic none = none
numbered_key topic (some p) = some (topic, p)

parsed : Option (Bytes × Bytes) → Option (Bytes × ℤ)
parsed none = none
parsed (some (topic, number)) = numbered_key topic (atoi number)

unfoldable pub parse_key : Bytes → Option (Bytes × ℤ)
unfolding parsed numbered_key
parse_key k = parsed (split_last 47 k)
