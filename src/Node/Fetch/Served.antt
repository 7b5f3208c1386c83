-- ===== src/Node/Fetch/Served.antt =====
-- Which records `serveFetch` of internal/broker/handlers.go gives to a replica.
use logship.Prelude.{ℕ, ◌≡◌, refl, Bool, List, Bytes, OneOf, OneOf-all, All}
use logship.Prelude.Int.{ℤ}
use logship.Record.{Record}
use logship.Segment.{Result, ok, err, panic, stuck}
use logship.Log.{Log}
use logship.Log.Chain.{LogHolds, records}
use logship.Log.Members.{Only, read-Only}
use logship.Node.Fetch.{Fetched, served, answer, to_wire, fetch_log}

-- A response, if there is one, has only records with the property.
abbrev pub Serves : (Record → Type 0) → Fetched → Type 0
Serves P (served fr) = (rs : List Record) × (fr.records ≡ to_wire rs) × All P rs
Serves P _ = Unit

answer-Serves :
    (P : Record → Type 0) (topic : Bytes) (partition : ℤ) (l : Log) (got : Result (List Record))
    → Only P got
    → Serves P (answer topic partition l got)
unfolding answer
answer-Serves P topic partition l (ok rs) h = (rs, refl, h)
answer-Serves P topic partition l (err e) h = tt
answer-Serves P topic partition l panic h = tt
answer-Serves P topic partition l stuck h = tt

-- Whatever is asked for, a fetch gives records of the log.
pub fetch_log-Serves :
    (replica : Bool) (topic : Bytes) (partition offset max_bytes : ℤ) (base : ℕ) (l : Log)
    (parts : List (List Record)) (last : List Record)
    → LogHolds base l parts last
    → Serves (OneOf (records parts last)) (fetch_log replica topic partition offset max_bytes l)
unfolding fetch_log
fetch_log-Serves replica topic partition offset max_bytes base l parts last h =
    let all = records parts last in
    answer-Serves (OneOf all) topic partition l _
      (read-Only (OneOf all) base l parts last offset _ _ h (OneOf-all all all (λ r at. at)))
