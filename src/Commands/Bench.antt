-- ===== src/Commands/Bench.antt =====
-- The load generator, cmd/bench/main.go: how the records are shared out among the workers, what a worker
-- sends, and the scan of all partitions. The measuring of time is left out.
pub mod Tally
mod Tests
use logship.Prelude.{
  arith, ℕ, zero, suc, ◌+◌, ◌-◌, ◌*◌, ◌/◌, ◌<◌, ◌≤◌, ◌≡◌, refl, ap, ◌∙◌, Bool, true, false, ◌&&◌,
  ◌||◌, Option, none, some, List, [], ◌∷◌, ◌++◌, Bytes, itoa, length, ltb, str_eq, ◌==◌,
  if◌then◌else◌, eq→==-true, ne→==-false,
}
use native.Mathlib.Nat.{mul-suc, div-mul-le_self}
use logship.Prelude.Int.{ℤ, pos, eq_ℤ}
use logship.Protocol.{ProduceRequest, WireRecord, FetchResponse, TopicInfo, PartitionInfo}

-- The records that worker `w` sends, of `n` in all. There is one worker or more: with none the source
-- divides by zero.
unfoldable pub share : ℕ → ℕ → ℕ → ℕ
share n workers w = if w == workers - 1 then n - n / workers * (workers - 1) else n / workers

-- Those of the workers from `w` on, `k` of them.
unfoldable pub shares_from : ℕ → ℕ → ℕ → ℕ → List ℕ
shares_from n workers w zero = []
shares_from n workers w (suc k) = share n workers w ∷ shares_from n workers (w + 1) k

unfoldable pub shares : ℕ → ℕ → List ℕ
shares n workers = shares_from n workers 0 workers

-- "k-w-i", or no key.
unfoldable pub key_of : Bool → ℕ → ℕ → Bytes
key_of keyed w i = if keyed then (107 ∷ 45 ∷ (itoa (pos w) ++ (45 ∷ itoa (pos i)))) else []

pub record Load : Type 0 where
  pub topic : Bytes
  pub payload : Bytes
  pub acks : Bytes
  pub keyed : Bool

unfoldable pub request_of : Load → ℕ → ℕ → ProduceRequest
request_of load w i = record {
  topic = load.topic;
  partition = pos 0;
  key = key_of load.keyed w i;
  value = load.payload;
  acks = load.acks;
  records = [];
}

-- How many records worker `w` has produced behind record `i`, of `k` that are left: it stops at the
-- first error. `accepted` is whether a request is answered without one.
unfoldable pub produced_by : (ProduceRequest → Bool) → Load → ℕ → ℕ → ℕ → ℕ
produced_by accepted load w i zero = 0
produced_by accepted load w i (suc k) =
    let rest = produced_by accepted load w (i + 1) k in
    if accepted (request_of load w i) then suc rest else 0

abbrev pub total : List ℕ → ℕ
total [] = 0
total (x ∷ xs) = x + total xs

total-shares_from :
    (n m w k : ℕ)
    → w + k ≡ m
    → total (shares_from n (suc m) w (suc k)) ≡ n / suc m * k + (n - n / suc m * m)
unfolding shares_from share
total-shares_from n m w zero e =
    let last : (w == suc m - 1) ≡ true = eq→==-true w (suc m - 1) (omega arith) in
    let rest : suc m - 1 ≡ m = omega arith in rw (last, rest) (omega arith)
total-shares_from n m w (suc k) e =
    let early : (w == suc m - 1) ≡ false = ne→==-false w (suc m - 1) (λ same. omega arith) in
    rw (early, mul-suc (n / suc m) k) (omega (arith, total-shares_from n m (w + 1) k (omega arith)))

-- The shares of the workers, one or more, add up to the records that are asked for.
pub total-shares : (n workers : ℕ) → 0 < workers → total (shares n workers) ≡ n
unfolding shares
total-shares n zero h = absurd (omega arith)
total-shares n (suc m) h = omega (
  arith,
  total-shares_from n m 0 m (omega arith),
  div-mul-le_self n (suc m),
  mul-suc (n / suc m) m,
)

-- The partitions of the topic in the metadata; a topic may be listed more than once.
partitions_of : List PartitionInfo → List ℤ
partitions_of [] = []
partitions_of (p ∷ ps) = pos p.id ∷ partitions_of ps

unfoldable pub parts_of : Bytes → List TopicInfo → List ℤ
unfolding partitions_of
parts_of topic [] = []
parts_of topic (t ∷ ts) =
    let rest = parts_of topic ts in
    if str_eq t.name topic then partitions_of t.partitions ++ rest else rest

-- A missing key of the map is 0.
pub record Scan : Type 0 where
  pub consumed : ℕ
  pub offs : ℤ → ℕ

unfoldable pub set_offset : ℤ → ℕ → (ℤ → ℕ) → ℤ → ℕ
set_offset p o m q = if eq_ℤ q p then o else m q

-- The offset behind the last of some records.
unfoldable pub behind : WireRecord → List WireRecord → ℕ
behind r [] = r.offset + 1
behind r (x ∷ xs) = behind x xs

-- Whether there was progress, and the state.
counted : ℤ → List WireRecord → Scan → Bool × Scan
counted p [] s = (false, s)
counted p (r ∷ rs) s = (
  true,
  record { consumed = s.consumed + length (r ∷ rs); offs = set_offset p (behind r rs) s.offs },
)

scanned : ℤ → Option FetchResponse → Scan → Bool × Scan
scanned p none s = (false, s)
scanned p (some fr) s = counted p fr.records s

unfoldable pub scan_partition : (ℤ → ℕ → Option FetchResponse) → ℤ → Scan → Bool × Scan
unfolding scanned counted
scan_partition fetch p s = scanned p (fetch p (s.offs p)) s

unfoldable pub scan_round : (ℤ → ℕ → Option FetchResponse) → List ℤ → Scan → Bool × Scan
scan_round fetch [] s = (false, s)
scan_round fetch (p ∷ ps) s =
    let (here, s') = scan_partition fetch p s in
    let (later, t) = scan_round fetch ps s' in (here || later, t)

-- The rounds until all produced records are consumed or the deadline has passed; each round has whether
-- it is in time, and what a fetch gives.
unfoldable pub scan : ℕ → List ℤ → List (Bool × (ℤ → ℕ → Option FetchResponse)) → Scan → Scan
scan produced parts [] s = s
scan produced parts ((in_time, fetch) ∷ rounds) s =
    let rest = scan produced parts rounds (scan_round fetch parts s).1 in
    if ltb s.consumed produced && in_time then rest else s
