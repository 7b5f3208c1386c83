-- ===== src/Routing.antt =====
-- Which partition a record goes to, internal/routing/partitioner.go. A partitioner is its
-- round-robin counter, a uint64; the hash is FNV-1a of Go's hash/fnv.
mod Tests
use Prim.Native.Nat.{bit_xor}
use logship.Prelude.{
  ℕ, zero, suc, ◌+◌, ◌-◌, ◌*◌, ◌%◌, ◌^◌, ◌<◌, ◌≡◌, refl, [], ◌∷◌, arith, ltb, ◌==◌, if◌then◌else◌,
  length, Bytes, ==_iff, ne→==-false,
}
use logship.Prelude.Int.{ℤ, pos, negsuc}

fnv_from : ℕ → Bytes → ℕ
fnv_from h [] = h
fnv_from h (b ∷ bs) = fnv_from (bit_xor h b * 16777619 % 2 ^ 32) bs

unfoldable pub hash32 : Bytes → ℕ
unfolding fnv_from
hash32 key = fnv_from 2166136261 key % 2 ^ 32

-- The partition and the counter after the call; `numPartitions` is an int.
unfoldable pub partition : Bytes → ℤ → ℕ → ℕ × ℕ
partition key (negsuc n) rr = (0, rr)
partition key (pos n) rr =
    let rr' = (rr + 1) % 2 ^ 64 in
    if n == 0
    then (0, rr)
    else if length key == 0
    then ((rr' + 2 ^ 64 - 1) % 2 ^ 64 % n, rr')
    else (hash32 key % (n % 2 ^ 32), rr)

-- With one partition or more, fewer than 2 ^ 32, the partition chosen is one of them.
pub partition-lt : (key : Bytes) (n rr : ℕ) → 0 < n → n < 2 ^ 32 → (partition key (pos n) rr).0 < n
unfolding partition
partition-lt key n rr h small = ground arith

-- `k` records without a key, one after another, from the counter `rr`.
unfoldable pub round_robin : ℕ → ℕ → ℕ → ℕ
round_robin zero n rr = (partition [] (pos n) rr).0
round_robin (suc k) n rr = round_robin k n (partition [] (pos n) rr).1

counter_back : (rr : ℕ) → rr < 2 ^ 64 → ((rr + 1) % 2 ^ 64 + 2 ^ 64 - 1) % 2 ^ 64 ≡ rr
counter_back rr h = omega arith

partition-unkeyed :
    (n rr : ℕ) → 0 < n → rr < 2 ^ 64 → partition [] (pos n) rr ≡ (rr % n, (rr + 1) % 2 ^ 64)
unfolding partition
partition-unkeyed n rr h fits = rw (ne→==-false n 0 (omega arith), counter_back rr fits)

-- Records without a key go round the partitions, of which there is one or more: the one after `k` others goes to partition
-- `(rr + k) % n`, as long as the counter does not wrap.
pub round_robin-mod : (k n rr : ℕ) → 0 < n → rr + k < 2 ^ 64 → round_robin k n rr ≡ (rr + k) % n
unfolding round_robin
round_robin-mod zero n rr h fits =
    let sum : rr + 0 ≡ rr = omega arith in
    rw (round_robin, partition-unkeyed n rr h (omega arith), sum)
round_robin-mod (suc k) n rr h fits =
    let step : (rr + 1) % 2 ^ 64 ≡ rr + 1 = omega arith in
    let sum : rr + suc k ≡ rr + 1 + k = omega arith in
    rw (
      partition-unkeyed n rr h (omega arith),
      step,
      sum,
      round_robin-mod k n (rr + 1) h (omega arith),
    )
