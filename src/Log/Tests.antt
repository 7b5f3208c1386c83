-- ===== src/Log/Tests.antt =====
-- The theorems on logs at a log of three segments: two records, one, and one.
use logship.Prelude.{
  ℕ, ◌+◌, ◌-◌, ◌<◌, ◌≤◌, ◌^◌, ◌≡◌, refl, List, [], ◌∷◌, ◌++◌, arith, length, length-append, drop,
  take, sort_by, insert_by, get_u32, leb, none, some, Bytes, inl, ◌≢◌,
}
use logship.Prelude.Int.{pos, negsuc}
use logship.Record.{Record, encoded_size, frame}
use logship.Segment.{ok}
use logship.Segment.Contents.{Holds, Consecutive, size_of, bytes_of, length-bytes_of}
use logship.Segment.Read.{budget}
use logship.Segment.Sample.{sample, sample-IsWire, holding, holding-Holds}
use logship.Log.{Log, append, read, byte_limit, offset_limit}
use logship.Log.Chain.{LogHolds, records}
use logship.Log.Append.{healthy, Appended, append-Appended}
use logship.Log.Open.{SegmentFiles, open_log}
use logship.Log.Restart.{Left, OnDisk, open_log-LogHolds}
use logship.Log.Wait.{
  Round, Settled, timer_fires, wait_high_watermark, wait_high_watermark-Settled, woken_at,
}
use logship.Segment.Open.Torn
use logship.Segment.Open.Torn.{IsTorn}
use logship.Index
use logship.Log.Stretch.{stretch}
use logship.Log.Read.{read-LogHolds}
use logship.Log.Skip.{read-skips_segment}

abbrev first_part : List Record
first_part =
    sample 0 []
    ∷ sample 1 (
        1 ∷ 2 ∷ 3 ∷ 4 ∷ 5 ∷ 6 ∷ 7 ∷ 8 ∷ 9 ∷ 10 ∷ 11 ∷ 12 ∷ 13 ∷ 14 ∷ 15 ∷ 16 ∷ 17 ∷ 18 ∷ 19 ∷ 20
        ∷ [])
    ∷ []

abbrev second_part : List Record
second_part = sample 2 [] ∷ []

abbrev third_part : List Record
third_part = sample 3 [] ∷ []

abbrev log : Log
log = record {
  cfg = record { max_segment_bytes = 90; index_interval = 4096; fsync_every = 0 };
  sealed = holding 0 first_part ∷ holding 2 second_part ∷ [];
  active = holding 3 third_part;
  hw = 1;
  appends = 4;
}

first-Holds : Holds (holding 0 first_part) first_part
unfolding size_of encoded_size
first-Holds =
    holding-Holds 0 first_part (refl, (refl, tt))
      (
        sample-IsWire 0 [] (omega arith) (omega arith),
        (sample-IsWire 1 _ (omega arith) (omega arith), tt),
      )
      (omega arith)

one-Holds : (n : ℕ) → n < 2 ^ 64 → Holds (holding n (sample n [] ∷ [])) (sample n [] ∷ [])
unfolding size_of encoded_size
one-Holds n h =
    holding-Holds n (sample n [] ∷ []) (refl, tt) (sample-IsWire n [] h (omega arith), tt)
      (omega arith)

log-LogHolds : LogHolds 0 log (first_part ∷ second_part ∷ []) third_part
log-LogHolds = record {
  sealed = (refl, first-Holds, (refl, one-Holds 2 (omega arith), tt));
  active = one-Holds 3 (omega arith);
  active_base = refl;
}

append-Appended_example :
    Appended 0
      (records (first_part ∷ second_part ∷ []) third_part)
      log
      (record { offset = 4; timestamp = 8; key = 1 ∷ []; value = 2 ∷ [] })
      (append (healthy 8) (1 ∷ []) (2 ∷ []) log)
append-Appended_example =
    append-Appended 8 0 (1 ∷ []) (2 ∷ []) log (first_part ∷ second_part ∷ []) third_part
      log-LogHolds
      (record { offset_fits = omega arith; timestamp_fits = omega arith; size_fits = omega arith })
      (omega arith)

fits_limit :
    size_of
      (stretch 0 1 (offset_limit log (pos 3)) (records (first_part ∷ second_part ∷ []) third_part))
    ≤ byte_limit (negsuc 0)
unfolding size_of encoded_size
fits_limit = omega arith

read-LogHolds_example :
    read log (pos 1) (negsuc 0) (pos 3)
    ≡ ok (
        stretch 0 1 (offset_limit log (pos 3)) (records (first_part ∷ second_part ∷ []) third_part))
read-LogHolds_example =
    read-LogHolds 0 log (first_part ∷ second_part ∷ []) third_part 1 (negsuc 0) (pos 3) log-LogHolds
      (omega arith) fits_limit

stops_early : size_of (budget 50 0 (drop 0 first_part)) < 50
unfolding size_of budget encoded_size
stops_early = omega arith

not_whole : 0 + length (budget 50 0 (drop 0 first_part)) < 0 + length first_part
unfolding budget encoded_size
not_whole = omega arith

read-skips_segment_example :
    (read log (pos 0) (pos 50) (pos 4)
      ≡ ok (budget 50 0 first_part ++ budget (50 - size_of (budget 50 0 first_part)) 0 third_part))
    × ¬ (
        Consecutive 0
          (budget 50 0 first_part ++ budget (50 - size_of (budget 50 0 first_part)) 0 third_part))
read-skips_segment_example =
    read-skips_segment 0 log (holding 0 first_part) (holding 2 second_part) first_part second_part
      third_part 0 49 refl log-LogHolds (omega arith) (omega arith) (omega arith) stops_early
      not_whole

abbrev sealed_part : List Record
sealed_part = sample 0 [] ∷ sample 1 [] ∷ []

abbrev active_part : List Record
active_part = sample 2 [] ∷ []

-- An index entry for the first record.
abbrev sealed_files : SegmentFiles
sealed_files = record {
  base = 0;
  fs = Torn.healthy;
  files = some (bytes_of sealed_part ++ [], 0 ∷ 0 ∷ 0 ∷ 0 ∷ 0 ∷ 0 ∷ 0 ∷ 0 ∷ []);
}

-- Half of a frame behind the last record.
abbrev active_files : SegmentFiles
active_files = record {
  base = 2;
  fs = Torn.healthy;
  files = some (bytes_of active_part ++ take 10 (frame (sample 3 [])), []);
}

nothing-IsTorn : IsTorn []
unfolding encoded_size
nothing-IsTorn = record {
  rec = sample 3 [];
  kept = 0;
  wire = sample-IsWire 3 [] (omega arith) (omega arith);
  short = omega arith;
  bytes = refl;
}

half-IsTorn : IsTorn (take 10 (frame (sample 3 [])))
unfolding encoded_size
half-IsTorn = record {
  rec = sample 3 [];
  kept = 10;
  wire = sample-IsWire 3 [] (omega arith) (omega arith);
  short = omega arith;
  bytes = refl;
}

sealed-Left : Left 0 sealed_files sealed_part
unfolding size_of encoded_size
sealed-Left = record {
  torn = [];
  index_file = 0 ∷ 0 ∷ 0 ∷ 0 ∷ 0 ∷ 0 ∷ 0 ∷ 0 ∷ [];
  base = refl;
  works = refl;
  files = refl;
  is_torn = nothing-IsTorn;
  consecutive = (refl, (refl, tt));
  wire = (
    sample-IsWire 0 [] (omega arith) (omega arith),
    (sample-IsWire 1 [] (omega arith) (omega arith), tt),
  );
  small = omega arith;
}

active-Left : Left 2 active_files active_part
unfolding size_of encoded_size
active-Left = record {
  torn = take 10 (frame (sample 3 []));
  index_file = [];
  base = refl;
  works = refl;
  files = refl;
  is_torn = half-IsTorn;
  consecutive = (refl, tt);
  wire = (sample-IsWire 2 [] (omega arith) (omega arith), tt);
  small = omega arith;
}

not_empty : (rs : List Record) (torn : Bytes) → 0 < size_of rs → length (bytes_of rs ++ torn) ≢ 0
not_empty rs torn h e = omega (arith, e, length-append (bytes_of rs) torn, length-bytes_of rs)

sealed_bytes : 0 < size_of sealed_part
unfolding size_of encoded_size
sealed_bytes = omega arith

active_bytes : 0 < size_of active_part
unfolding size_of encoded_size
active_bytes = omega arith

on_disk : OnDisk 0 sealed_files (active_files ∷ []) (sealed_part ∷ []) active_part
unfolding Index.load Index.load_entries size_of sealed-Left get_u32 active-Left
on_disk = (
  record {
    left = sealed-Left;
    some_bytes = not_empty sealed_part [] sealed_bytes;
    entries = ((omega arith, refl), tt);
    some_entries = λ e. cc;
  },
  record {
    left = active-Left;
    fresh = inl (not_empty active_part (take 10 (frame (sample 3 []))) active_bytes);
  },
)

in_order :
    sort_by (λ (a b : SegmentFiles). leb a.base b.base) (active_files ∷ sealed_files ∷ [])
    ≡ sealed_files ∷ active_files ∷ []
unfolding sort_by insert_by
in_order = refl

open_log-LogHolds_example :
    (l : Log) × (open_log log.cfg none (some (active_files ∷ sealed_files ∷ [])) ≡ ok l)
    × LogHolds 0 l (sealed_part ∷ []) active_part
    × (l.hw ≡ 0)
open_log-LogHolds_example =
    open_log-LogHolds log.cfg none (active_files ∷ sealed_files ∷ []) 0 sealed_files
      (active_files ∷ []) (sealed_part ∷ []) active_part in_order on_disk

-- Until the deadline of 8 nothing comes; the timer is late by 1.
abbrev quiet : Round ℕ
quiet = record { head = 4; others = λ hw. hw; broadcast = none; late = 1 }

abbrev last_look : Round ℕ
last_look = record { head = 9; others = λ hw. hw; broadcast = none; late = 0 }

quiet-woken : (t : ℕ) → woken_at (3 + 5) quiet ≡ some t → t ≤ 9
unfolding woken_at timer_fires
quiet-woken t e = let same : 9 ≡ t = cc in omega (arith, same)

wait_high_watermark-Settled_example :
    Settled
      (λ hw. hw)
      4
      (3 + 5)
      (wait_high_watermark (λ hw. hw) 4 5 3 ([] ++ quiet ∷ last_look ∷ []) 4)
wait_high_watermark-Settled_example =
    wait_high_watermark-Settled (λ hw. hw) 4 5 3 [] [] quiet last_look 4 refl quiet-woken
