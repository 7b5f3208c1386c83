-- ===== src/Segment/Sample.antt =====
-- Small records and segments that hold them, for the tests of segments and logs.
use logship.Prelude.{ℕ, ◌+◌, ◌<◌, ◌^◌, refl, List, [], arith, length, All, Bytes}
use logship.Record.{Record}
use logship.Record.RoundTrip.{IsWire}
use logship.Segment.{Segment}
use logship.Segment.Contents.{Holds, Consecutive, bytes_of, size_of}

-- A record of 33 bytes and the value.
abbrev pub sample : ℕ → Bytes → Record
sample offset value = record { offset = offset; timestamp = 1; key = []; value = value }

pub sample-IsWire :
    (offset : ℕ) (value : Bytes)
    → offset < 2 ^ 64
    → length value < 100
    → IsWire (sample offset value)
sample-IsWire offset value o v = record {
  offset_fits = o;
  timestamp_fits = omega arith;
  size_fits = omega arith;
}

-- The segment with these records from `base` on, and no index entry.
abbrev pub holding : ℕ → List Record → Segment
holding base rs = record {
  base_offset = base;
  log_file = bytes_of rs;
  idx = record { file = []; cursor = 0; entries = [] };
  size = size_of rs;
  next_offset = base + length rs;
  bytes_since_index = 0;
  index_interval = 4096;
}

pub holding-Holds :
    (base : ℕ) (rs : List Record)
    → Consecutive base rs
    → All IsWire rs
    → size_of rs < 2 ^ 32
    → Holds (holding base rs) rs
holding-Holds base rs c w small = record {
  file = refl;
  size = refl;
  next = refl;
  consecutive = c;
  wire = w;
  index = tt;
  small = small;
}
