-- ===== src/Log/Sample.antt =====
-- Small logs, for the tests.
use logship.Prelude.{ℕ, refl, List, [], ◌∷◌, arith}
use logship.Record.{Record, encoded_size}
use logship.Segment.Contents.{Holds, size_of}
use logship.Segment.Sample.{sample, sample-IsWire, holding, holding-Holds}
use logship.Log.{Log}
use logship.Log.Chain.{LogHolds}

abbrev pub one : List Record
one = sample 0 [] ∷ []

abbrev pub two : List Record
two = sample 0 [] ∷ sample 1 [] ∷ []

-- A log of one segment.
abbrev pub log_of : ℕ → List Record → Log
log_of hw rs = record {
  cfg = record { max_segment_bytes = 1000; index_interval = 4096; fsync_every = 0 };
  sealed = [];
  active = holding 0 rs;
  hw = hw;
  appends = 0;
}

one-Holds : Holds (holding 0 one) one
unfolding size_of encoded_size
one-Holds =
    holding-Holds 0 one (refl, tt) (sample-IsWire 0 [] (omega arith) (omega arith), tt)
      (omega arith)

two-Holds : Holds (holding 0 two) two
unfolding size_of encoded_size
two-Holds =
    holding-Holds 0 two (refl, (refl, tt))
      (
        sample-IsWire 0 [] (omega arith) (omega arith),
        (sample-IsWire 1 [] (omega arith) (omega arith), tt),
      )
      (omega arith)

pub one-LogHolds : (hw : ℕ) → LogHolds 0 (log_of hw one) [] one
one-LogHolds hw = record { sealed = tt; active = one-Holds; active_base = refl }

pub two-LogHolds : (hw : ℕ) → LogHolds 0 (log_of hw two) [] two
two-LogHolds hw = record { sealed = tt; active = two-Holds; active_base = refl }
