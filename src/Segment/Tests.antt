-- ===== src/Segment/Tests.antt =====
-- The theorems on segments at small ones.
use logship.Prelude.{
  ◌+◌, ◌<◌, ◌≡◌, ◌≢◌, refl, List, [], ◌∷◌, ◌++◌, arith, length, length-append, take, drop, true,
  false, All,
}
use logship.Prelude.Int.{pos}
use logship.Record.{Record, encoded_size, frame}
use logship.Record.RoundTrip.{IsWire}
use logship.Index.{IndexEntry}
use logship.Segment.{Segment, ok, append, read_from}
use logship.Segment.Contents.{Holds, bytes_of, size_of, length-bytes_of}
use logship.Segment.Append
use logship.Segment.Append.{append-Holds, append-offset_mismatch}
use logship.Segment.Read.{budget, read_from-Holds}
use logship.Segment.Open.{recover}
use logship.Segment.Open.Torn.{IsTorn, healthy}
use logship.Segment.Open.Recovery.{recover-active}
use logship.Segment.Open.Sealed.{recover-sealed}
use logship.Segment.Sample.{sample, sample-IsWire, holding, holding-Holds}

abbrev two : List Record
two = sample 5 [] ∷ sample 6 (9 ∷ []) ∷ []

two-small : size_of two < 4294967296
unfolding size_of encoded_size
two-small = omega arith

two-IsWire : All IsWire two
two-IsWire = (
  sample-IsWire 5 [] (omega arith) (omega arith),
  (sample-IsWire 6 (9 ∷ []) (omega arith) (omega arith), tt),
)

two-Holds : Holds (holding 5 two) two
two-Holds = holding-Holds 5 two (refl, (refl, tt)) two-IsWire two-small

room : size_of two + encoded_size (sample 7 []) < 4294967296
unfolding size_of encoded_size
room = omega arith

append-Holds_example :
    ((append Append.healthy 3 (sample 7 []) (holding 5 two)).0 ≡ ok 7)
    × Holds (append Append.healthy 3 (sample 7 []) (holding 5 two)).1 (two ++ sample 7 [] ∷ [])
append-Holds_example =
    append-Holds 3 (sample 7 []) (holding 5 two) two two-Holds refl
      (sample-IsWire 7 [] (omega arith) (omega arith)) room

read_from-Holds_example :
    read_from (holding 5 two) (pos 6) 100 (pos 7) ≡ ok (budget 100 0 (take 1 (drop 1 two)))
read_from-Holds_example =
    read_from-Holds (holding 5 two) two two-Holds 6 100 7 (omega arith) (omega arith) (omega arith)

-- Half of a frame behind two records.
half_frame : IsTorn (take 10 (frame (sample 7 [])))
unfolding encoded_size
half_frame = record {
  rec = sample 7 [];
  kept = 10;
  wire = sample-IsWire 7 [] (omega arith) (omega arith);
  short = omega arith;
  bytes = refl;
}

abbrev crashed : List IndexEntry → Segment
crashed entries = record (holding 5 two) {
  log_file = bytes_of two ++ take 10 (frame (sample 7 []));
  idx = record { file = []; cursor = 0; entries = entries };
  size = length (bytes_of two ++ take 10 (frame (sample 7 [])));
}

recover-active_example : (s' : Segment) × (recover healthy true (crashed []) ≡ ok s') × Holds s' two
recover-active_example =
    recover-active (crashed []) two (take 10 (frame (sample 7 []))) (refl, (refl, tt)) two-IsWire
      two-small half_frame refl refl (λ e. refl)

crashed-size : (crashed (record { rel_offset = 0; position = 0 } ∷ [])).size ≢ 0
unfolding size_of encoded_size
crashed-size e =
    omega
      (arith, e, length-append (bytes_of two) (take 10 (frame (sample 7 []))), length-bytes_of two)

recover-sealed_example :
    (s' : Segment) × (recover healthy false (crashed (record { rel_offset = 0; position = 0 } ∷ []))
      ≡ ok s')
    × Holds s' two
unfolding size_of
recover-sealed_example =
    recover-sealed (crashed (record { rel_offset = 0; position = 0 } ∷ [])) two
      (take 10 (frame (sample 7 []))) (refl, (refl, tt)) two-IsWire two-small half_frame refl
      crashed-size ((omega arith, refl), tt) (λ e. cc)
