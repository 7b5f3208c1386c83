-- ===== src/Node/Produce/Fetched.antt =====
-- A fetch behind a produce on the same broker, internal/broker/handlers.go.
use logship.Prelude.{
  arith, ℕ, ◌+◌, ◌-◌, ◌≤◌, ◌^◌, ◌≡◌, refl, ap, ◌∙◌, false, Option, List, [], ◌∷◌, ◌++◌, Bytes,
  length, length-append, drop-length_append,
}
use logship.Prelude.Int.{ℤ, pos}
use logship.Record.{Record, encoded_size}
use logship.Segment.{Result, ok}
use logship.Segment.Contents.{size_of}
use logship.Log.{Log, read, leo}
use logship.Log.Chain.{records, leo-LogHolds}
use logship.Log.Stretch.{stretch}
use logship.Log.Read.{read-LogHolds}
use logship.Broker.{PartitionMeta}
use logship.Protocol.{ProduceResult, FetchResponse}
use logship.Node.{Node}
use logship.Node.Fetch.{
  served, serve_fetch, serve_fetch-led, fetch_log-served, fetch_bytes, max_offset, to_wire,
}
use logship.Node.Produce.{Answer}
use logship.Node.Produce.Solo.{Committed}

stretch-last :
    (base end : ℕ) (before : List Record) (r : Record)
    → end ≡ base + length before
    → stretch base end (end + 1) (before ++ r ∷ []) ≡ r ∷ []
stretch-last base end before r e =
    let skip : end - base ≡ length before = omega arith in
    let one : end + 1 - end ≡ 1 = omega arith in
    rw (skip, drop-length_append before (r ∷ []) (length before) refl, one) refl

one_size : (r : Record) → encoded_size r ≤ 2 ^ 20 → size_of (r ∷ []) ≤ 2 ^ 20
unfolding size_of
one_size r h = omega arith

-- A record that was produced on a partition without other replicas, as the last of its log, is what a
-- consumer's fetch at the offset of the result gives: that record alone, if it is at most 1 MiB.
pub serve_fetch-Committed :
    (n : Node) (topic : Bytes) (partition : ℤ) (pm : PartitionMeta) (base : ℕ)
    (before : List Record) (r : Record) (out : Answer ProduceResult × Node)
    (opened : Bytes → Result Log) (ask : Bytes → Option FetchResponse)
    → Committed n topic partition pm base (before ++ r ∷ []) r.offset out
    → r.offset ≡ base + length before
    → encoded_size r ≤ 2 ^ 20
    → (serve_fetch opened ask false topic partition (pos r.offset) (pos 0) out.1).0
      ≡ served record {
        topic = topic;
        partition = partition;
        high_watermark = r.offset + 1;
        log_end_offset = r.offset + 1;
        records = to_wire (r ∷ []);
      }
unfolding fetch_bytes max_offset
serve_fetch-Committed n topic partition pm base before r out opened ask c at small =
    let whole : stretch base r.offset (r.offset + 1) (records c.parts c.last) ≡ r ∷ [] =
      ap (stretch base r.offset (r.offset + 1)) c.grown ∙ stretch-last base r.offset before r at in
    let end : leo c.log ≡ r.offset + 1 =
      omega (arith, leo-LogHolds c.held, ap length c.grown, length-append before (r ∷ [])) in
    let got : read c.log (pos r.offset) (pos 1048576) (pos c.log.hw) ≡ ok (r ∷ []) =
      ap (λ w. read c.log (pos r.offset) (pos 1048576) (pos w)) c.committed
      ∙ read-LogHolds base c.log c.parts c.last r.offset (pos 1048576) (pos (r.offset + 1)) c.held
          (omega arith) (rw whole (one_size r small))
      ∙ ap ok whole in
    serve_fetch-led opened ask false topic partition (pos r.offset) (pos 0) pm c.log out.1
      c.alone.known c.alone.leads c.found
    ∙ fetch_log-served false topic partition (pos r.offset) (pos 0) c.log (r ∷ []) got
    ∙ rw (c.committed, end) refl
