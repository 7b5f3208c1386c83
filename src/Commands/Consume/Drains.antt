-- ===== src/Commands/Consume/Drains.antt =====
-- How far a session of `consumeCmd` of cmd/logship-cli/main.go without a limit comes in a partition: at
-- least to each watermark that the leader had in a round.
use logship.Prelude.{
  arith, ℕ, ◌+◌, ◌-◌, ◌≡◌, ◌≤◌, sym, ap, subst, ◌∙◌, false, Option, some, List, [], ◌∷◌, All,
  All-map, OneOf, Bytes, length, length-take, length-drop, take, drop, Bool-cases, inl, inr, ◌⊎◌,
  either_branch, if◌then◌else◌, append-nil,
}
use Prim.Native.Nat.{max}
use logship.Prelude.Int.{ℤ, pos, ltb_ℤ}
use logship.Protocol.{WireRecord, FetchResponse, JoinResponse, SyncResponse}
use logship.Protocol.Json.{over_json}
use logship.Record.{Record}
use logship.Segment.Contents.{Consecutive}
use logship.Log.Chain.{records, leo-LogHolds, Consecutive-LogHolds}
use logship.Log.{leo}
use logship.Node.Fetch.{to_wire}
use logship.Commands.Consume.{
  Options, Consumer, Round, Outcome, consume_partition, and_then, consume_partitions, refuses,
  consume_rounds, Session, fetched_positions, assigned, consume_session,
}
use logship.Commands.Consume.Lines.{Counted}
use logship.Commands.Consume.Order.{Shown, consume_partition-Shown}
use logship.Commands.Consume.Resume.{
  Led, Led-Serves, Counted-to_wire, fetched_window, length-to_wire, consume_session-rounds,
  consume_session-Shown,
}
use logship.Commands.Consume.Printed.{
  Counted-take, Counted-skip, window_wire, value, consume_partition-over, consume_partitions-over,
  consume_partition-at,
}

-- The highest watermark that the leader had in a round, up to the first refused heartbeat.
abbrev pub highest :
    (topic : Bytes) (p : ℤ) (all : List Record) (rs : List Round)
    → All (λ r. Led topic p all r.fetch) rs
    → ℕ
highest topic p all [] led = 0
highest topic p all (r ∷ rs) (h, hs) =
    if refuses r.heartbeat then 0 else max h.log.hw (highest topic p all rs hs)

-- How far the records are printed at least: without a limit on their number, to the highest watermark.
abbrev pub promised :
    (topic : Bytes) (p : ℤ) (all : List Record) (opts : Options) (rs : List Round)
    → All (λ r. Led topic p all r.fetch) rs
    → ℕ
promised topic p all opts rs led = if ltb_ℤ (pos 0) opts.max then 0 else highest topic p all rs led

-- What the position of a partition has come to.
pub record Far (p : ℤ) (least most : ℕ) (s : Consumer) : Type 0 where
  pub n : ℕ
  pub at : s.offsets p ≡ some (pos n)
  pub least_le : least ≤ n
  pub inside : n ≤ most

Shown-Far :
    (p : ℤ) (all : List WireRecord) (from : ℕ) (s0 s : Consumer)
    → Shown p all from s0 s
    → Far p from (length all) s
Shown-Far p all from s0 s h = record {
  n = from + h.k;
  at = h.at;
  least_le = omega arith;
  inside = h.inside;
}

starting :
    (p : ℤ) (all : List WireRecord) (s : Consumer) (n : ℕ)
    → s.offsets p ≡ some (pos n)
    → n ≤ length all
    → Shown p all n s s
starting p all s n at inside =
    let e : n + 0 ≡ n = omega arith in
    record {
      k = 0;
      at = rw e at;
      inside = omega (arith, inside);
      lines = sym (append-nil _);
      new = [];
      sent = sym (append-nil s.commits);
      reached = tt;
    }

module _ (topic : Bytes) (p : ℤ) (opts : Options) (all : List Record) (numbered : Consecutive 0 all)
    (unlimited : ltb_ℤ (pos 0) opts.max ≡ false) where
  -- The partition, when its leader is asked.
  consume_partition-Far :
      (fetch : ℤ → ℤ → Option FetchResponse) (h : Led topic p all fetch) (s : Consumer) (n : ℕ)
      → s.offsets p ≡ some (pos n)
      → n ≤ length (to_wire all)
      → Far p (max n h.log.hw) (length (to_wire all)) (consume_partition opts fetch p s).state
  consume_partition-Far fetch h s n at inside =
      let whole = records h.parts h.last in
      let got = to_wire (take (h.log.hw - n) (drop n whole)) in
      let fr : FetchResponse = record {
        topic = over_json topic;
        partition = p;
        high_watermark = h.log.hw;
        log_end_offset = leo h.log;
        records = got;
      } in
      let window : fetch p (pos n) ≡ some fr =
        h.answers n ∙ fetched_window topic p h.log h.parts h.last n h.held h.small h.text in
      let f = Shown-Far p (to_wire all) n s (consume_partition opts fetch p s).state (
        consume_partition-Shown p (to_wire all) n (Counted-to_wire 0 all numbered) s opts fetch p s
          (Led-Serves topic p all fetch h) (starting p (to_wire all) s n at inside)) in
      let counted : Counted n got = subst (Counted n) (window_wire n h.log.hw whole) (
        Counted-take (h.log.hw - n) n (drop n (to_wire whole)) (
          subst (λ b. Counted b (drop n (to_wire whole))) (omega arith)
            (Counted-skip n 0 (to_wire whole)
              (Counted-to_wire 0 whole (Consecutive-LogHolds h.held))))) in
      let there : (consume_partition opts fetch p s).state.offsets p ≡ some (pos (n + length got)) =
        consume_partition-at p opts unlimited fetch fr s n at window counted in
      let same : f.n ≡ n + length got = ap value (sym f.at ∙ there) in
      record {
        n = f.n;
        at = f.at;
        least_le = omega (
          arith,
          f.least_le,
          same,
          h.end,
          leo-LogHolds h.held,
          length-to_wire (take (h.log.hw - n) (drop n whole)),
          length-take (h.log.hw - n) (drop n whole),
          length-drop n whole,
        );
        inside = f.inside;
      }

  here :
      (fetch : ℤ → ℤ → Option FetchResponse) (h : Led topic p all fetch) (s : Consumer) (n : ℕ)
      → s.offsets p ≡ some (pos n)
      → n ≤ length (to_wire all)
      → (q : ℤ) → q ≡ p
      → (f : Far p n (length (to_wire all)) (consume_partition opts fetch q s).state)
      → h.log.hw ≤ f.n
  here fetch h s n at inside q own f =
      let far = consume_partition-Far fetch h s n at inside in
      let moved = ap (λ x. (consume_partition opts fetch x s).state.offsets p) own in
      let same : f.n ≡ far.n = ap value (sym f.at ∙ moved ∙ far.at) in
      omega (arith, same, far.least_le)

  -- The partitions of a round, the partition among them.
  consume_partitions-Far :
      (fetch : ℤ → ℤ → Option FetchResponse) (h : Led topic p all fetch) (ps : List ℤ) (low : ℕ)
      (s : Consumer) (n : ℕ)
      → s.offsets p ≡ some (pos n)
      → n ≤ length (to_wire all)
      → low ≤ n
      → (OneOf ps p) ⊎ (h.log.hw ≤ n)
      → Far p (max low h.log.hw) (length (to_wire all)) (consume_partitions opts fetch ps s).state
  unfolding consume_partitions and_then
  consume_partitions-Far fetch h [] low s n at inside le (inl member) = absurd member
  consume_partitions-Far fetch h [] low s n at inside le (inr reached) = record {
    n = n;
    at = at;
    least_le = omega (arith, le, reached);
    inside = inside;
  }
  consume_partitions-Far fetch h (q ∷ ps) low s n at inside le member =
      let g = consume_partition opts fetch q s in
      let f = Shown-Far p (to_wire all) n s g.state (
        consume_partition-Shown p (to_wire all) n (Counted-to_wire 0 all numbered) s opts fetch q s
          (Led-Serves topic p all fetch h) (starting p (to_wire all) s n at inside)) in
      let left : (OneOf ps p) ⊎ (h.log.hw ≤ f.n) = elim member [
        | inl (inl own) ↦ inr (here fetch h s n at inside q own f)
        | inl (inr later) ↦ inl later
        | inr reached ↦ inr (omega (arith, reached, f.least_le))
      ] in
      rw (consume_partition-over p opts unlimited fetch q s) (
        consume_partitions-Far fetch h ps low g.state f.n f.at f.inside
          (omega (arith, le, f.least_le)) left)

  consume_rounds-Far :
      (parts : List ℤ) (rs : List Round) (led : All (λ r. Led topic p all r.fetch) rs) (idle : ℕ)
      (s : Consumer) (n : ℕ)
      → OneOf parts p
      → s.offsets p ≡ some (pos n)
      → n ≤ length (to_wire all)
      → Far p
          (max n (highest topic p all rs led))
          (length (to_wire all))
          (consume_rounds opts parts rs idle s).1
  unfolding consume_rounds
  consume_rounds-Far parts [] led idle s n member at inside = record {
    n = n;
    at = at;
    least_le = omega arith;
    inside = inside;
  }
  consume_rounds-Far parts (r ∷ rs) (h, hs) idle s n member at inside =
      let g = consume_partitions opts r.fetch parts s in
      let f = consume_partitions-Far r.fetch h parts n s n at inside (omega arith) (inl member) in
      let on : (i : ℕ)
          → Far p (max n (max h.log.hw (highest topic p all rs hs))) (length (to_wire all))
              (consume_rounds opts parts rs i g.state).1 =
        λ i.
          wider (consume_rounds opts parts rs i g.state).1 (omega (arith, f.least_le))
            (consume_rounds-Far parts rs hs i g.state f.n member f.at f.inside) in
      elim (Bool-cases (refuses r.heartbeat)) [
        | inl refused ↦
            rw refused (record { n = n; at = at; least_le = omega arith; inside = inside })
        | inr accepted ↦
            rw (accepted, consume_partitions-over p opts unlimited r.fetch parts s, unlimited)
              (either_branch
                (λ (x : Outcome × Consumer).
                  Far p (max n (max h.log.hw (highest topic p all rs hs))) (length (to_wire all))
                    x.1)
                g.progress (on idle) (on (idle + 1)))
      ]
    where
      wider :
          (x : Consumer) {low least : ℕ}
          → low ≤ least
          → Far p least (length (to_wire all)) x
          → Far p low (length (to_wire all)) x
      wider x le far = record {
        n = far.n;
        at = far.at;
        least_le = omega (arith, le, far.least_le);
        inside = far.inside;
      }

promised-Far :
    (opts : Options) (p : ℤ) (all : List Record) (parts : List ℤ) (rs : List Round)
    (led : All (λ r. Led opts.topic p all r.fetch) rs) (s : Consumer) (from n : ℕ)
    → Consecutive 0 all
    → OneOf parts p
    → s.offsets p ≡ some (pos from)
    → from ≤ length all
    → (consume_rounds opts parts rs 0 s).1.offsets p ≡ some (pos n)
    → promised opts.topic p all opts rs led ≤ n
promised-Far opts p all parts rs led s from n numbered member at inside end =
    elim (Bool-cases (ltb_ℤ (pos 0) opts.max)) [
      | inl limited ↦ rw limited (omega arith)
      | inr unlimited ↦
          let f =
            consume_rounds-Far opts.topic p opts all numbered unlimited parts rs led 0 s from member
              at (omega (arith, inside, length-to_wire all)) in
          let same : f.n ≡ n = ap value (sym f.at ∙ end) in
          rw unlimited (omega (arith, same, f.least_le))
    ]

-- A session at a leader whose log of UTF-8 grows to `all`, of at most 1 MiB whenever it is asked, and of
-- which the partition is assigned to this member: from the committed offset on, the command prints records
-- of the log, each once and in order, and commits no offset past what it has printed; without a limit on
-- their number it prints all up to the highest watermark that the leader has in a round before a refused
-- heartbeat.
pub consume_session-Led :
    (opts : Options) (p : ℤ) (all : List Record) (from : ℕ) (x : Session) (jr : JoinResponse)
    (sr : SyncResponse) (s : Consumer) (led : All (λ r. Led opts.topic p all r.fetch) x.rounds)
    → x.join ≡ some jr
    → x.sync ≡ some sr
    → fetched_positions x.fetched p ≡ some (pos from)
    → OneOf (assigned opts.topic sr.assignment) p
    → Consecutive 0 all
    → from ≤ length all
    → (h : Shown p (to_wire all) from s (consume_session opts x s).1) × (promised opts.topic p all
          opts x.rounds led
        ≤ from + h.k)
consume_session-Led opts p all from x jr sr s led joined synced stored member numbered inside =
    let (begin, same, at) = consume_session-rounds opts p from x jr sr s joined synced stored in
    let h =
      consume_session-Shown opts p (to_wire all) from x jr sr s joined synced stored
        (Counted-to_wire 0 all numbered) (omega (arith, length-to_wire all, inside))
        (All-map x.rounds (λ r l. Led-Serves opts.topic p all r.fetch l) led) in
    (
      h,
      promised-Far opts p all (assigned opts.topic sr.assignment) x.rounds led begin from
          (from + h.k) numbered member at inside (ap (λ o. o.1.offsets p) (sym same) ∙ h.at),
    )
