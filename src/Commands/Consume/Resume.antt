-- ===== src/Commands/Consume/Resume.antt =====
-- A session of `consumeCmd` of cmd/logship-cli/main.go, with a broker of internal/broker that leads the
-- partition.
use logship.Prelude.{
  arith, ℕ, zero, suc, ◌+◌, ◌-◌, ◌≡◌, ◌≤◌, ◌^◌, refl, sym, ap, subst, ◌∙◌, false, Option, none,
  some, List, [], ◌∷◌, ◌++◌, append_assoc, append-nil, All, All-take, All-drop, Bytes, length, take,
  drop, take-append-drop, Bool-cases, inl, inr,
}
use logship.Prelude.Int.{ℤ, pos, eq_ℤ, eq_ℤ→eq}
use logship.Protocol.{WireRecord, FetchResponse, Metadata, JoinResponse, SyncResponse}
use logship.Record.{Record}
use logship.Segment.{ok}
use logship.Segment.Contents.{Consecutive, size_of, size_of-append}
use logship.Log.{Log, leo}
use logship.Log.Chain.{LogHolds, records}
use logship.Log.Stretch.{stretch}
use logship.Log.Read.{read-LogHolds}
use logship.Node.Fetch.{to_wire, fetch_log, fetch_log-served, fetch_bytes, max_offset}
use logship.Protocol.Json.{IsText, response_over_json, over_json}
use logship.Node.Replicate.{response, to_wire-text}
use logship.Commands.Consume.{
  Options, Consumer, Positions, Session, set_position, start_missing, start_positions,
  fetched_positions, initial_positions, assigned, synced, session_of, consume_rounds,
  consume_session,
}
use logship.Commands.Consume.Lines.{Counted}
use logship.Commands.Consume.Order.{Shown, Serves, consume_rounds-Shown}

start_missing-kept :
    (opts : Options) (metadata : ℤ → Option Metadata) (q : ℤ) (found : Option ℤ) (m : Positions)
    (p o : ℤ)
    → m q ≡ found
    → m p ≡ some o
    → start_missing opts metadata q found m p ≡ some o
unfolding start_missing set_position
start_missing-kept opts metadata q (some x) m p o e h = h
start_missing-kept opts metadata q none m p o e h = elim (Bool-cases (eq_ℤ p q)) [
  | inl same ↦ cc (ap m (eq_ℤ→eq p q same))
  | inr other ↦ rw other h
]

start_positions-kept :
    (opts : Options) (metadata : ℤ → Option Metadata) (ps : List ℤ) (m : Positions) (p o : ℤ)
    → m p ≡ some o
    → start_positions opts metadata ps m p ≡ some o
unfolding start_positions
start_positions-kept opts metadata [] m p o h = h
start_positions-kept opts metadata (q ∷ ps) m p o h =
    start_positions-kept opts metadata ps (start_missing opts metadata q (m q) m) p o
      (start_missing-kept opts metadata q (m q) m p o refl h)

-- A session that is joined and synced is its rounds, from a state with the committed offset.
pub consume_session-rounds :
    (opts : Options) (p : ℤ) (from : ℕ) (x : Session) (jr : JoinResponse) (sr : SyncResponse)
    (s : Consumer)
    → x.join ≡ some jr
    → x.sync ≡ some sr
    → fetched_positions x.fetched p ≡ some (pos from)
    → (begin : Consumer) × (consume_session opts x s
        ≡ consume_rounds opts (assigned opts.topic sr.assignment) x.rounds 0 begin)
      × (begin.offsets p ≡ some (pos from))
unfolding consume_session session_of synced initial_positions
consume_session-rounds opts p from x jr sr s joined synced stored =
    let parts = assigned opts.topic sr.assignment in
    (
      record s { offsets = start_positions opts x.metadata parts (fetched_positions x.fetched) },
      rw (joined, synced) refl,
      start_positions-kept opts x.metadata parts (fetched_positions x.fetched) p (pos from) stored,
    )

take_zero : (rs : List WireRecord) → take 0 rs ≡ []
take_zero [] = refl
take_zero (r ∷ rs) = refl

-- A session that starts with the committed offset `from` of a partition, in a log with offsets that
-- count up from 0, whose cluster answers a fetch with records from the offset asked for on: it prints
-- the records of the partition from `from` on, each once and in order, and commits no offset past
-- what it has printed, whatever else happens and wherever it ends.
pub consume_session-Shown :
    (opts : Options) (p : ℤ) (all : List WireRecord) (from : ℕ) (x : Session) (jr : JoinResponse)
    (sr : SyncResponse) (s : Consumer)
    → x.join ≡ some jr
    → x.sync ≡ some sr
    → fetched_positions x.fetched p ≡ some (pos from)
    → Counted 0 all
    → from ≤ length all
    → All (λ r. Serves p all r.fetch) x.rounds
    → Shown p all from s (consume_session opts x s).1
unfolding consume_session session_of synced initial_positions
consume_session-Shown opts p all from x jr sr s joined synced stored counted inside serves =
    let parts = assigned opts.topic sr.assignment in
    let begin : Consumer = record s {
      offsets = start_positions opts x.metadata parts (fetched_positions x.fetched);
    } in
    let start : from + 0 ≡ from = omega arith in
    rw (joined, synced)
      (consume_rounds-Shown p all from counted s opts parts x.rounds 0 begin serves (record {
        k = 0;
        at = rw start (
            start_positions-kept opts x.metadata parts (fetched_positions x.fetched) p (pos from)
              stored);
        inside = omega (arith, inside);
        lines = sym (append-nil _);
        new = [];
        sent = sym (append-nil s.commits);
        reached = tt;
      }))

to_wire-append : (rs ss : List Record) → to_wire (rs ++ ss) ≡ to_wire rs ++ to_wire ss
unfolding to_wire
to_wire-append [] ss = refl
to_wire-append (r ∷ rs) ss =
    ap
      (λ l. record { offset = r.offset; timestamp = r.timestamp; key = r.key; value = r.value } ∷ l)
      (to_wire-append rs ss)

drop-append_split :
    (n : ℕ) (rs ss : List Record) → drop n (rs ++ ss) ≡ drop n rs ++ drop (n - length rs) ss
drop-append_split zero [] ss = refl
drop-append_split zero (r ∷ rs) ss = let e : 0 - suc (length rs) ≡ 0 = omega arith in rw e refl
drop-append_split (suc n) [] ss = let e : suc n - 0 ≡ suc n = omega arith in rw e refl
drop-append_split (suc n) (r ∷ rs) ss =
    let e : suc n - suc (length rs) ≡ n - length rs = omega arith in
    rw e (drop-append_split n rs ss)

pub to_wire-drop : (n : ℕ) (rs : List Record) → drop n (to_wire rs) ≡ to_wire (drop n rs)
unfolding to_wire
to_wire-drop zero rs = refl
to_wire-drop (suc n) [] = refl
to_wire-drop (suc n) (r ∷ rs) = to_wire-drop n rs

-- The leader's log at the time of a fetch, of at most 1 MiB, with keys and values of UTF-8: `all` is what
-- the log comes to hold.
pub record Led (topic : Bytes) (p : ℤ) (all : List Record) (fetch : ℤ → ℤ → Option FetchResponse)
    : Type 0 where
  pub log : Log
  pub parts : List (List Record)
  pub last : List Record
  pub later : List Record
  pub held : LogHolds 0 log parts last
  pub split : all ≡ records parts last ++ later
  pub small : size_of (records parts last) ≤ 2 ^ 20
  pub text : All IsText (records parts last)
  pub end : log.hw ≤ leo log
  pub answers :
      (o : ℕ) → fetch p (pos o) ≡ response (fetch_log false topic p (pos o) (pos 1048576) log)

size_of-take : (n : ℕ) (rs : List Record) → size_of (take n rs) ≤ size_of rs
size_of-take n rs =
    omega (arith, ap size_of (take-append-drop n rs), size_of-append (take n rs) (drop n rs))

size_of-drop : (n : ℕ) (rs : List Record) → size_of (drop n rs) ≤ size_of rs
size_of-drop n rs =
    omega (arith, ap size_of (take-append-drop n rs), size_of-append (take n rs) (drop n rs))

pub fetched_window :
    (topic : Bytes) (p : ℤ) (l : Log) (parts : List (List Record)) (last : List Record) (o : ℕ)
    → LogHolds 0 l parts last
    → size_of (records parts last) ≤ 2 ^ 20
    → All IsText (records parts last)
    → response (fetch_log false topic p (pos o) (pos 1048576) l)
      ≡ some record {
        topic = over_json topic;
        partition = p;
        high_watermark = l.hw;
        log_end_offset = leo l;
        records = to_wire (take (l.hw - o) (drop o (records parts last)));
      }
unfolding fetch_bytes max_offset response response_over_json
fetched_window topic p l parts last o h small text =
    let got = take (l.hw - o) (drop o (records parts last)) in
    let room : size_of got ≤ 2 ^ 20 = omega (
      arith,
      size_of-take (l.hw - o) (drop o (records parts last)),
      size_of-drop o (records parts last),
      small,
    ) in
    let start : o - 0 ≡ o = omega arith in
    let same : stretch 0 o l.hw (records parts last) ≡ got =
      ap (λ k. take (l.hw - o) (drop k (records parts last))) start in
    ap response (
      fetch_log-served false topic p (pos o) (pos 1048576) l got (
        read-LogHolds 0 l parts last o (pos 1048576) (pos l.hw) h (omega arith) (rw same room)
        ∙ ap ok same))
    ∙ ap
        (λ ws. some (record {
          topic = over_json topic;
          partition = p;
          high_watermark = l.hw;
          log_end_offset = leo l;
          records = ws;
        }))
        (to_wire-text got (
          All-take IsText (l.hw - o) (drop o (records parts last))
            (All-drop IsText o (records parts last) text)))

-- Such a leader answers with the committed records from the offset on.
pub Led-Serves :
    (topic : Bytes) (p : ℤ) (all : List Record) (fetch : ℤ → ℤ → Option FetchResponse)
    → Led topic p all fetch
    → Serves p (to_wire all) fetch
Led-Serves topic p all fetch h o fr e = (
  to_wire rest,
  to_wire-drop o all
      ∙ ap to_wire parted
      ∙ to_wire-append got rest
      ∙ ap (λ w. w ++ to_wire rest) (ap wire_of (sym answered ∙ sym (h.answers o) ∙ e)),
)
  where
    whole : List Record
    whole = records h.parts h.last

    got : List Record
    got = take (h.log.hw - o) (drop o whole)

    rest : List Record
    rest = drop (h.log.hw - o) (drop o whole) ++ drop (o - length whole) h.later

    parted : drop o all ≡ got ++ rest
    parted =
        ap (drop o) h.split
        ∙ drop-append_split o whole h.later
        ∙ ap (λ l. l ++ drop (o - length whole) h.later)
            (sym (take-append-drop (h.log.hw - o) (drop o whole)))
        ∙ append_assoc got (drop (h.log.hw - o) (drop o whole)) (drop (o - length whole) h.later)

    wire_of : Option FetchResponse → List WireRecord
    wire_of none = []
    wire_of (some x) = x.records

    answered :
        response (fetch_log false topic p (pos o) (pos 1048576) h.log)
        ≡ some record {
          topic = over_json topic;
          partition = p;
          high_watermark = h.log.hw;
          log_end_offset = leo h.log;
          records = to_wire got;
        }
    answered = fetched_window topic p h.log h.parts h.last o h.held h.small h.text

pub Counted-to_wire :
    (base : ℕ) (rs : List Record) → Consecutive base rs → Counted base (to_wire rs)
unfolding to_wire
Counted-to_wire base [] c = tt
Counted-to_wire base (r ∷ rs) c =
    let next : base + 1 ≡ suc base = omega arith in
    (c.0, Counted-to_wire (suc base) rs (subst (λ b. Consecutive b rs) next c.1))

pub length-to_wire : (rs : List Record) → length (to_wire rs) ≡ length rs
unfolding to_wire
length-to_wire [] = refl
length-to_wire (r ∷ rs) = ap suc (length-to_wire rs)
