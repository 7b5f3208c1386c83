-- ===== src/Commands/Consume/AtLeastOnce.antt =====
-- `consumeCmd` of cmd/logship-cli/main.go over any number of sessions.
use logship.Prelude.{
  arith, ℕ, ◌+◌, ◌-◌, ◌≡◌, ◌≤◌, ◌⊎◌, refl, sym, ap, subst, ◌∙◌, true, Option, none, some, List, [],
  ◌∷◌, ◌++◌, All, All-append, All-take, All-map, All-OneOf, OneOf, OneOf-append, OneOf-append_right,
  OneOf-all, Bytes, take-plus, take-take, length, take, drop, drop-drop, inl, inr,
}
use native.Mathlib.Decide.{dec_le}
use logship.Prelude.Int.{ℤ, pos, negsuc, eq_ℤ}
use logship.Record.{Record}
use logship.Segment.Contents.{Consecutive}
use logship.Node.Fetch.{to_wire}
use logship.Protocol.{WireRecord, FetchResponse, JoinResponse, SyncResponse, OffsetCommit}
use logship.Commands.Consume.{
  Options, Consumer, Session, Outcome, finished, failed, rejoins, waiting, fetched_positions,
  consume_session, session_of, next_session, consume,
}
use logship.Commands.Consume.Lines.{lines_of, Counted}
use logship.Commands.Consume.Order.{Shown, Serves, IsReached}
use logship.Commands.Consume.Resume.{Led, Led-Serves, Counted-to_wire, consume_session-Shown}

-- All records of the partition from `first` up to some end were printed, and no commit goes past the
-- end.
pub record Covers (p : ℤ) (all : List WireRecord) (first : ℕ) (s : Consumer) : Type 0 where
  pub end : ℕ
  pub begun : first ≤ end
  pub inside : end ≤ length all
  pub printed : All (OneOf (lines_of p s.lines)) (take (end - first) (drop first all))
  pub reached : All (IsReached p end) s.commits

-- A session starts at the first offset, or at one that the command has committed before.
pub record Resumes (p : ℤ) (first : ℕ) (s : Consumer) (x : Session) : Type 0 where
  pub from : ℕ
  pub stored : fetched_positions x.fetched p ≡ some (pos from)
  pub behind : first ≤ from
  pub known :
      (from ≡ first)
      ⊎ ((c : OffsetCommit) × OneOf s.commits c
          × (eq_ℤ c.partition p ≡ true)
          × (c.offset ≡ pos from))

-- What a cluster answers to the fetches of a round.
abbrev pub Answers : Type 0
Answers = ℤ → ℤ → Option FetchResponse

-- Every session that is joined and synced does, and the cluster answers as `P` says.
abbrev pub Coherent : Options → ℤ → (Answers → Type 0) → ℕ → List Session → Consumer → Type 0
Coherent opts p P first [] s = Unit
Coherent opts p P first (x ∷ xs) s =
    ((jr : JoinResponse) (sr : SyncResponse)
      → x.join ≡ some jr
      → x.sync ≡ some sr
      → Resumes p first s x)
    × All (λ r. P r.fetch) x.rounds
    × Coherent opts p P first xs (consume_session opts x s).1

-- A leader with this log answers, or an error comes instead.
pub record LedOrFails (topic : Bytes) (p : ℤ) (all : List Record) (fetch : Answers) : Type 0 where
  pub answers : Answers
  pub led : Led topic p all answers
  pub comes : (o : ℕ) → (fetch p (pos o) ≡ none) ⊎ (fetch p (pos o) ≡ answers p (pos o))

LedOrFails-Serves :
    (topic : Bytes) (p : ℤ) (all : List Record) (fetch : Answers)
    → LedOrFails topic p all fetch
    → Serves p (to_wire all) fetch
LedOrFails-Serves topic p all fetch h o fr e = elim (h.comes o) [
  | inl nothing ↦ let bad : none ≡ some fr = sym nothing ∙ e in cc
  | inr same ↦ Led-Serves topic p all h.answers h.led o fr (sym same ∙ e)
]

Coherent-map :
    (opts : Options) (p : ℤ) (P Q : Answers → Type 0) (first : ℕ) (xs : List Session) (s : Consumer)
    → ((fetch : Answers) → P fetch → Q fetch)
    → Coherent opts p P first xs s
    → Coherent opts p Q first xs s
Coherent-map opts p P Q first [] s f h = tt
Coherent-map opts p P Q first (x ∷ xs) s f (resumes, answered, later) = (
  resumes,
  All-map x.rounds (λ r a. f r.fetch a) answered,
  Coherent-map opts p P Q first xs (consume_session opts x s).1 f later,
)

abbrev value : ℤ → ℕ
value (pos n) = n
value (negsuc n) = 0

module _ (opts : Options) (p : ℤ) (all : List WireRecord) (first : ℕ)
    (counted : Counted 0 all) where
  from-end :
      (s : Consumer) (x : Session) (h : Covers p all first s) (r : Resumes p first s x)
      → r.from ≤ h.end
  from-end s x h r = elim r.known [
    | inl same ↦ omega (arith, same, h.begun)
    | inr (c, sent, own, at) ↦
        let (o, e, le) = All-OneOf (IsReached p h.end) s.commits c h.reached sent own in
        let same : r.from ≡ o = ap value (sym at ∙ e) in omega (arith, same, le)
  ]

  kept :
      (s s' : Consumer) (from : ℕ) (shown : Shown p all from s s') (rs : List WireRecord)
      → All (OneOf (lines_of p s.lines)) rs
      → All (OneOf (lines_of p s'.lines)) rs
  kept s s' from shown rs h =
      subst (λ l. All (OneOf l) rs) (sym shown.lines)
        (All-map rs (λ r at. OneOf-append (lines_of p s.lines) (take shown.k (drop from all)) r at)
          h)

  further :
      (s s' : Consumer) (from : ℕ) (shown : Shown p all from s s')
      → All (OneOf (lines_of p s'.lines)) (take shown.k (drop from all))
  further s s' from shown =
      let new = take shown.k (drop from all) in
      subst (λ l. All (OneOf l) new) (sym shown.lines)
        (OneOf-all (lines_of p s.lines ++ new) new
          (λ r at. OneOf-append_right (lines_of p s.lines) new r at))

  commits-IsReached :
      (s s' : Consumer) (from end end' : ℕ) (shown : Shown p all from s s')
      → All (IsReached p end) s.commits
      → end ≤ end'
      → from + shown.k ≤ end'
      → All (IsReached p end') s'.commits
  commits-IsReached s s' from end end' shown h old new =
      subst (All (IsReached p end')) (sym shown.sent) (
        All-append (IsReached p end') s.commits shown.new
          (All-map s.commits (λ c r. later c end old r) h)
          (All-map shown.new (λ c r. later c (from + shown.k) new r) shown.reached))
    where
      later : (c : OffsetCommit) (e : ℕ) → e ≤ end' → IsReached p e c → IsReached p end' c
      later c e le r own = let (o, at, reached) = r own in (o, at, omega (arith, reached, le))

  Shown-Covers :
      (s s' : Consumer) (from : ℕ) (h : Covers p all first s)
      → first ≤ from
      → from ≤ h.end
      → Shown p all from s s'
      → Covers p all first s'
  Shown-Covers s s' from h lo hi shown = elim (dec_le (from + shown.k) h.end) [
    | yes within ↦ record {
      end = h.end;
      begun = h.begun;
      inside = h.inside;
      printed = kept s s' from shown (take (h.end - first) (drop first all)) h.printed;
      reached = commits-IsReached s s' from h.end h.end shown h.reached (omega arith) within;
    }
    | no past ↦ record {
      end = from + shown.k;
      begun = omega arith;
      inside = shown.inside;
      printed = printed_past;
      reached =
          commits-IsReached s s' from h.end (from + shown.k) shown h.reached (omega arith)
            (omega arith);
    }
  ]
    where
      whole : List WireRecord
      whole = drop first all

      gap : ℕ
      gap = from - first

      first_part : All (OneOf (lines_of p s'.lines)) (take gap whole)
      first_part =
          subst (All (OneOf (lines_of p s'.lines)))
            (take-take gap (h.end - first) whole (omega (arith, hi, lo)))
            (All-take (OneOf (lines_of p s'.lines)) gap (take (h.end - first) whole)
              (kept s s' from shown (take (h.end - first) whole) h.printed))

      start : first + gap ≡ from
      start = omega (arith, lo)

      parted : take (from + shown.k - first) whole ≡ take gap whole ++ take shown.k (drop from all)
      parted =
          ap (λ n. take n whole) (omega (arith, lo))
          ∙ take-plus gap shown.k whole
          ∙ ap (λ l. take gap whole ++ take shown.k l)
              (drop-drop gap first all ∙ ap (λ n. drop n all) start)

      printed_past : All (OneOf (lines_of p s'.lines)) (take (from + shown.k - first) whole)
      printed_past = subst (All (OneOf (lines_of p s'.lines))) (sym parted) (
          All-append (OneOf (lines_of p s'.lines)) (take gap whole) (take shown.k (drop from all))
            first_part (further s s' from shown))

  unjoined : (x : Session) (s : Consumer) → x.join ≡ none → (consume_session opts x s).1 ≡ s
  unfolding consume_session session_of
  unjoined x s e = rw e refl

  unsynced :
      (x : Session) (s : Consumer) (jr : JoinResponse)
      → x.join ≡ some jr
      → x.sync ≡ none
      → (consume_session opts x s).1 ≡ s
  unfolding consume_session session_of
  unsynced x s jr ej es = rw (ej, es) refl

  session-Covers :
      (x : Session) (s : Consumer) (join : Option JoinResponse) (sync : Option SyncResponse)
      → x.join ≡ join
      → x.sync ≡ sync
      → ((jr : JoinResponse) (sr : SyncResponse)
          → x.join ≡ some jr
          → x.sync ≡ some sr
          → Resumes p first s x)
      → All (λ r. Serves p all r.fetch) x.rounds
      → Covers p all first s
      → Covers p all first (consume_session opts x s).1
  session-Covers x s none sync ej es resumes serves h =
      subst (Covers p all first) (sym (unjoined x s ej)) h
  session-Covers x s (some jr) none ej es resumes serves h =
      subst (Covers p all first) (sym (unsynced x s jr ej es)) h
  session-Covers x s (some jr) (some sr) ej es resumes serves h =
      let r = resumes jr sr ej es in
      let le = from-end s x h r in
      Shown-Covers s (consume_session opts x s).1 r.from h r.behind le (
        consume_session-Shown opts p all r.from x jr sr s ej es r.stored counted
          (omega (arith, le, h.inside)) serves)

  next-Covers :
      (out : Outcome × Consumer) (rest : Consumer → Outcome × Consumer)
      → Covers p all first out.1
      → Covers p all first (rest out.1).1
      → Covers p all first (next_session out rest).1
  unfolding next_session
  next-Covers (rejoins, s) rest h later = later
  next-Covers (finished, s) rest h later = h
  next-Covers (failed, s) rest h later = h
  next-Covers (waiting, s) rest h later = h

  served-Covers :
      (xs : List Session) (s : Consumer)
      → Coherent opts p (Serves p all) first xs s
      → Covers p all first s
      → Covers p all first (consume opts xs s).1
  unfolding consume
  served-Covers [] s c h = h
  served-Covers (x ∷ xs) s (resumes, serves, later) h =
      let h' = session-Covers x s x.join x.sync refl refl resumes serves h in
      next-Covers (consume_session opts x s) (consume opts xs) h'
        (served-Covers xs (consume_session opts x s).1 later h')

-- At least once: over any sessions of the command that each start at the first offset or at one that it
-- has committed before, all records from the first offset to any that was committed are printed, however
-- the sessions end. Each fetch fails or comes from a leader whose log, of UTF-8 and numbered from 0, grows
-- to `all` and is at most 1 MiB whenever it is asked.
pub consume-Covers :
    (opts : Options) (p : ℤ) (all : List Record) (first : ℕ) (xs : List Session) (s : Consumer)
    → Consecutive 0 all
    → Coherent opts p (LedOrFails opts.topic p all) first xs s
    → Covers p (to_wire all) first s
    → Covers p (to_wire all) first (consume opts xs s).1
consume-Covers opts p all first xs s numbered coherent =
    served-Covers opts p (to_wire all) first (Counted-to_wire 0 all numbered) xs s (
      Coherent-map opts p (LedOrFails opts.topic p all) (Serves p (to_wire all)) first xs s
        (LedOrFails-Serves opts.topic p all) coherent)
