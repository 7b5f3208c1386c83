-- ===== src/Commands/Consume/Order.antt =====
-- What `consumeCmd` of cmd/logship-cli/main.go prints of one partition in a session, and what it
-- commits.
use logship.Prelude.{
  arith, ℕ, suc, ◌+◌, ◌≡◌, ◌≤◌, refl, sym, ap, subst, ◌∙◌, Bool, true, false, ◌&&◌, Option, none,
  some, List, [], ◌∷◌, ◌++◌, append_assoc, append-nil, All, All-append, All-map, length, take, drop,
  drop-drop, ltb, ◌==◌, Bool-cases, inl, inr, either_branch,
}
use logship.Prelude.Int.{ℤ, pos, ltb_ℤ, leb_ℤ, eq_ℤ, eq_ℤ_refl, eq_ℤ→eq}
use logship.Protocol.{WireRecord, FetchResponse, OffsetCommit}
use logship.Commands.Consume.{
  Options, Consumer, Progress, Round, Outcome, set_position, or_zero, position, commit_position,
  print_record, print_records, committed, answered, consume_partition, and_then, consume_partitions,
  refuses, consume_rounds,
}
use logship.Commands.Consume.Lines.{
  lines_of, lines_of-append, Counted, Counted-drop, take_next, inside_drop, drop_next,
}

-- What a cluster with this log of a partition answers: the records from the offset on, not all of them
-- perhaps.
abbrev pub Serves : ℤ → List WireRecord → (ℤ → ℤ → Option FetchResponse) → Type 0
Serves p all fetch =
    (o : ℕ) (fr : FetchResponse)
    → fetch p (pos o) ≡ some fr
    → (rest : List WireRecord) × (drop o all ≡ fr.records ++ rest)

-- A commit of the partition `p` at `end` or before.
abbrev pub IsReached : ℤ → ℕ → OffsetCommit → Type 0
IsReached p end c = eq_ℤ c.partition p ≡ true → (o : ℕ) × (c.offset ≡ pos o) × (o ≤ end)

-- Since `s0` the records of `all` from `from` on were printed of the partition `p`, `k` of them, each
-- once and in order, and no commit that was sent since then goes past them.
pub record Shown (p : ℤ) (all : List WireRecord) (from : ℕ) (s0 s : Consumer) : Type 0 where
  pub k : ℕ
  pub at : s.offsets p ≡ some (pos (from + k))
  pub inside : from + k ≤ length all
  pub lines : lines_of p s.lines ≡ lines_of p s0.lines ++ take k (drop from all)
  pub new : List OffsetCommit
  pub sent : s.commits ≡ s0.commits ++ new
  pub reached : All (IsReached p (from + k)) new

module _ (p : ℤ) (all : List WireRecord) (from : ℕ) (counted : Counted 0 all) (s0 : Consumer)
    (opts : Options) where
  print_record-Shown :
      (s : Consumer) (r : WireRecord) (rest : List WireRecord) (h : Shown p all from s0 s)
      → drop (from + h.k) all ≡ r ∷ rest
      → (h' : Shown p all from s0 (print_record p r s)) × (h'.k ≡ suc h.k)
  unfolding print_record set_position lines_of
  print_record-Shown s r rest h e =
      let numbered = Counted-drop (from + h.k) 0 all rest r counted e in
      let end : r.offset + 1 ≡ from + suc h.k = omega (arith, numbered) in
      let here : drop h.k (drop from all) ≡ r ∷ rest = drop-drop h.k from all ∙ e in
      (
        record {
          k = suc h.k;
          at = rw (eq_ℤ_refl p, end) refl;
          inside = omega (arith, inside_drop (from + h.k) all rest r e);
          lines =
              lines_of-append p s.lines (record { partition = p; printed = r } ∷ [])
              ∙ rw (eq_ℤ_refl p, h.lines) refl
              ∙ append_assoc (lines_of p s0.lines) (take h.k (drop from all)) (r ∷ [])
              ∙ ap (λ l. lines_of p s0.lines ++ l)
                  (sym (take_next h.k (drop from all) rest r here));
          new = h.new;
          sent = h.sent;
          reached =
              All-map h.new
                (λ c reached same. let (o, e, le) = reached same in (o, e, omega (arith, le)))
                h.reached;
        },
        refl,
      )

  print_record-other :
      (q : ℤ) (s : Consumer) (r : WireRecord)
      → eq_ℤ p q ≡ false
      → Shown p all from s0 s
      → Shown p all from s0 (print_record q r s)
  unfolding print_record set_position lines_of
  print_record-other q s r other h = record {
    k = h.k;
    at = rw other h.at;
    inside = h.inside;
    lines =
        lines_of-append p s.lines (record { partition = q; printed = r } ∷ [])
        ∙ rw other (append-nil (lines_of p s.lines))
        ∙ h.lines;
    new = h.new;
    sent = h.sent;
    reached = h.reached;
  }

  commit_position-Shown :
      (q : ℤ) (s : Consumer)
      → Shown p all from s0 s
      → Shown p all from s0 (commit_position opts q s)
  unfolding commit_position position or_zero
  commit_position-Shown q s h = record {
    k = h.k;
    at = h.at;
    inside = h.inside;
    lines = h.lines;
    new = h.new ++ record { topic = opts.topic; partition = q; offset = position q s } ∷ [];
    sent =
        ap (λ l. l ++ record { topic = opts.topic; partition = q; offset = position q s } ∷ [])
          h.sent
        ∙ append_assoc s0.commits h.new
            (record { topic = opts.topic; partition = q; offset = position q s } ∷ []);
    reached =
        All-append (IsReached p (from + h.k)) h.new
          (record { topic = opts.topic; partition = q; offset = position q s } ∷ []) h.reached
          (
            (λ same. (
              from + h.k,
              ap (λ x. or_zero (s.offsets x)) (eq_ℤ→eq q p same) ∙ ap or_zero h.at,
              omega arith,
            )),
            tt,
          );
  }

  print_records-Shown :
      (rs : List WireRecord) (s : Consumer) (rest : List WireRecord) (h : Shown p all from s0 s)
      → drop (from + h.k) all ≡ rs ++ rest
      → Shown p all from s0 (print_records opts p rs s).1
  unfolding print_records
  print_records-Shown [] s rest h e = h
  print_records-Shown (r ∷ rs) s rest h e =
      let s' = print_record p r s in
      let (h', next) = print_record-Shown s r (rs ++ rest) h e in
      let further : from + h'.k ≡ suc (from + h.k) = omega (arith, next) in
      let later : drop (from + h'.k) all ≡ rs ++ rest =
        ap (λ n. drop n all) further ∙ drop_next (from + h.k) all (rs ++ rest) r e in
      either_branch (λ (x : Bool × Consumer). Shown p all from s0 x.1)
        (ltb_ℤ (pos 0) opts.max && leb_ℤ opts.max (pos s'.printed)) (commit_position-Shown p s' h')
        (print_records-Shown rs s' rest h' later)

  print_records-other :
      (q : ℤ) (rs : List WireRecord) (s : Consumer)
      → eq_ℤ p q ≡ false
      → Shown p all from s0 s
      → Shown p all from s0 (print_records opts q rs s).1
  unfolding print_records
  print_records-other q [] s other h = h
  print_records-other q (r ∷ rs) s other h =
      let s' = print_record q r s in
      let h' = print_record-other q s r other h in
      either_branch (λ (x : Bool × Consumer). Shown p all from s0 x.1)
        (ltb_ℤ (pos 0) opts.max && leb_ℤ opts.max (pos s'.printed)) (commit_position-Shown q s' h')
        (print_records-other q rs s' other h')

  committed-Shown :
      (q : ℤ) (x : Bool × Consumer)
      → Shown p all from s0 x.1
      → Shown p all from s0 (committed opts q x).state
  unfolding committed
  committed-Shown q (true, s) h = h
  committed-Shown q (false, s) h = commit_position-Shown q s h

  answered-Shown :
      (s : Consumer) (h : Shown p all from s0 s) (o : Option FetchResponse)
      → ((fr : FetchResponse)
          → o ≡ some fr
          → (rest : List WireRecord) × (drop (from + h.k) all ≡ fr.records ++ rest))
      → Shown p all from s0 (answered opts p o s).state
  unfolding answered
  answered-Shown s h none serves = h
  answered-Shown s h (some fr) serves =
      let (rest, e) = serves fr refl in
      either_branch (λ (g : Progress). Shown p all from s0 g.state) (length fr.records == 0) h
        (committed-Shown p (print_records opts p fr.records s)
          (print_records-Shown fr.records s rest h e))

  answered-other :
      (q : ℤ) (s : Consumer) (o : Option FetchResponse)
      → eq_ℤ p q ≡ false
      → Shown p all from s0 s
      → Shown p all from s0 (answered opts q o s).state
  unfolding answered
  answered-other q s none other h = h
  answered-other q s (some fr) other h =
      either_branch (λ (g : Progress). Shown p all from s0 g.state) (length fr.records == 0) h
        (committed-Shown q (print_records opts q fr.records s)
          (print_records-other q fr.records s other h))

  pub consume_partition-Shown :
      (fetch : ℤ → ℤ → Option FetchResponse) (q : ℤ) (s : Consumer)
      → Serves p all fetch
      → Shown p all from s0 s
      → Shown p all from s0 (consume_partition opts fetch q s).state
  unfolding consume_partition position or_zero
  consume_partition-Shown fetch q s serves h = elim (Bool-cases (eq_ℤ p q)) [
    | inr other ↦ answered-other q s (fetch q (position q s)) other h
    | inl same ↦
        subst (λ x. Shown p all from s0 (answered opts x (fetch x (position x s)) s).state)
          (eq_ℤ→eq p q same)
          (answered-Shown s h (fetch p (position p s))
            (λ fr e. serves (from + h.k) fr (ap (λ o. fetch p (or_zero o)) (sym h.at) ∙ e)))
  ]

  consume_partitions-Shown :
      (fetch : ℤ → ℤ → Option FetchResponse) (ps : List ℤ) (s : Consumer)
      → Serves p all fetch
      → Shown p all from s0 s
      → Shown p all from s0 (consume_partitions opts fetch ps s).state
  unfolding consume_partitions and_then
  consume_partitions-Shown fetch [] s serves h = h
  consume_partitions-Shown fetch (q ∷ ps) s serves h =
      let g = consume_partition opts fetch q s in
      let first = consume_partition-Shown fetch q s serves h in
      either_branch (λ (g : Progress). Shown p all from s0 g.state) g.over first
        (consume_partitions-Shown fetch ps g.state serves first)

  pub consume_rounds-Shown :
      (parts : List ℤ) (rs : List Round) (idle : ℕ) (s : Consumer)
      → All (λ r. Serves p all r.fetch) rs
      → Shown p all from s0 s
      → Shown p all from s0 (consume_rounds opts parts rs idle s).1
  unfolding consume_rounds
  consume_rounds-Shown parts [] idle s serves h = h
  consume_rounds-Shown parts (r ∷ rs) idle s serves h =
      let g = consume_partitions opts r.fetch parts s in
      let h' = consume_partitions-Shown r.fetch parts s serves.0 h in
      let P = λ (x : Outcome × Consumer). Shown p all from s0 x.1 in
      either_branch P (refuses r.heartbeat) h (
        either_branch P g.over h' (
          either_branch P g.progress (consume_rounds-Shown parts rs idle g.state serves.1 h') (
            either_branch P (ltb_ℤ (pos 0) opts.max && ltb 25 (idle + 1)) h'
              (consume_rounds-Shown parts rs (idle + 1) g.state serves.1 h'))))
