-- ===== src/Commands/Consume/Printed.antt =====
-- What an answer with records does to the position of a partition in `consumeCmd` of
-- cmd/logship-cli/main.go, without a limit on their number.
use logship.Prelude.{
  arith, ℕ, zero, suc, ◌+◌, ◌-◌, ◌≡◌, refl, ap, subst, ◌∙◌, Bool, true, false, Option, none, some,
  List, [], ◌∷◌, length, take, drop, ◌==◌, Bool-cases, inl, inr, ==_iff,
}
use logship.Prelude.Int.{ℤ, pos, ltb_ℤ, eq_ℤ_refl}
use logship.Protocol.{WireRecord, FetchResponse}
use logship.Record.{Record}
use logship.Node.Fetch.{to_wire}
use logship.Commands.Consume.{
  Options, Consumer, set_position, or_zero, position, commit_position, print_record, print_records,
  committed, answered, consume_partition, and_then, consume_partitions,
}
use logship.Commands.Consume.Lines.{Counted}
use logship.Commands.Consume.Resume.{to_wire-drop}

pub Counted-take : (m base : ℕ) (rs : List WireRecord) → Counted base rs → Counted base (take m rs)
Counted-take zero base rs c = tt
Counted-take (suc m) base [] c = tt
Counted-take (suc m) base (r ∷ rs) c = (c.0, Counted-take m (suc base) rs c.1)

pub Counted-skip :
    (n base : ℕ) (rs : List WireRecord) → Counted base rs → Counted (base + n) (drop n rs)
Counted-skip zero base rs c = subst (λ b. Counted b rs) (omega arith) c
Counted-skip (suc n) base [] c = tt
Counted-skip (suc n) base (r ∷ rs) c =
    subst (λ b. Counted b (drop n rs)) (omega arith) (Counted-skip n (suc base) rs c.1)

to_wire-take : (n : ℕ) (rs : List Record) → take n (to_wire rs) ≡ to_wire (take n rs)
unfolding to_wire
to_wire-take zero rs = refl
to_wire-take (suc n) [] = refl
to_wire-take (suc n) (r ∷ rs) =
    ap
      (λ l. record { offset = r.offset; timestamp = r.timestamp; key = r.key; value = r.value } ∷ l)
      (to_wire-take n rs)

pub window_wire :
    (n hw : ℕ) (rs : List Record)
    → take (hw - n) (drop n (to_wire rs)) ≡ to_wire (take (hw - n) (drop n rs))
window_wire n hw rs = ap (take (hw - n)) (to_wire-drop n rs) ∙ to_wire-take (hw - n) (drop n rs)

abbrev pub value : Option ℤ → ℕ
value (some (pos n)) = n
value other = 0

module _ (p : ℤ) (opts : Options) (unlimited : ltb_ℤ (pos 0) opts.max ≡ false) where
  -- Records that are numbered from the position on are all printed.
  print_records-all :
      (rs : List WireRecord) (s : Consumer) (n : ℕ)
      → s.offsets p ≡ some (pos n)
      → Counted n rs
      → ((print_records opts p rs s).0 ≡ false)
        × ((print_records opts p rs s).1.offsets p ≡ some (pos (n + length rs)))
  unfolding print_records
  print_records-all [] s n at c = let e : n + 0 ≡ n = omega arith in (refl, rw e at)
  print_records-all (r ∷ rs) s n at c =
      let moved : (print_record p r s).offsets p ≡ some (pos (suc n)) =
        unfold print_record in
        unfold set_position in rw (eq_ℤ_refl p, c.0) (ap (λ m. some (pos m)) (omega arith)) in
      let (goes_on, there) = print_records-all rs (print_record p r s) (suc n) moved c.1 in
      let e : suc n + length rs ≡ n + suc (length rs) = omega arith in
      rw unlimited (goes_on, there ∙ ap (λ m. some (pos m)) e)

  print_records-over :
      (q : ℤ) (rs : List WireRecord) (s : Consumer) → (print_records opts q rs s).0 ≡ false
  unfolding print_records
  print_records-over q [] s = refl
  print_records-over q (r ∷ rs) s = rw unlimited (print_records-over q rs (print_record q r s))

  committed-over : (q : ℤ) (x : Bool × Consumer) → x.0 ≡ false → (committed opts q x).over ≡ false
  unfolding committed
  committed-over q (true, s) e = cc
  committed-over q (false, s) e = refl

  answered-over :
      (q : ℤ) (o : Option FetchResponse) (s : Consumer) → (answered opts q o s).over ≡ false
  unfolding answered
  answered-over q none s = refl
  answered-over q (some fr) s = elim (Bool-cases (length fr.records == 0)) [
    | inl none_came ↦ rw none_came refl
    | inr some_came ↦
        rw some_came
          (committed-over q (print_records opts q fr.records s) (print_records-over q fr.records s))
  ]

  pub consume_partition-over :
      (fetch : ℤ → ℤ → Option FetchResponse) (q : ℤ) (s : Consumer)
      → (consume_partition opts fetch q s).over ≡ false
  unfolding consume_partition
  consume_partition-over fetch q s = answered-over q (fetch q (position q s)) s

  pub consume_partitions-over :
      (fetch : ℤ → ℤ → Option FetchResponse) (ps : List ℤ) (s : Consumer)
      → (consume_partitions opts fetch ps s).over ≡ false
  unfolding consume_partitions and_then consume_partition
  consume_partitions-over fetch [] s = refl
  consume_partitions-over fetch (q ∷ ps) s =
      let g = consume_partition opts fetch q s in
      rw (answered-over q (fetch q (position q s)) s)
        (consume_partitions-over fetch ps (consume_partition opts fetch q s).state)

  committed-at :
      (x : Bool × Consumer) (o : Option ℤ)
      → x.1.offsets p ≡ o
      → (committed opts p x).state.offsets p ≡ o
  unfolding committed commit_position
  committed-at (true, s) o e = e
  committed-at (false, s) o e = e

  -- An answer with records from the position on moves the position behind them.
  answered-at :
      (fr : FetchResponse) (s : Consumer) (n : ℕ)
      → s.offsets p ≡ some (pos n)
      → Counted n fr.records
      → (answered opts p (some fr) s).state.offsets p ≡ some (pos (n + length fr.records))
  unfolding answered
  answered-at fr s n at c = elim (Bool-cases (length fr.records == 0)) [
    | inl none_came ↦
        let e : n + length fr.records ≡ n =
          omega (arith, (==_iff (length fr.records) 0).0 none_came) in
        rw (none_came, e) at
    | inr some_came ↦ rw some_came (
        committed-at (print_records opts p fr.records s) (some (pos (n + length fr.records)))
          (print_records-all fr.records s n at c).1)
  ]

  pub consume_partition-at :
      (fetch : ℤ → ℤ → Option FetchResponse) (fr : FetchResponse) (s : Consumer) (n : ℕ)
      → s.offsets p ≡ some (pos n)
      → fetch p (pos n) ≡ some fr
      → Counted n fr.records
      → (consume_partition opts fetch p s).state.offsets p ≡ some (pos (n + length fr.records))
  unfolding consume_partition position or_zero
  consume_partition-at fetch fr s n at window c = rw (at, window) (answered-at fr s n at c)
