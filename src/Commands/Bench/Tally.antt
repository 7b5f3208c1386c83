-- ===== src/Commands/Bench/Tally.antt =====
-- What the scan of cmd/bench/main.go counts.
use logship.Prelude.{
  arith, ℕ, zero, suc, ◌+◌, ◌≡◌, ◌≤◌, ◌⊎◌, inl, inr, refl, ap, subst, Bool, true, false, ◌&&◌,
  Option, none, some, List, [], ◌∷◌, ◌++◌, All, length, length-append, length-drop, drop, ltb,
  Bool-cases, either_branch,
}
use logship.Prelude.Int.{ℤ, eq_ℤ, eq_ℤ→eq}
use logship.Protocol.{WireRecord, FetchResponse}
use logship.Commands.Consume.Lines.{Counted}
use logship.Commands.Bench.{
  Scan, set_offset, behind, counted, scanned, scan_partition, scan_round, scan,
}

abbrev pub sum_of : (ℤ → ℕ) → List ℤ → ℕ
sum_of m [] = 0
sum_of m (p ∷ ps) = m p + sum_of m ps

-- A partition that stands in the list just once.
abbrev pub Once : ℤ → List ℤ → Type 0
Once p [] = ⊥
Once p (q ∷ qs) =
    ((eq_ℤ q p ≡ true) × All (λ x. eq_ℤ x p ≡ false) qs) ⊎ ((eq_ℤ q p ≡ false) × Once p qs)

sum_of-absent :
    (p : ℤ) (o : ℕ) (m : ℤ → ℕ) (ps : List ℤ)
    → All (λ x. eq_ℤ x p ≡ false) ps
    → sum_of (set_offset p o m) ps ≡ sum_of m ps
unfolding set_offset
sum_of-absent p o m [] h = refl
sum_of-absent p o m (q ∷ qs) h = rw (h.0, sum_of-absent p o m qs h.1) refl

sum_of-set :
    (p : ℤ) (k : ℕ) (m : ℤ → ℕ) (ps : List ℤ)
    → Once p ps
    → sum_of (set_offset p (m p + k) m) ps ≡ sum_of m ps + k
unfolding set_offset
sum_of-set p k m [] h = absurd h
sum_of-set p k m (q ∷ qs) (inl (same, absent)) =
    let own : m q ≡ m p = ap m (eq_ℤ→eq q p same) in
    rw same (omega (arith, own, sum_of-absent p (m p + k) m qs absent))
sum_of-set p k m (q ∷ qs) (inr (other, once)) = rw other (omega (arith, sum_of-set p k m qs once))

Counted-from :
    (n base : ℕ) (rs : List WireRecord) → Counted base rs → Counted (base + n) (drop n rs)
Counted-from zero base rs c = let e : base + 0 ≡ base = omega arith in rw e c
Counted-from (suc n) base [] c = tt
Counted-from (suc n) base (r ∷ rs) c =
    let e : base + suc n ≡ suc base + n = omega arith in rw e (Counted-from n (suc base) rs c.1)

behind-Counted :
    (base : ℕ) (r : WireRecord) (rs rest : List WireRecord)
    → Counted base ((r ∷ rs) ++ rest)
    → behind r rs ≡ base + length (r ∷ rs)
unfolding behind
behind-Counted base r [] rest c = omega (arith, c.0)
behind-Counted base r (x ∷ xs) rest c = omega (arith, behind-Counted (suc base) x xs rest c.1)

module _ (logs : ℤ → List WireRecord) (numbered : (p : ℤ) → Counted 0 (logs p))
    (parts : List ℤ) where
  -- Answers with records of the logs from the offset on.
  abbrev pub Answers : (ℤ → ℕ → Option FetchResponse) → Type 0
  Answers fetch =
      (p : ℤ) (o : ℕ) (fr : FetchResponse)
      → fetch p o ≡ some fr
      → (rest : List WireRecord) × (drop o (logs p) ≡ fr.records ++ rest)

  -- The count is the sum of how far the partitions are read, and no log is read past its end.
  pub record Tally (s : Scan) : Type 0 where
    pub counted : s.consumed ≡ sum_of s.offs parts
    pub inside : (p : ℤ) → s.offs p ≤ length (logs p)

  counted-Tally :
      (p : ℤ) (s : Scan) (rs rest : List WireRecord)
      → Once p parts
      → drop (s.offs p) (logs p) ≡ rs ++ rest
      → Tally s
      → Tally (counted p rs s).1
  unfolding counted
  counted-Tally p s [] rest once e t = t
  counted-Tally p s (r ∷ rs) rest once e t =
      let start : 0 + s.offs p ≡ s.offs p = omega arith in
      let end = behind-Counted (s.offs p) r rs rest (
        subst (Counted (s.offs p)) e (
          subst (λ b. Counted b (drop (s.offs p) (logs p))) start
            (Counted-from (s.offs p) 0 (logs p) (numbered p)))) in
      let sum = sum_of-set p (length (r ∷ rs)) s.offs parts once in
      let fits : behind r rs ≤ length (logs p) = omega (
        arith,
        end,
        ap length e,
        length-append (r ∷ rs) rest,
        length-drop (s.offs p) (logs p),
        t.inside p,
      ) in
      record {
        counted = rw end (omega (arith, sum, t.counted));
        inside = λ q. inside_set q fits (Bool-cases (eq_ℤ q p));
      }
    where
      inside_set :
          (q : ℤ)
          → behind r rs ≤ length (logs p)
          → (eq_ℤ q p ≡ true) ⊎ (eq_ℤ q p ≡ false)
          → set_offset p (behind r rs) s.offs q ≤ length (logs q)
      inside_set q fits (inl same) = unfold set_offset in rw (same, eq_ℤ→eq q p same) fits
      inside_set q fits (inr other) = unfold set_offset in rw other (t.inside q)

  scan_partition-Tally :
      (fetch : ℤ → ℕ → Option FetchResponse) (p : ℤ) (s : Scan)
      → Once p parts
      → Answers fetch
      → Tally s
      → Tally (scan_partition fetch p s).1
  unfolding scan_partition
  scan_partition-Tally fetch p s once answers t =
      by_answer (fetch p (s.offs p)) (λ fr e. answers p (s.offs p) fr e)
    where
      by_answer :
          (found : Option FetchResponse)
          → ((fr : FetchResponse)
              → found ≡ some fr
              → (rest : List WireRecord) × (drop (s.offs p) (logs p) ≡ fr.records ++ rest))
          → Tally (scanned p found s).1
      by_answer none answers = unfold scanned in t
      by_answer (some fr) answers =
          let (rest, e) = answers fr refl in
          unfold scanned in counted-Tally p s fr.records rest once e t

  scan_round-Tally :
      (fetch : ℤ → ℕ → Option FetchResponse) (ps : List ℤ) (s : Scan)
      → All (λ p. Once p parts) ps
      → Answers fetch
      → Tally s
      → Tally (scan_round fetch ps s).1
  unfolding scan_round
  scan_round-Tally fetch [] s once answers t = t
  scan_round-Tally fetch (p ∷ ps) s once answers t =
      scan_round-Tally fetch ps (scan_partition fetch p s).1 once.1 answers
        (scan_partition-Tally fetch p s once.0 answers t)

  -- In a scan of a topic that lists each partition once, where each log is answered from the offset on,
  -- no record is counted twice and none that is not there: the count is the sum of the offsets that
  -- the partitions are read up to, none past the end of its log.
  pub scan-Tally :
      (produced : ℕ) (rounds : List (Bool × (ℤ → ℕ → Option FetchResponse))) (s : Scan)
      → All (λ p. Once p parts) parts
      → All (λ r. Answers r.1) rounds
      → Tally s
      → Tally (scan produced parts rounds s)
  unfolding scan
  scan-Tally produced [] s once answers t = t
  scan-Tally produced ((in_time, fetch) ∷ rounds) s once answers t =
      either_branch Tally (ltb s.consumed produced && in_time)
        (scan-Tally produced rounds (scan_round fetch parts s).1 once answers.1
          (scan_round-Tally fetch parts s once answers.0 t))
        t
