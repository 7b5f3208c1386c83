-- ===== src/Broker/Prefix.antt =====
-- `followLoop` of internal/broker/replica.go on a response with any records of a leader: out of date,
-- with a gap, or cut short.
use logship.Prelude.{
  arith, ℕ, ◌+◌, ◌≤◌, ◌<◌, ◌^◌, ◌≡◌, refl, sym, ap, subst, ◌∙◌, inl, inr, List, [], ◌∷◌, ◌++◌,
  length, append_assoc, OneOf, All-OneOf, All, lt→ltb, le→ltb-false,
}
use native.Mathlib.Decide.{dec_lt}
use logship.Record.{Record}
use logship.Segment.{Result, ok}
use logship.Segment.Contents.{Consecutive}
use logship.Log.{Log, leo, append_at}
use logship.Log.Chain.{LogHolds, records, leo-LogHolds}
use logship.Log.Append.{Appended}
use logship.Broker.Follow.{
  Stored, followed, follow_records, working, append_at-Stored, leo-Appended,
}

-- `l` holds the first records of `all`, from offset `base` on.
pub record IsPrefix (base : ℕ) (all : List Record) (l : Log) : Type 0 where
  pub parts : List (List Record)
  pub last : List Record
  pub missing : List Record
  pub held : LogHolds base l parts last
  pub split : all ≡ records parts last ++ missing

-- What the records of a response make of a log: no shorter, with the same watermark and settings.
pub record Follows (base : ℕ) (all : List Record) (l0 l : Log) : Type 0 where
  pub follows : IsPrefix base all l
  pub longer : leo l0 ≤ leo l
  pub same_hw : l.hw ≡ l0.hw
  pub same_cfg : l.cfg ≡ l0.cfg

offset-ge :
    (base : ℕ) (rs : List Record) (r : Record) → Consecutive base rs → OneOf rs r → base ≤ r.offset
offset-ge base [] r c a = absurd a
offset-ge base (x ∷ rs) r c (inl e) = omega (arith, c.0, ap (λ y. y.offset) e)
offset-ge base (x ∷ rs) r c (inr a) = omega (arith, offset-ge (base + 1) rs r c.1 a)

-- OneOf records with consecutive offsets, one is found at its offset.
first_of_drop :
    (base : ℕ) (mine missing : List Record) (r : Record)
    → Consecutive base (mine ++ missing)
    → OneOf (mine ++ missing) r
    → r.offset ≡ base + length mine
    → (more : List Record) × (missing ≡ r ∷ more)
first_of_drop base [] [] r c a e = absurd a
first_of_drop base [] (x ∷ xs) r c (inl same) e = (xs, ap (λ y. y ∷ xs) same)
first_of_drop base [] (x ∷ xs) r c (inr a) e =
    absurd (omega (arith, offset-ge (base + 1) xs r c.1 a))
first_of_drop base (m ∷ mine) missing r c (inl same) e =
    absurd (omega (arith, c.0, ap (λ y. y.offset) same))
first_of_drop base (m ∷ mine) missing r c (inr a) e =
    first_of_drop (base + 1) mine missing r c.1 a (omega (arith, e))

module _ (clock : ℕ → ℕ) (base : ℕ) (all : List Record) (numbered : Consecutive base all)
    (stored : All Stored all) where
  append_next :
      (r : Record) (l : Log)
      → IsPrefix base all l
      → OneOf all r
      → l.cfg.max_segment_bytes < 2 ^ 32
      → r.offset ≡ leo l
      → (appended : Log) × ((append_at (working clock r.offset) r l) ≡ (ok (leo l), appended))
        × Follows base all l appended
  append_next r l p among small e = (
    out.1,
    (λ i. ((a.offset ∙ ap ok (sym end)) i, out.1)),
    record {
      follows = record {
        parts = a.parts;
        last = a.last;
        missing = next.0;
        held = a.held;
        split =
            p.split
            ∙ ap (λ k. mine ++ k) next.1
            ∙ sym (append_assoc mine (r ∷ []) next.0)
            ∙ ap (λ k. k ++ next.0) (sym a.grown);
      };
      longer = omega (arith, leo-Appended p.held a);
      same_hw = a.same_hw;
      same_cfg = a.same_cfg;
    },
  )
    where
      mine : List Record
      mine = records p.parts p.last

      out : Result ℕ × Log
      out = append_at (working clock r.offset) r l

      end : leo l ≡ base + length mine
      end = leo-LogHolds p.held

      next : (more : List Record) × (p.missing ≡ r ∷ more)
      next =
          first_of_drop base mine p.missing r (subst (Consecutive base) p.split numbered)
            (subst (λ k. OneOf k r) p.split among) (omega (arith, e, end))

      a : Appended base mine l r out
      a =
          append_at-Stored (clock r.offset) base r l p.parts p.last p.held
            (All-OneOf Stored all r stored among) small e

  followed-next :
      (rest : Log → Log) (r : Record) (l : Log)
      → (n : (appended : Log) × ((append_at (working clock r.offset) r l) ≡ (ok (leo l), appended))
          × Follows base all l appended)
      → Follows base all n.0 (rest n.0)
      → Follows base all l (
          followed
            (append_at (working clock r.offset) r l).0
            (append_at (working clock r.offset) r l).1
            rest)
  unfolding followed
  followed-next rest r l n f = rw n.1 (record {
    follows = f.follows;
    longer = omega (arith, f.longer, n.2.longer);
    same_hw = f.same_hw ∙ n.2.same_hw;
    same_cfg = f.same_cfg ∙ n.2.same_cfg;
  })

  -- On whatever records of the leader a response has, the follower's log stays a first part of the
  -- leader's.
  pub follow_records-Follows :
      (rs : List Record) (l : Log)
      → IsPrefix base all l
      → All (OneOf all) rs
      → l.cfg.max_segment_bytes < 2 ^ 32
      → Follows base all l (follow_records (working clock) rs l)
  unfolding follow_records
  follow_records-Follows [] l p among small = record {
    follows = p;
    longer = omega arith;
    same_hw = refl;
    same_cfg = refl;
  }
  follow_records-Follows (r ∷ rs) l p among small = elim (dec_lt r.offset (leo l)) [
    | yes old ↦ rw (lt→ltb r.offset (leo l) old) (follow_records-Follows rs l p among.1 small)
    | no new ↦ elim (dec_lt (leo l) r.offset) [
      | yes gap ↦
          rw (le→ltb-false r.offset (leo l) (omega arith), lt→ltb (leo l) r.offset gap)
            (record { follows = p; longer = omega arith; same_hw = refl; same_cfg = refl })
      | no none ↦
          let n = append_next r l p among.0 small (omega arith) in
          rw
            (
              le→ltb-false r.offset (leo l) (omega arith),
              le→ltb-false (leo l) r.offset (omega arith),
            )
            (followed-next (follow_records (working clock) rs) r l n
              (follow_records-Follows rs n.0 n.2.follows among.1 (rw n.2.same_cfg small)))
    ]
  ]
