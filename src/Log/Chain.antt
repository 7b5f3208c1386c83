-- ===== src/Log/Chain.antt =====
-- What a log holds: the records of its segments, one segment after another, with no gap.
use logship.Prelude.{
  ℕ, ◌+◌, ◌≡◌, ap, sym, subst, ◌∙◌, List, [], ◌∷◌, ◌++◌, arith, append_assoc, append-nil, length,
  length-append,
}
use logship.Record.{Record}
use logship.Segment.{Segment}
use logship.Segment.Contents.{Holds, Consecutive}
use logship.Log.{Log, segments}

-- The segments from `base` on hold the parts of `parts`, in order.
abbrev pub Chain : ℕ → List Segment → List (List Record) → Type 0
Chain base [] [] = Unit
Chain base (s ∷ ss) (c ∷ cs) = (s.base_offset ≡ base) × Holds s c × Chain (base + length c) ss cs
Chain base _ _ = ⊥

abbrev pub flat : List (List Record) → List Record
flat [] = []
flat (c ∷ cs) = c ++ flat cs

-- The log holds `parts`, of which `last` stands in the active segment, from offset `base` on.
pub record LogHolds (base : ℕ) (l : Log) (parts : List (List Record)) (last : List Record)
    : Type 0 where
  pub sealed : Chain base l.sealed parts
  pub active : Holds l.active last
  pub active_base : l.active.base_offset ≡ base + length (flat parts)

abbrev pub records : List (List Record) → List Record → List Record
records parts last = flat parts ++ last

pub Chain-append :
    (base : ℕ) (ss : List Segment) (cs : List (List Record)) (s : Segment) (c : List Record)
    → Chain base ss cs
    → s.base_offset ≡ base + length (flat cs)
    → Holds s c
    → Chain base (ss ++ s ∷ []) (cs ++ c ∷ [])
Chain-append base [] [] s c h e held = (omega arith, held, tt)
Chain-append base [] (d ∷ cs) s c h e held = absurd h
Chain-append base (t ∷ ss) [] s c h e held = absurd h
Chain-append base (t ∷ ss) (d ∷ cs) s c h e held = (
  h.0,
  h.1,
  Chain-append (base + length d) ss cs s c h.2 (omega (arith, length-append d (flat cs))) held,
)

pub flat-append : (cs : List (List Record)) (c : List Record) → flat (cs ++ c ∷ []) ≡ flat cs ++ c
flat-append [] c = append-nil c
flat-append (d ∷ cs) c = ap (λ l. d ++ l) (flat-append cs c) ∙ sym (append_assoc d (flat cs) c)

-- The end of the log, and the whole of it as one chain.
module _ {base : ℕ} {l : Log} {parts : List (List Record)} {last : List Record}
    (h : LogHolds base l parts last) where
  pub leo-LogHolds : l.active.next_offset ≡ base + length (records parts last)
  leo-LogHolds = omega (arith, h.active.next, h.active_base, length-append (flat parts) last)

  pub Chain-segments : Chain base (segments l) (parts ++ last ∷ [])
  Chain-segments = Chain-append base l.sealed parts l.active last h.sealed h.active_base h.active

pub Consecutive-append_right :
    (base : ℕ) (rs ss : List Record)
    → Consecutive base (rs ++ ss)
    → Consecutive (base + length rs) ss
Consecutive-append_right base [] ss c = let same : base + 0 ≡ base = omega arith in rw same c
Consecutive-append_right base (r ∷ rs) ss c =
    let same : base + length (r ∷ rs) ≡ base + 1 + length rs = omega arith in
    rw same (Consecutive-append_right (base + 1) rs ss c.1)

Consecutive-join :
    (base : ℕ) (rs ss : List Record)
    → Consecutive base rs
    → Consecutive (base + length rs) ss
    → Consecutive base (rs ++ ss)
Consecutive-join base [] ss c d =
    let same : base + 0 ≡ base = omega arith in subst (λ b. Consecutive b ss) same d
Consecutive-join base (r ∷ rs) ss c d =
    let same : base + length (r ∷ rs) ≡ base + 1 + length rs = omega arith in
    (c.0, Consecutive-join (base + 1) rs ss c.1 (subst (λ b. Consecutive b ss) same d))

Consecutive-flat :
    (base : ℕ) (ss : List Segment) (cs : List (List Record))
    → Chain base ss cs
    → Consecutive base (flat cs)
Consecutive-flat base [] [] h = tt
Consecutive-flat base [] (c ∷ cs) h = absurd h
Consecutive-flat base (s ∷ ss) [] h = absurd h
Consecutive-flat base (s ∷ ss) (c ∷ cs) h =
    Consecutive-join base c (flat cs) (subst (λ b. Consecutive b c) h.0 h.1.consecutive)
      (Consecutive-flat (base + length c) ss cs h.2)

pub Consecutive-LogHolds :
    {base : ℕ} {l : Log} {parts : List (List Record)} {last : List Record}
    → LogHolds base l parts last
    → Consecutive base (records parts last)
Consecutive-LogHolds {base} {l} {parts} {last} h =
    Consecutive-join base (flat parts) last (Consecutive-flat base l.sealed parts h.sealed)
      (subst (λ b. Consecutive b last) h.active_base h.active.consecutive)
