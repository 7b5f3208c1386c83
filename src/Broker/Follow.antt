-- ===== src/Broker/Follow.antt =====
-- A follower's round with its leader, `followLoop` of internal/broker/replica.go. Offsets on the wire
-- are not negative here; a failed fetch is `none`, and the sleeps and the loop's end are left out.
use logship.Prelude.{
  ℕ, suc, ◌+◌, ◌-◌, ◌≤◌, ◌<◌, ◌^◌, ◌≡◌, ◌≢◌, refl, ap, sym, subst, ◌∙◌, Option, none, some, List,
  [], ◌∷◌, ◌++◌, arith, append_assoc, append-nil, length, length-append, drop, drop-all, All, ltb,
  if◌then◌else◌, lt→ltb, le→ltb-false, ne→==-false,
}
use logship.Prelude.Int.{pos}
use native.Mathlib.Decide.{dec_lt}
use logship.Record.{Record, stamped}
use logship.Record.RoundTrip.{IsWire}
use logship.Protocol.{WireRecord, FetchResponse}
use logship.Segment.{Result, ok}
use logship.Segment.Contents.{Consecutive}
use logship.Log.{Log, LogIo, leo, append_at, set_high_watermark}
use logship.Log.Chain.{LogHolds, records, leo-LogHolds}
use logship.Log.Append.{healthy, Appended, append_at-Appended}

-- Behind an append, the rest of the records, unless it failed.
unfoldable pub followed : Result ℕ → Log → (Log → Log) → Log
followed (ok off) l rest = rest l
followed failed l rest = l

-- The loop over the records of a response; `fs` is what happens in the append of each offset.
unfoldable pub follow_records : (ℕ → LogIo) → List Record → Log → Log
follow_records fs [] l = l
follow_records fs (r ∷ rs) l =
    let skipped = follow_records fs rs l in
    let a = append_at (fs r.offset) r l in
    let more = followed a.0 a.1 (follow_records fs rs) in
    if ltb r.offset (leo l) then skipped else if ltb (leo l) r.offset then l else more

unfoldable pub from_wire : List WireRecord → List Record
from_wire [] = []
from_wire (w ∷ ws) =
    record { offset = w.offset; timestamp = w.timestamp; key = w.key; value = w.value }
    ∷ from_wire ws

-- The log after one round; its end is what the follower then acknowledges.
unfoldable pub follow_round : (ℕ → LogIo) → Option FetchResponse → Log → Log
follow_round fs none l = l
follow_round fs (some fr) l =
    set_high_watermark (pos fr.high_watermark) (follow_records fs (from_wire fr.records) l)

-- The log holds the records `rs`, and the watermark and the settings are those of `l0`.
pub record Grown (base : ℕ) (rs : List Record) (l0 l : Log) : Type 0 where
  pub parts : List (List Record)
  pub last : List Record
  pub held : LogHolds base l parts last
  pub grown : records parts last ≡ rs
  pub same_hw : l.hw ≡ l0.hw
  pub same_cfg : l.cfg ≡ l0.cfg

-- Records that a leader has stored: in the format, with a time.
abbrev pub Stored : Record → Type 0
Stored r = IsWire r × (r.timestamp ≢ 0)

stamped-Stored : (now : ℕ) (r : Record) → Stored r → stamped now r ≡ r
stamped-Stored now r (w, t) = rw (ne→==-false r.timestamp 0 t) refl

pub append_at-Stored :
    (now base : ℕ) (r : Record) (l : Log) (parts : List (List Record)) (last : List Record)
    → LogHolds base l parts last
    → Stored r
    → l.cfg.max_segment_bytes < 2 ^ 32
    → r.offset ≡ leo l
    → Appended base (records parts last) l r (append_at (healthy now) r l)
append_at-Stored now base r l parts last h stored small e =
    let same = stamped-Stored now r stored in
    subst (λ x. Appended base (records parts last) l x (append_at (healthy now) r l)) same
      (append_at-Appended now base r l parts last h (subst IsWire (sym same) stored.0) small e)

-- An append, and then the rest.
Grown-step :
    (base : ℕ) (before rs : List Record) (r : Record) (l : Log) (out : Result ℕ × Log)
    (rest : Log → Log) (a : Appended base before l r out)
    → Grown base (records a.parts a.last ++ rs) out.1 (rest out.1)
    → Grown base (before ++ r ∷ rs) l (followed out.0 out.1 rest)
unfolding followed
Grown-step base before rs r l out rest a g = rw a.offset (record {
  parts = g.parts;
  last = g.last;
  held = g.held;
  grown = g.grown ∙ ap (λ k. k ++ rs) a.grown ∙ append_assoc before (r ∷ []) rs;
  same_hw = g.same_hw ∙ a.same_hw;
  same_cfg = g.same_cfg ∙ a.same_cfg;
})

pub leo-Appended :
    {base : ℕ} {l : Log} {parts : List (List Record)} {last : List Record} {r : Record}
    {out : Result ℕ × Log}
    → LogHolds base l parts last
    → Appended base (records parts last) l r out
    → leo out.1 ≡ leo l + 1
leo-Appended {base} {l} {parts} {last} {r} {out} h a = omega (
  arith,
  leo-LogHolds a.held,
  leo-LogHolds h,
  ap length a.grown,
  length-append (records parts last) (r ∷ []),
)

module _ (clock : ℕ → ℕ) where
  abbrev pub working : ℕ → LogIo
  working o = healthy (clock o)

  pub follow_records-Grown :
      (base from : ℕ) (rs : List Record) (l : Log) (parts : List (List Record)) (last : List Record)
      → LogHolds base l parts last
      → Consecutive from rs
      → from ≤ leo l
      → All Stored rs
      → l.cfg.max_segment_bytes < 2 ^ 32
      → Grown base (records parts last ++ drop (leo l - from) rs) l (follow_records working rs l)
  unfolding follow_records
  follow_records-Grown base from [] l parts last h c le w small = record {
    parts = parts;
    last = last;
    held = h;
    grown = sym (
        ap (λ k. records parts last ++ k) (drop-all {A = Record} (leo l - from) [] (omega arith))
        ∙ append-nil (records parts last));
    same_hw = refl;
    same_cfg = refl;
  }
  follow_records-Grown base from (r ∷ rs) l parts last h c le w small =
      elim (dec_lt r.offset (leo l)) [
        | yes old ↦
            let more : leo l - from ≡ suc (leo l - (from + 1)) = omega (arith, c.0) in
            rw (lt→ltb r.offset (leo l) old, more)
              (follow_records-Grown base (from + 1) rs l parts last h c.1 (omega (arith, c.0)) w.1
                small)
        | no new ↦
            let a =
              append_at-Stored (clock r.offset) base r l parts last h w.0 small
                (omega (arith, c.0)) in
            let l' = (append_at (working r.offset) r l).1 in
            let none_old : leo l - from ≡ 0 = omega (arith, c.0) in
            let none_left : leo l' - (from + 1) ≡ 0 = omega (arith, c.0, leo-Appended h a) in
            let g =
              follow_records-Grown base (from + 1) rs l' a.parts a.last a.held c.1
                (omega (arith, c.0, leo-Appended h a)) w.1 (rw a.same_cfg small) in
            rw
              (
                le→ltb-false r.offset (leo l) (omega arith),
                le→ltb-false (leo l) r.offset (omega (arith, c.0)),
                none_old,
              )
              (Grown-step base (records parts last) rs r l (append_at (working r.offset) r l)
                (follow_records working rs) a
                (subst
                  (λ k.
                    Grown base (records a.parts a.last ++ drop k rs) l'
                      (follow_records working rs l'))
                  none_left g))
      ]
