-- ===== src/Log/Stretch.antt =====
-- The window of a list of records that `Read` of internal/log/log.go gives.
use logship.Prelude.{
  ℕ, ◌+◌, ◌-◌, ◌≤◌, ◌≡◌, refl, ap, ◌∙◌, List, [], ◌++◌, arith, length, take, drop, ◌⊎◌, length-take,
  length-drop, drop-all, take-all, empty_of_length, take-append_split, drop-append_le,
  drop-append_ge,
}
use logship.Record.{Record}

-- The records of the window [from, limit) of a stretch of records that begins at `base`.
abbrev pub stretch : ℕ → ℕ → ℕ → List Record → List Record
stretch base from limit rs = take (limit - from) (drop (from - base) rs)

pub stretch-append :
    (base from limit : ℕ) (c rest : List Record)
    → base ≤ from
    → from ≤ base + length c
    → stretch base from limit (c ++ rest)
      ≡ stretch base from limit c ++ stretch (base + length c) (base + length c) limit rest
stretch-append base from limit c rest lo hi =
    let start : base + length c - (base + length c) ≡ 0 = omega arith in
    let left : limit - from - length (drop (from - base) c) ≡ limit - (base + length c) =
      omega (arith, length-drop (from - base) c) in
    rw (
      drop-append_le (from - base) c rest (omega arith),
      take-append_split (limit - from) (drop (from - base) c) rest,
      left,
      start,
    )

pub stretch-skip :
    (base from limit : ℕ) (c rest : List Record)
    → base + length c ≤ from
    → stretch base from limit (c ++ rest) ≡ stretch (base + length c) from limit rest
stretch-skip base from limit c rest h =
    let shift : from - base - length c ≡ from - (base + length c) = omega arith in
    rw (drop-append_ge (from - base) c rest (omega arith), shift)

pub stretch_nil : (base from limit : ℕ) → stretch base from limit [] ≡ []
stretch_nil base from limit =
    ap (take (limit - from)) (drop-all {A = Record} (from - base) [] (omega arith))
    ∙ take-all {A = Record} (limit - from) [] (omega arith)

pub stretch_none :
    (base limit : ℕ) (rs : List Record) → limit ≤ base → stretch base base limit rs ≡ []
stretch_none base limit rs h = let none_left : limit - base ≡ 0 = omega arith in rw none_left refl

pub stretch_past :
    (base from limit : ℕ) (rs : List Record)
    → (base + length rs ≤ from) ⊎ (limit ≤ from)
    → stretch base from limit rs ≡ []
stretch_past base from limit rs h = empty_of_length (stretch base from limit rs) (
    omega (arith, length-take (limit - from) (drop (from - base) rs), length-drop (from - base) rs))
