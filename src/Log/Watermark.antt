-- ===== src/Log/Watermark.antt =====
-- The high watermark of a log, internal/log/log.go.
use Prim.Native.Nat.{max}
use logship.Prelude.{
  ℕ, ◌≤◌, ◌≡◌, min, arith, ltb, if◌then◌else◌, Bool-cases, inl, inr, ltb→lt, ltb-false→le,
}
use logship.Prelude.Int.{ℤ, pos, negsuc}
use logship.Log.{Log, leo, high_watermark, raise_hw, set_high_watermark}

-- The part of a watermark that counts: a negative one is as 0.
abbrev pub requested : ℤ → ℕ
requested (pos n) = n
requested (negsuc n) = 0

raised : (l : Log) (n : ℕ) → raise_hw n l ≡ record l { hw = max l.hw (min n (leo l)) }
unfolding raise_hw
raised l n =
    let cut : ℕ = if ltb l.active.next_offset n then l.active.next_offset else n in
    let low : cut ≡ min n l.active.next_offset = ground arith in
    elim (Bool-cases (ltb l.hw cut)) [
      | inl up ↦
          let higher : cut ≡ max l.hw (min n l.active.next_offset) =
            omega (arith, low, ltb→lt l.hw cut up) in
          rw up (λ i. record l { hw = higher i })
      | inr down ↦
          let same : l.hw ≡ max l.hw (min n l.active.next_offset) =
            omega (arith, low, ltb-false→le l.hw cut down) in
          rw down (λ i. record l { hw = same i })
    ]

-- `SetHighWatermark` sets the watermark to the one asked for, cut at the end of the log, unless it
-- stands higher already. It changes nothing else.
pub set_high_watermark_lem :
    (hw : ℤ) (l : Log)
    → set_high_watermark hw l ≡ record l { hw = max l.hw (min (requested hw) (leo l)) }
unfolding set_high_watermark raise_hw
set_high_watermark_lem (negsuc n) l =
    let same : l.hw ≡ max l.hw (min 0 l.active.next_offset) = omega arith in
    λ i. record l { hw = same i }
set_high_watermark_lem (pos n) l = raised l n

-- For a log whose watermark is at most its end, the watermark never falls, and stays at most the
-- end.
pub set_high_watermark_bounds :
    (hw : ℤ) (l : Log)
    → high_watermark l ≤ leo l
    → (high_watermark l ≤ high_watermark (set_high_watermark hw l))
      × (high_watermark (set_high_watermark hw l) ≤ leo (set_high_watermark hw l))
set_high_watermark_bounds hw l h = rw (set_high_watermark_lem hw l) (omega arith, omega arith)
