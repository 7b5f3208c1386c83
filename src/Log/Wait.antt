-- ===== src/Log/Wait.antt =====
-- Waiting for the high watermark, internal/log/log.go. While a caller waits, other goroutines work;
-- the state is that of whoever asks, of which `hw_of` gives the log's watermark.
use logship.Prelude.{
  ℕ, ◌+◌, ◌-◌, ◌≤◌, ◌<◌, ◌≡◌, ◌⊎◌, inl, inr, refl, ◌&&◌, Option, none, some, List, [], ◌∷◌, ◌++◌,
  arith, ltb, leb, if◌then◌else◌, ltb→lt, lt→ltb, leb→le, leb-false→lt, Bool-cases,
}

-- One round of the loop: the time at its head, what the others do until the waiter goes on, the time at
-- which one of their broadcasts wakes it, if one does before the timer, and by how much the timer is late.
pub record Round (S : Type 0) : Type 0 where
  pub head : ℕ
  pub others : S → S
  pub broadcast : Option ℕ
  pub late : ℕ

-- `blocked`: what happens outside ends before the wait does.
pub data Outcome : Type 0 where
  visible : Outcome
  timed_out : Outcome
  blocked : Outcome

-- When the timer of a round broadcasts: it is set to what remains until the deadline.
unfoldable pub timer_fires : {S : Type 0} → ℕ → Round S → Option ℕ
timer_fires deadline r = some (r.head + (deadline - r.head) + r.late)

first_wake : Option ℕ → Option ℕ → Option ℕ
first_wake none timer = timer
first_wake (some t) timer = some t

-- When the waiter goes on, if ever.
unfoldable pub woken_at : {S : Type 0} → ℕ → Round S → Option ℕ
unfolding first_wake
woken_at deadline r = first_wake r.broadcast (timer_fires deadline r)

-- Behind Wait; `rest` is the next round of the loop.
behind_wait : {S : Type 0} → (S → ℕ) → ℕ → ℕ → Option ℕ → S → Outcome × S → Outcome × S
behind_wait hw_of offset deadline none s rest = (blocked, s)
behind_wait hw_of offset deadline (some t) s rest =
    if ltb deadline t && leb (hw_of s) offset then (timed_out, s) else rest

-- The loop, with a round for each time that it comes to its head and waits.
unfoldable pub wait_rounds : {S : Type 0} → (S → ℕ) → ℕ → ℕ → List (Round S) → S → Outcome × S
unfolding behind_wait
wait_rounds hw_of offset deadline [] s = (if ltb offset (hw_of s) then visible else blocked, s)
wait_rounds hw_of offset deadline (r ∷ rs) s =
    let rest = wait_rounds hw_of offset deadline rs (r.others s) in
    if ltb offset (hw_of s)
    then (visible, s)
    else if leb deadline r.head
    then (timed_out, s)
    else behind_wait hw_of offset deadline (woken_at deadline r) (r.others s) rest

-- `timeout` is 0 for a duration that is not positive, and `now` the time of the call.
unfoldable pub wait_high_watermark :
    {S : Type 0} → (S → ℕ) → ℕ → ℕ → ℕ → List (Round S) → S → Outcome × S
wait_high_watermark hw_of offset timeout now rounds s =
    wait_rounds hw_of offset (now + timeout) rounds s

module _ {S : Type 0} (hw_of : S → ℕ) (offset deadline : ℕ) where
  behind_wait-visible :
      (woken : Option ℕ) (s : S) (rest : Outcome × S)
      → (rest.0 ≡ visible → offset < hw_of rest.1)
      → (behind_wait hw_of offset deadline woken s rest).0 ≡ visible
      → offset < hw_of (behind_wait hw_of offset deadline woken s rest).1
  unfolding behind_wait
  behind_wait-visible none s rest later h = cc
  behind_wait-visible (some t) s rest later h = ground (arith, later)

  wait_rounds-visible :
      (rounds : List (Round S)) (s : S)
      → (wait_rounds hw_of offset deadline rounds s).0 ≡ visible
      → offset < hw_of (wait_rounds hw_of offset deadline rounds s).1
  unfolding wait_rounds
  wait_rounds-visible [] s h = ground (arith, ltb→lt offset (hw_of s))
  wait_rounds-visible (r ∷ rs) s h = ground (
    arith,
    ltb→lt offset (hw_of s),
    behind_wait-visible (woken_at deadline r) (r.others s) _ (wait_rounds-visible rs (r.others s)),
  )

  -- How a wait ends: with the watermark behind the offset or, timed out, not behind it.
  abbrev pub Settled : Outcome × S → Type 0
  Settled (out, s) =
      ((out ≡ visible) × (offset < hw_of s)) ⊎ ((out ≡ timed_out) × (hw_of s ≤ offset))

  behind_wait-Settled :
      (t : ℕ) (s : S) (rest : Outcome × S)
      → Settled rest
      → Settled (behind_wait hw_of offset deadline (some t) s rest)
  unfolding behind_wait
  behind_wait-Settled t s rest h = elim (Bool-cases (ltb deadline t && leb (hw_of s) offset)) [
    | inl out ↦ rw out (inr (refl, ground (arith, leb→le (hw_of s) offset)))
    | inr on ↦ rw on h
  ]

  woken : (r : Round S) → (t : ℕ) × (woken_at deadline r ≡ some t)
  unfolding woken_at timer_fires first_wake
  woken r = by_broadcast r.broadcast
    where
      by_broadcast : (b : Option ℕ) → (t : ℕ) × (first_wake b (timer_fires deadline r) ≡ some t)
      by_broadcast none = (_, refl)
      by_broadcast (some t) = (t, refl)

  -- A round, when the rounds behind it settle the wait or the deadline has come at its head.
  round-Settled :
      (r : Round S) (rs : List (Round S)) (s : S)
      → (r.head < deadline → Settled (wait_rounds hw_of offset deadline rs (r.others s)))
      → Settled (wait_rounds hw_of offset deadline (r ∷ rs) s)
  unfolding wait_rounds
  round-Settled r rs s later = elim (Bool-cases (ltb offset (hw_of s))) [
    | inl above ↦ rw above (inl (refl, ltb→lt offset (hw_of s) above))
    | inr below ↦
        let low : hw_of s ≤ offset = ground (arith, lt→ltb offset (hw_of s)) in
        elim (Bool-cases (leb deadline r.head)) [
          | inl out ↦ rw (below, out) (inr (refl, low))
          | inr on ↦
              let (t, e) = woken r in
              rw (below, on, e)
                (behind_wait-Settled t (r.others s) _ (later (leb-false→lt deadline r.head on)))
        ]
  ]

  fired :
      (r : Round S)
      → r.broadcast ≡ none
      → woken_at deadline r ≡ some (r.head + (deadline - r.head) + r.late)
  unfolding woken_at timer_fires first_wake
  fired r h = rw h refl

  wait_rounds-Settled :
      (rounds later : List (Round S)) (quiet last : Round S) (s : S)
      → quiet.broadcast ≡ none
      → ((t : ℕ) → woken_at deadline quiet ≡ some t → t ≤ last.head)
      → Settled (wait_rounds hw_of offset deadline (rounds ++ quiet ∷ last ∷ later) s)
  wait_rounds-Settled [] later quiet last s none_came goes_on =
      let past : deadline ≤ last.head = omega (
        arith,
        goes_on (quiet.head + (deadline - quiet.head) + quiet.late) (fired quiet none_came),
      ) in
      round-Settled quiet (last ∷ later) s
        (λ before. round-Settled last later (quiet.others s) (λ now. absurd (omega arith)))
  wait_rounds-Settled (r ∷ rs) later quiet last s none_came goes_on =
      round-Settled r (rs ++ quiet ∷ last ∷ later) s
        (λ before. wait_rounds-Settled rs later quiet last (r.others s) none_came goes_on)

-- A watermark that stands behind the offset already is not waited for.
pub wait_high_watermark-now :
    {S : Type 0} (hw_of : S → ℕ) (offset timeout now : ℕ) (rounds : List (Round S)) (s : S)
    → offset < hw_of s
    → wait_high_watermark hw_of offset timeout now rounds s ≡ (visible, s)
unfolding wait_high_watermark wait_rounds
wait_high_watermark-now hw_of offset timeout now [] s h = rw (lt→ltb offset (hw_of s) h)
wait_high_watermark-now hw_of offset timeout now (r ∷ rs) s h = rw (lt→ltb offset (hw_of s) h)

-- When the wait succeeds, the watermark stands behind the offset.
pub wait_high_watermark-visible :
    {S : Type 0} (hw_of : S → ℕ) (offset timeout now : ℕ) (rounds : List (Round S)) (s : S)
    → (wait_high_watermark hw_of offset timeout now rounds s).0 ≡ visible
    → offset < hw_of (wait_high_watermark hw_of offset timeout now rounds s).1
unfolding wait_high_watermark
wait_high_watermark-visible hw_of offset timeout now rounds s =
    wait_rounds-visible hw_of offset (now + timeout) rounds s

-- The wait ends, whatever the others do and however often they wake it before, once a round comes in
-- which none of them does: the timer wakes it, and by the next look at the clock, which shows no earlier
-- time, it has returned, with success if and only if the watermark is behind the offset then.
pub wait_high_watermark-Settled :
    {S : Type 0} (hw_of : S → ℕ) (offset timeout now : ℕ) (rounds later : List (Round S))
    (quiet last : Round S) (s : S)
    → quiet.broadcast ≡ none
    → ((t : ℕ) → woken_at (now + timeout) quiet ≡ some t → t ≤ last.head)
    → Settled hw_of offset
        (now + timeout)
        (wait_high_watermark hw_of offset timeout now (rounds ++ quiet ∷ last ∷ later) s)
unfolding wait_high_watermark
wait_high_watermark-Settled hw_of offset timeout now rounds later quiet last s =
    wait_rounds-Settled hw_of offset (now + timeout) rounds later quiet last s
