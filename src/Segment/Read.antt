-- ===== src/Segment/Read.antt =====
-- `readFrom` of internal/log/segment.go, and its reference: the window, and the byte budget.
use logship.Prelude.{
  ℕ, zero, suc, ◌+◌, ◌-◌, ◌%◌, ◌≤◌, ◌<◌, ◌^◌, ◌≡◌, refl, ap, sym, ◌∙◌, inl, inr, ◌&&◌, List, [],
  ◌∷◌, ◌++◌, arith, append_assoc, append-nil, length, length-append, take, drop, drop-drop, All,
  All-drop, Bytes, ltb, leb, if◌then◌else◌, drop-length_append, lt→ltb, le→ltb-false, lt→leb-false,
  le→leb, length-drop, drop-all,
}
use logship.Prelude.Int.{pos}
use native.Mathlib.Decide.{dec_lt}
use logship.Record
use logship.Record.{Record, frame, decode_at, encoded_size}
use logship.Record.Size.{length-frame, encoded_size-le}
use logship.Record.RoundTrip.{IsWire, decode-frame}
use logship.Index.Lookup.{lookup-All}
use logship.Segment.{Segment, Query, read_loop, read_from, ok}
use logship.Segment.Contents.{
  Holds, PointsTo, Consecutive, bytes_of, size_of, bytes_of-split, size_of-split, length-bytes_of,
  length-le-size_of, Consecutive-drop,
}

-- The records from one offset up to another, scanned in order.
unfoldable pub window : ℕ → ℕ → List Record → List Record
window from max [] = []
window from max (r ∷ rs) =
    let rest = window from max rs in
    if ltb r.offset from then rest else if leb max r.offset then [] else r ∷ rest

-- The first records, as many as fit `max_bytes` when `n` bytes are used up; the very first one is
-- taken whatever its size.
unfoldable pub budget : ℕ → ℕ → List Record → List Record
budget max_bytes n [] = []
budget max_bytes n (r ∷ rs) =
    let used = n + encoded_size r in
    let rest = budget max_bytes used rs in
    if ltb 0 n && ltb max_bytes used then [] else if leb max_bytes used then r ∷ [] else r ∷ rest

decode_at-frame :
    (file before : Bytes) (at : ℕ) (r : Record) (rest : Bytes)
    → IsWire r
    → file ≡ before ++ (frame r ++ rest)
    → at ≡ length before
    → decode_at file at ≡ Record.ok (r, encoded_size r)
unfolding decode_at
decode_at-frame file before at r rest w e l =
    rw (e, drop-length_append before (frame r ++ rest) at l, decode-frame r w rest)

module _ (q : Query) where
  read_loop-window :
      (fuel : ℕ) (rs : List Record) (before : Bytes) (at n : ℕ) (out : List Record)
      → q.file ≡ before ++ bytes_of rs
      → at ≡ length before
      → q.size ≡ at + size_of rs
      → All IsWire rs
      → length rs < fuel
      → read_loop fuel q at n out
        ≡ ok (out ++ budget q.max_bytes n (window q.from_offset q.max_offset rs))
  unfolding read_loop bytes_of size_of window budget
  read_loop-window zero rs before at n out e l s w f = absurd (omega arith)
  read_loop-window (suc fuel) [] before at n out e l s w f =
      rw (le→ltb-false at q.size (omega arith), append-nil)
  read_loop-window (suc fuel) (r ∷ rs) before at n out e l s w f =
      let next : q.file ≡ (before ++ frame r) ++ bytes_of rs =
        e ∙ sym (append_assoc before (frame r) (bytes_of rs)) in
      let at' : at + encoded_size r ≡ length (before ++ frame r) =
        omega (arith, l, length-append before (frame r), length-frame r) in
      let size : q.size ≡ at + encoded_size r + size_of rs = omega arith in
      let skipped =
        read_loop-window fuel rs (before ++ frame r) (at + encoded_size r) n out next at' size w.1
          (omega arith) in
      let more =
        read_loop-window fuel rs (before ++ frame r) (at + encoded_size r) (n + encoded_size r)
          (out ++ r ∷ []) next at' size w.1 (omega arith) in
      rw
        (
          lt→ltb at q.size (omega (arith, encoded_size-le r)),
          decode_at-frame q.file before at r (bytes_of rs) w.0 e l,
        )
        (ground (
          arith,
          skipped,
          more,
          append-nil out,
          append_assoc out (r ∷ [])
              (budget q.max_bytes (n + encoded_size r) (window q.from_offset q.max_offset rs)),
        ))

take_nil : (n : ℕ) → take {A = Record} n [] ≡ []
take_nil zero = refl
take_nil (suc n) = refl

-- On records with consecutive offsets the window is a stretch of the list.
window-take :
    (from max base : ℕ) (rs : List Record)
    → Consecutive base rs
    → from ≤ base
    → window from max rs ≡ take (max - base) rs
unfolding window
window-take from max base [] c h = sym (take_nil (max - base))
window-take from max base (r ∷ rs) c h = elim (dec_lt base max) [
  | no over ↦
      let none_left : max - base ≡ 0 = omega arith in
      rw
        (
          le→ltb-false r.offset from (omega (arith, c.0)),
          le→leb max r.offset (omega (arith, c.0)),
          none_left,
        )
        refl
  | yes room ↦
      let left : max - base ≡ suc (max - (base + 1)) = omega arith in
      rw
        (
          le→ltb-false r.offset from (omega (arith, c.0)),
          lt→leb-false max r.offset (omega (arith, c.0)),
          left,
          window-take from max (base + 1) rs c.1 (omega arith),
        )
        refl
]

window-skip :
    (from max : ℕ) (r : Record) (rs : List Record)
    → r.offset < from
    → window from max (r ∷ rs) ≡ window from max rs
unfolding window
window-skip from max r rs h = rw (lt→ltb r.offset from h)

pub window-Consecutive :
    (from max base : ℕ) (rs : List Record)
    → Consecutive base rs
    → base ≤ from
    → window from max rs ≡ take (max - from) (drop (from - base) rs)
window-Consecutive from max base [] c h =
    unfold window in
    rw (drop-all {A = Record} (from - base) [] (omega arith), take_nil (max - from))
window-Consecutive from max base (r ∷ rs) c h = elim (dec_lt base from) [
  | no at ↦
      let e : from ≡ base = omega arith in
      let zero_left : from - base ≡ 0 = omega arith in
      rw zero_left (
        window-take from max base (r ∷ rs) c (omega arith)
        ∙ ap (λ k. take (max - k) (r ∷ rs)) (sym e))
  | yes before ↦
      let left : from - base ≡ suc (from - (base + 1)) = omega arith in
      rw (left, window-skip from max r rs (omega (arith, c.0)))
        (window-Consecutive from max (base + 1) rs c.1 (omega arith))
]

module _ (s : Segment) (rs : List Record) (h : Holds s rs) where
  -- The loop, started at a record `k` that is not past the first one of the window.
  read_loop-Holds :
      (k from max_bytes max at : ℕ)
      → at ≡ size_of (take k rs)
      → s.base_offset + k ≤ from
      → read_loop
          (suc s.size)
          (record {
            file = s.log_file;
            size = s.size;
            from_offset = from;
            max_bytes = max_bytes;
            max_offset = max;
          })
          at
          0
          []
        ≡ ok (budget max_bytes 0 (take (max - from) (drop (from - s.base_offset) rs)))
  read_loop-Holds k from max_bytes max at e le =
      let shift : drop (from - (s.base_offset + k)) (drop k rs) ≡ drop (from - s.base_offset) rs =
        drop-drop (from - (s.base_offset + k)) k rs ∙ ap (λ (j : ℕ). drop j rs) (omega arith) in
      read_loop-window _ (suc s.size) (drop k rs) (bytes_of (take k rs)) at 0 []
        (h.file ∙ bytes_of-split k rs) (omega (arith, length-bytes_of (take k rs)))
        (omega (arith, h.size, size_of-split k rs)) (All-drop IsWire k rs h.wire)
        (omega (arith, h.size, length-le-size_of rs, length-drop k rs))
      ∙ ap (λ l. ok (budget max_bytes 0 l))
          (window-Consecutive from max (s.base_offset + k) (drop k rs)
              (Consecutive-drop k s.base_offset rs h.consecutive) le
            ∙ ap (take (max - from)) shift)

  -- Between its first and its next offset a segment that holds records gives the records from the one asked for up to
  -- the limit, as far as the byte budget goes, wherever the sparse index makes the scan start.
  pub read_from-Holds :
      (from max_bytes max : ℕ)
      → s.base_offset ≤ from
      → from < s.next_offset
      → from < max
      → read_from s (pos from) max_bytes (pos max)
        ≡ ok (budget max_bytes 0 (take (max - from) (drop (from - s.base_offset) rs)))
  unfolding read_from size_of
  read_from-Holds from max_bytes max lo hi ne =
      let rel : (from - s.base_offset) % 2 ^ 32 ≡ from - s.base_offset =
        omega (arith, h.next, h.small, length-le-size_of rs) in
      rw
        (
          le→ltb-false from s.base_offset lo,
          lt→leb-false s.next_offset from hi,
          lt→leb-false max from ne,
          rel,
        )
        (elim (lookup-All s.idx (from - s.base_offset) (PointsTo rs) h.index) [
          | inl start ↦ read_loop-Holds 0 from max_bytes max _ start (omega arith)
          | inr (e, points, le, at) ↦
              read_loop-Holds e.rel_offset from max_bytes max _ (at ∙ points.1) (omega arith)
        ])
