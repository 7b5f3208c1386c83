-- ===== src/Index/Lookup.antt =====
-- `lookup`: the binary search against a scan from the front.
use logship.Prelude.{
  ℕ, zero, suc, ◌+◌, ◌-◌, ◌/◌, ◌≤◌, ◌<◌, ◌≡◌, refl, sym, ◌∙◌, ◌≢◌, ◌⊎◌, inl, inr, Bool, true, false,
  List, [], ◌∷◌, arith, ltb, leb, ◌==◌, if◌then◌else◌, length, All, Bool-cases, ltb-false→le,
  ltb→lt, le→leb,
}
use native.Mathlib.Decide.{dec_le}
use logship.Index.{IndexEntry, SparseIndex, search_between, search_first, entry_at, lookup}

-- `test` is false just below `k` and true at `k`, as far as the bounds `lo` and `hi` let one say so.
record Splits (test : ℕ → Bool) (lo hi k : ℕ) : Type 0 where
  from_lo : lo ≤ k
  to_hi : k ≤ hi
  below : (k ≡ lo) ⊎ (test (k - 1) ≡ false)
  above : (k ≡ hi) ⊎ (test k ≡ true)

search_between-Splits :
    (fuel : ℕ) (test : ℕ → Bool) (lo hi : ℕ)
    → lo ≤ hi
    → hi - lo ≤ fuel
    → Splits test lo hi (search_between fuel test lo hi)
unfolding search_between
search_between-Splits zero test lo hi o f = record {
  from_lo = omega arith;
  to_hi = o;
  below = inl refl;
  above = inl (omega arith);
}
search_between-Splits (suc fuel) test lo hi o f = elim (Bool-cases (ltb lo hi)) [
  | inr e ↦ rw e (record {
    from_lo = omega arith;
    to_hi = o;
    below = inl refl;
    above = inl (omega (arith, ltb-false→le lo hi e));
  })
  | inl e ↦
      let lt : lo < hi = ltb→lt lo hi e in
      elim (Bool-cases (test ((lo + hi) / 2))) [
        | inl t ↦
            let s : Splits test lo ((lo + hi) / 2) (search_between fuel test lo ((lo + hi) / 2)) =
              search_between-Splits fuel test lo ((lo + hi) / 2) (omega arith) (omega arith) in
            rw (e, t)
              (record {
                from_lo = s.from_lo;
                to_hi = omega (arith, s.to_hi);
                below = s.below;
                above = ground (arith, s.above, t);
              })
        | inr t ↦
            let mid : (lo + hi) / 2 + 1 - 1 ≡ (lo + hi) / 2 = omega arith in
            let s : Splits test ((lo + hi) / 2 + 1) hi
                (search_between fuel test ((lo + hi) / 2 + 1) hi) =
              search_between-Splits fuel test ((lo + hi) / 2 + 1) hi (omega arith) (omega arith) in
            rw (e, t)
              (record {
                from_lo = omega (arith, s.from_lo);
                to_hi = s.to_hi;
                below = inr (elim s.below [ inl k ↦ rw (k, mid) t | inr k ↦ k ]);
                above = s.above;
              })
      ]
]

-- What a test of the entries says of each of them.
entry_at-All :
    (P : IndexEntry → Type 0) (es : List IndexEntry) (j : ℕ)
    → All P es
    → j < length es
    → P (entry_at es j)
entry_at-All P [] j h lt = absurd (omega arith)
entry_at-All P (e ∷ es) zero h lt = h.0
entry_at-All P (e ∷ es) (suc j) h lt = entry_at-All P es j h.1 (omega arith)

-- The position of the last entry, from the front, that is not past the offset.
pub floor_position : ℕ → List IndexEntry → ℕ → ℕ
floor_position found [] rel_offset = found
floor_position found (e ∷ es) rel_offset =
    if leb e.rel_offset rel_offset then floor_position e.position es rel_offset else found

abbrev pub IsSorted : List IndexEntry → Type 0
IsSorted [] = Unit
IsSorted (e ∷ es) = All (λ f. e.rel_offset < f.rel_offset) es × IsSorted es

module _ (i : SparseIndex) (rel_offset : ℕ) where
  past : ℕ → Bool
  past j = ltb rel_offset (entry_at i.entries j).rel_offset

  first_past : ℕ
  first_past = search_first (length i.entries) past

  first_past-Splits : Splits past 0 (length i.entries) first_past
  unfolding first_past search_first
  first_past-Splits =
      search_between-Splits (length i.entries) past 0 (length i.entries) (omega arith) (omega arith)

  lookup-eq :
      lookup i rel_offset
      ≡ (if first_past == 0 then 0 else (entry_at i.entries (first_past - 1)).position)
  unfolding lookup first_past past
  lookup-eq = ground (arith, first_past-Splits.to_hi)

  found : first_past ≢ 0 → (entry_at i.entries (first_past - 1)).rel_offset ≤ rel_offset
  unfolding past
  found h = elim first_past-Splits.below [ inl e ↦ absurd (h e) | inr e ↦ ltb-false→le _ _ e ]

  passed : first_past ≢ length i.entries → rel_offset < (entry_at i.entries first_past).rel_offset
  unfolding past
  passed h = elim first_past-Splits.above [ inl e ↦ absurd (h e) | inr e ↦ ltb→lt _ _ e ]

  -- `lookup` gives 0 or the position of an entry that is not past the offset, in any order of the
  -- entries.
  pub lookup-All :
      (P : IndexEntry → Type 0)
      → All P i.entries
      → (lookup i rel_offset ≡ 0)
        ⊎ ((e : IndexEntry) × P e
            × (e.rel_offset ≤ rel_offset)
            × (lookup i rel_offset ≡ e.position))
  lookup-All P all = elim (dec_le first_past 0) [
    | yes z ↦ inl (lookup-eq ∙ ground arith)
    | no nz ↦ inr (
      entry_at i.entries (first_past - 1),
      entry_at-All P i.entries (first_past - 1) all (omega (arith, first_past-Splits.to_hi)),
      found (omega arith),
      lookup-eq ∙ ground arith,
    )
  ]

floor-split :
    (acc : ℕ) (es : List IndexEntry) (rel n : ℕ)
    → IsSorted es
    → n ≤ length es
    → (n ≢ 0 → (entry_at es (n - 1)).rel_offset ≤ rel)
    → (n ≢ length es → rel < (entry_at es n).rel_offset)
    → floor_position acc es rel ≡ (if n == 0 then acc else (entry_at es (n - 1)).position)
unfolding floor_position
floor-split acc [] zero n s le lo hi = ground arith
floor-split acc [] (suc rel) n s le lo hi = ground arith
floor-split acc (e ∷ es) rel zero s le lo hi = ground (arith, hi (omega arith))
floor-split acc (e ∷ es) rel (suc zero) s le lo hi =
    ground (arith, floor-split e.position es rel 0 s.1)
floor-split acc (e ∷ es) rel (suc (suc m)) s le lo hi =
    let two : suc (suc m) - 1 ≡ suc m = omega arith in
    let one : suc m - 1 ≡ m = omega arith in
    let near : e.rel_offset < (entry_at es m).rel_offset =
      entry_at-All (λ f. e.rel_offset < f.rel_offset) es m s.0 (omega arith) in
    let low : (entry_at es m).rel_offset ≤ rel = rw two at (lo (omega arith)) in
    let rest : floor_position e.position es rel
        ≡ (if suc m == 0 then e.position else (entry_at es (suc m - 1)).position) =
      floor-split e.position es rel (suc m) s.1 (omega arith) (λ _. rw one low)
        (λ ne. hi (λ eq. ne (omega arith))) in
    rw (le→leb e.rel_offset rel (omega arith), rest, two, one) (ground arith)

-- On entries in the order of their offsets the binary search finds what the scan finds.
pub lookup-floor_position :
    (i : SparseIndex) (rel_offset : ℕ)
    → IsSorted i.entries
    → lookup i rel_offset ≡ floor_position 0 i.entries rel_offset
lookup-floor_position i rel_offset s =
    lookup-eq i rel_offset
    ∙ sym (
        floor-split 0 i.entries rel_offset (first_past i rel_offset) s
          (first_past-Splits i rel_offset).to_hi (found i rel_offset) (passed i rel_offset))
