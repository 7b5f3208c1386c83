-- ===== src/Store/Keys.antt =====
-- The keys of the store, internal/store/store.go.
use logship.Prelude.{
  ◌≡◌, ◌≢◌, refl, sym, ap, ◌∙◌, false, Option, none, some, Bytes, atoi-itoa, itoa, itoa-All,
  str_eq_refl, FitsInt, split_last-append, str_eq, str_eq→eq, lookup-insert, Bool-cases, inl, inr,
  ◌⊎◌,
}
use logship.Prelude.Int.{ℤ}
use logship.Segment.{Result, ok}
use logship.Log.{Log}
use logship.Store.{Store, key, parse_key, put, get, open_partition, open_found}

-- `ParseKey` takes apart what `key` has put together, also for a topic with slashes.
pub parse_key-key :
    (topic : Bytes) (partition : ℤ)
    → FitsInt partition
    → parse_key (key topic partition) ≡ some (topic, partition)
unfolding parse_key key
parse_key-key topic partition fits =
    rw (split_last-append 47 topic (itoa partition) (itoa-All partition), atoi-itoa partition fits)

from_some : Bytes × ℤ → Option (Bytes × ℤ) → Bytes × ℤ
from_some x none = x
from_some x (some y) = y

key-injective :
    (t t' : Bytes) (p p' : ℤ) → FitsInt p → FitsInt p' → key t p ≡ key t' p' → (t ≡ t') × (p ≡ p')
unfolding from_some
key-injective t t' p p' h h' e =
    let same : some (t, p) ≡ some (t', p') =
      sym (parse_key-key t p h) ∙ ap parse_key e ∙ parse_key-key t' p' h' in
    let e' = ap (from_some (t, p)) same in (ap (λ x. x.0) e', ap (λ x. x.1) e')

key-distinct :
    (t t' : Bytes) (p p' : ℤ)
    → FitsInt p
    → FitsInt p'
    → (t ≢ t') ⊎ (p ≢ p')
    → str_eq (key t p) (key t' p') ≡ false
key-distinct t t' p p' h h' other = elim (Bool-cases (str_eq (key t p) (key t' p'))) [
  | inl same ↦
      let (et, ep) = key-injective t t' p p' h h' (str_eq→eq (key t p) (key t' p') same) in
      elim other [ inl ne ↦ absurd (ne et) | inr ne ↦ absurd (ne ep) ]
  | inr distinct ↦ distinct
]

-- Changing the log of one partition leaves those of all others alone.
pub get-put :
    (t t' : Bytes) (p p' : ℤ) (l : Log) (s : Store)
    → FitsInt p
    → FitsInt p'
    → (t ≢ t') ⊎ (p ≢ p')
    → (get t p (put (key t p) l s) ≡ some l) × (get t' p' (put (key t p) l s) ≡ get t' p' s)
unfolding get put
get-put t t' p p' l s h h' other = (
  rw (lookup-insert (key t p) (key t p) l s.logs, str_eq_refl (key t p)),
  rw (lookup-insert (key t p) (key t' p') l s.logs, key-distinct t t' p p' h h' other),
)

-- The log that was put under a key is found.
pub get-put_same : (t : Bytes) (p : ℤ) (l : Log) (s : Store) → get t p (put (key t p) l s) ≡ some l
unfolding get put
get-put_same t p l s = rw (lookup-insert (key t p) (key t p) l s.logs, str_eq_refl (key t p))

-- A log that the store has is not opened again.
pub open_partition-get :
    (opened : Result Log) (t : Bytes) (p : ℤ) (l : Log) (s : Store)
    → get t p s ≡ some l
    → open_partition opened t p s ≡ (ok l, s)
unfolding open_partition open_found get
open_partition-get opened t p l s e = rw e refl
