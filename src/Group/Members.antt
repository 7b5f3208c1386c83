-- ===== src/Group/Members.antt =====
-- The members of a group in a loop over the map: who they are, what the loop leaves of a property
-- of all of them, and the first in order, who leads.
use logship.Prelude.{
  ◌≡◌, refl, Bool, true, false, List, [], ◌∷◌, arith, if◌then◌else◌, length, Bytes, str_eq,
  str_eq_refl, insert_by, sort_by,
}
use logship.Group.{Member, each, all_members, ids, first_of}

unfoldable pub has : Bytes → List Bytes → Bool
has i [] = false
has i (j ∷ js) = if str_eq j i then true else has i js

pub ids-each : (f : Bytes → Member → Member) (ms : List (Bytes × Member)) → ids (each f ms) ≡ ids ms
unfolding ids each
ids-each f [] = refl
ids-each f ((id, m) ∷ ms) = rw (ids-each f ms)

pub length-each :
    (f : Bytes → Member → Member) (ms : List (Bytes × Member)) → length (each f ms) ≡ length ms
unfolding each
length-each f [] = refl
length-each f ((id, m) ∷ ms) = omega (arith, length-each f ms)

pub all_members-each :
    (ok : Member → Bool) (f : Bytes → Member → Member)
    → ((id : Bytes) (m : Member) → ok m ≡ true → ok (f id m) ≡ true)
    → (ms : List (Bytes × Member)) → all_members ok ms ≡ true
    → all_members ok (each f ms) ≡ true
unfolding all_members each
all_members-each ok f keeps [] h = refl
all_members-each ok f keeps ((id, m) ∷ ms) h =
    ground (arith, keeps id m, all_members-each ok f keeps ms)

module _ (le : Bytes → Bytes → Bool) where
  has_first-insert_by :
      (a : Bytes) (bs cs : List Bytes)
      → has (first_of bs) cs ≡ true
      → has (first_of (insert_by le a bs)) (a ∷ cs) ≡ true
  unfolding has first_of insert_by str_eq
  has_first-insert_by a [] cs h = rw (str_eq_refl a)
  has_first-insert_by a (b ∷ bs) cs h = ground (arith, str_eq_refl a)

  pub has_first-sort_by :
      (a : Bytes) (as' : List Bytes) → has (first_of (sort_by le (a ∷ as'))) (a ∷ as') ≡ true
  unfolding has first_of sort_by insert_by
  has_first-sort_by a [] = rw (str_eq_refl a)
  has_first-sort_by a (b ∷ bs) =
      has_first-insert_by a (sort_by le (b ∷ bs)) (b ∷ bs) (has_first-sort_by b bs)
