-- ===== src/Prelude/Strings.antt =====
-- Go strings as lists of bytes: equality, the order of `sort.Strings`, and insertion sort as what
-- package sort computes (sorted, the same elements).
use mathlib.Core.Path.{◌≡◌, refl}
use mathlib.Core.Bool.{Bool, true, false, ◌&&◌}
use mathlib.Core.List.{List, [], ◌∷◌, Perm}
use mathlib.Core.List.Perm
use native.Mathlib.Omega.{arith}
use logship.Prelude.Tests.{ltb, ◌==◌, if◌then◌else◌, ==_refl}
use logship.Prelude.Wire.{Bytes}

unfoldable pub str_eq : Bytes → Bytes → Bool
str_eq [] [] = true
str_eq [] (b ∷ bs) = false
str_eq (a ∷ as') [] = false
str_eq (a ∷ as') (b ∷ bs) = a == b && str_eq as' bs

-- The order of bytes, a proper prefix first.
unfoldable pub str_leb : Bytes → Bytes → Bool
str_leb [] bs = true
str_leb (a ∷ as') [] = false
str_leb (a ∷ as') (b ∷ bs) = let rest = str_leb as' bs in if a == b then rest else ltb a b

pub str_eq_refl : (a : Bytes) → str_eq a a ≡ true
unfolding str_eq
str_eq_refl [] = refl
str_eq_refl (a ∷ as') = rw (==_refl a, str_eq_refl as')

pub str_eq→eq : (a b : Bytes) → str_eq a b ≡ true → a ≡ b
unfolding str_eq
str_eq→eq [] [] h = refl
str_eq→eq [] (b ∷ bs) h = cc
str_eq→eq (a ∷ as') [] h = cc
str_eq→eq (a ∷ as') (b ∷ bs) h = ground (arith, str_eq→eq as' bs)

placed {ℓ} :
    {A : Type ℓ} (t : Bool) (a b : A) (bs cs : List A)
    → Perm cs (a ∷ bs)
    → Perm (if t then a ∷ b ∷ bs else b ∷ cs) (a ∷ b ∷ bs)
placed true a b bs cs h = Perm.refl (a ∷ b ∷ bs)
placed false a b bs cs h = Perm.trans (Perm.cons b h) (Perm.swap a b bs)

module _ {ℓ} {A : Type ℓ} (le : A → A → Bool) where
  unfoldable pub insert_by : A → List A → List A
  insert_by a [] = a ∷ []
  insert_by a (b ∷ bs) = let rest = insert_by a bs in if le a b then a ∷ b ∷ bs else b ∷ rest

  unfoldable pub sort_by : List A → List A
  sort_by [] = []
  sort_by (a ∷ as') = insert_by a (sort_by as')

  insert_by-perm : (a : A) (bs : List A) → Perm (insert_by a bs) (a ∷ bs)
  unfolding insert_by
  insert_by-perm a [] = Perm.refl (a ∷ [])
  insert_by-perm a (b ∷ bs) = placed (le a b) a b bs (insert_by a bs) (insert_by-perm a bs)

  pub sort_by-perm : (as' : List A) → Perm (sort_by as') as'
  unfolding sort_by
  sort_by-perm [] = Perm.refl []
  sort_by-perm (a ∷ as') =
      Perm.trans (insert_by-perm a (sort_by as')) (Perm.cons a (sort_by-perm as'))
