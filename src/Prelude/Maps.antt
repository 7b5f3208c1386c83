-- ===== src/Prelude/Maps.antt =====
-- A Go map with string keys, as an association list. Its order stands for the order in which
-- `range` happens to visit the entries.
use mathlib.Core.Path.{◌≡◌, refl}
use mathlib.Core.Option.{Option, none, some}
use mathlib.Core.List.{List, [], ◌∷◌}
use native.Mathlib.Omega.{arith}
use logship.Prelude.Tests.{if◌then◌else◌}
use logship.Prelude.Wire.{Bytes}
use logship.Prelude.Strings.{str_eq, str_eq→eq, str_eq_refl}

module _ {ℓ} {V : Type ℓ} where
  unfoldable pub lookup : Bytes → List (Bytes × V) → Option V
  lookup k [] = none
  lookup k ((j, v) ∷ m) = if str_eq j k then some v else lookup k m

  unfoldable pub insert : Bytes → V → List (Bytes × V) → List (Bytes × V)
  insert k v [] = (k, v) ∷ []
  insert k v ((j, w) ∷ m) = if str_eq j k then (j, v) ∷ m else (j, w) ∷ insert k v m

  pub lookup-insert :
      (k j : Bytes) (v : V) (m : List (Bytes × V))
      → lookup j (insert k v m) ≡ (if str_eq k j then some v else lookup j m)
  unfolding lookup insert
  lookup-insert k j v [] = refl
  lookup-insert k j v ((i, w) ∷ m) = ground (
    arith,
    lookup-insert k j v m,
    str_eq→eq i k,
    str_eq→eq k j,
    str_eq→eq i j,
    str_eq_refl i,
    str_eq_refl k,
    str_eq_refl j,
  )
