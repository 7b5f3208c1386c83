-- ===== src/Prelude/Split.antt =====
-- Taking strings apart at a byte: strings.LastIndex with the slices on both sides, strings.Cut and
-- strings.Split with a separator of one byte, and a prefix cut off.
use Prim.Native.Nat.{ℕ}
use mathlib.Core.Path.{◌≡◌, refl}
use mathlib.Core.Logic.{◌≢◌}
use mathlib.Core.Option.{Option, none, some}
use mathlib.Core.List.{List, [], ◌∷◌, ◌++◌}
use logship.Prelude.Tests.{◌==◌, if◌then◌else◌, ne→==-false, ==_refl}
use logship.Prelude.Lists.{All}
use logship.Prelude.Wire.{Bytes}

-- What follows the prefix, if it is one.
unfoldable pub strip_prefix : Bytes → Bytes → Option Bytes
strip_prefix [] s = some s
strip_prefix (p ∷ ps) [] = none
strip_prefix (p ∷ ps) (c ∷ s) = let rest = strip_prefix ps s in if p == c then rest else none

pub strip_prefix-append : (p s : Bytes) → strip_prefix p (p ++ s) ≡ some s
unfolding strip_prefix
strip_prefix-append [] s = refl
strip_prefix-append (p ∷ ps) s = rw (==_refl p, strip_prefix-append ps s)

-- One byte more, before a string that is split already.
unfoldable pub split_before : ℕ → ℕ → Bytes → Option (Bytes × Bytes) → Option (Bytes × Bytes)
split_before sep c s none = if c == sep then some ([], s) else none
split_before sep c s (some (a, b)) = some (c ∷ a, b)

-- The parts in front of the last separator and behind it.
unfoldable pub split_last : ℕ → Bytes → Option (Bytes × Bytes)
split_last sep [] = none
split_last sep (c ∷ s) = split_before sep c s (split_last sep s)

split_last-none : (sep : ℕ) (s : Bytes) → All (λ c. c ≢ sep) s → split_last sep s ≡ none
unfolding split_last split_before
split_last-none sep [] h = refl
split_last-none sep (c ∷ s) (h, hs) = rw (split_last-none sep s hs, ne→==-false c sep h)

pub split_last-append :
    (sep : ℕ) (a b : Bytes) → All (λ c. c ≢ sep) b → split_last sep (a ++ (sep ∷ b)) ≡ some (a, b)
unfolding split_last split_before
split_last-append sep [] b h = rw (split_last-none sep b h, ==_refl sep)
split_last-append sep (c ∷ a) b h = rw (split_last-append sep a b h)

cut_behind : ℕ → Option (Bytes × Bytes) → Option (Bytes × Bytes)
cut_behind c none = none
cut_behind c (some (a, b)) = some (c ∷ a, b)

-- The parts in front of the first separator and behind it.
unfoldable pub cut : ℕ → Bytes → Option (Bytes × Bytes)
unfolding cut_behind
cut sep [] = none
cut sep (c ∷ s) = let rest = cut_behind c (cut sep s) in if c == sep then some ([], s) else rest

pub cut-append :
    (sep : ℕ) (a b : Bytes) → All (λ c. c ≢ sep) a → cut sep (a ++ (sep ∷ b)) ≡ some (a, b)
unfolding cut cut_behind
cut-append sep [] b h = rw (==_refl sep)
cut-append sep (c ∷ a) b (h, hs) = rw (ne→==-false c sep h, cut-append sep a b hs)

first_part : ℕ → List Bytes → List Bytes
first_part c [] = (c ∷ []) ∷ []
first_part c (p ∷ ps) = (c ∷ p) ∷ ps

-- The parts between the separators, of which there is one at least.
unfoldable pub split : ℕ → Bytes → List Bytes
unfolding first_part
split sep [] = [] ∷ []
split sep (c ∷ s) = let parts = split sep s in if c == sep then [] ∷ parts else first_part c parts

pub split-single : (sep : ℕ) (a : Bytes) → All (λ c. c ≢ sep) a → split sep a ≡ a ∷ []
unfolding split first_part
split-single sep [] h = refl
split-single sep (c ∷ a) (h, hs) = rw (ne→==-false c sep h, split-single sep a hs)

pub split-append :
    (sep : ℕ) (a b : Bytes) → All (λ c. c ≢ sep) a → split sep (a ++ (sep ∷ b)) ≡ a ∷ split sep b
unfolding split first_part
split-append sep [] b h = rw (==_refl sep)
split-append sep (c ∷ a) b (h, hs) = rw (ne→==-false c sep h, split-append sep a b hs)
