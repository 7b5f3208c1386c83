-- ===== src/Routing/Tests.antt =====
-- The theorems on the partitioner at small inputs.
use logship.Prelude.{◌≡◌, refl, [], ◌∷◌}
use logship.Routing.{hash32}

-- FNV-1a of "a", from its published test vectors.
hash_a : hash32 (97 ∷ []) ≡ 3826002220
unfolding hash32
hash_a = refl
