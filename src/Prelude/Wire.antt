-- ===== src/Prelude/Wire.antt =====
-- Big-endian words (encoding/binary) as lists of bytes, and Go's byte slices.
use Prim.Native.Nat.{ℕ, ◌+◌, ◌*◌, ◌/◌, ◌%◌, ◌^◌, ◌<◌}
use mathlib.Core.Path.{◌≡◌, refl}
use mathlib.Core.List.{List, [], ◌∷◌, ◌++◌}
use native.Mathlib.Omega.{arith}
use logship.Prelude.Lists.{length}

-- A byte slice.
abbrev pub Bytes : Type 0
Bytes = List ℕ

-- binary.BigEndian.PutUint32 of a uint32.
unfoldable pub put_u32 : ℕ → Bytes
put_u32 v = (v / 2 ^ 24 % 256) ∷ (v / 2 ^ 16 % 256) ∷ (v / 2 ^ 8 % 256) ∷ (v % 256) ∷ []

-- binary.BigEndian.Uint32 of four bytes. A shorter slice is a fault in Go; no caller has one.
unfoldable pub get_u32 : Bytes → ℕ
get_u32 (a ∷ b ∷ c ∷ d ∷ rest) = a * 2 ^ 24 + b * 2 ^ 16 + c * 2 ^ 8 + d
get_u32 _ = 0

unfoldable pub put_u64 : ℕ → Bytes
put_u64 v = put_u32 (v / 2 ^ 32 % 2 ^ 32) ++ put_u32 (v % 2 ^ 32)

unfoldable pub get_u64 : Bytes → ℕ
get_u64 (a ∷ b ∷ c ∷ d ∷ rest) = get_u32 (a ∷ b ∷ c ∷ d ∷ []) * 2 ^ 32 + get_u32 rest
get_u64 _ = 0

pub length-put_u32 : (v : ℕ) → length (put_u32 v) ≡ 4
unfolding put_u32
length-put_u32 v = refl

pub length-put_u64 : (v : ℕ) → length (put_u64 v) ≡ 8
unfolding put_u64 put_u32
length-put_u64 v = refl

pub get_u32-put_u32 : (v : ℕ) (rest : Bytes) → v < 2 ^ 32 → get_u32 (put_u32 v ++ rest) ≡ v
unfolding put_u32 get_u32
get_u32-put_u32 v rest h = omega arith

pub get_u64-put_u64 : (v : ℕ) (rest : Bytes) → v < 2 ^ 64 → get_u64 (put_u64 v ++ rest) ≡ v
unfolding put_u64 get_u64 put_u32 get_u32
get_u64-put_u64 v rest h = omega arith
