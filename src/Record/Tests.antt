-- ===== src/Record/Tests.antt =====
-- Records to try the theorems on, and each theorem at one of them.
use logship.Prelude.{
  ℕ, zero, suc, ◌+◌, ◌<◌, ◌≤◌, ◌≡◌, refl, subst, append-nil, [], ◌∷◌, ◌++◌, arith, length, Bytes,
  take, drop, get_u32, put_u32,
}
use logship.Record.{
  Record, ok, err, panic, corrupt, stamped, encode, decode, encoded_size, payload_size, max_size,
}
use logship.Record.Crc.{crc32c}
use logship.Record.RoundTrip.{IsWire, decode-encode}
use logship.Record.Damage.{torn_error, decode-torn, decode-encode_oversize, decode_panics}

-- One key byte, two value bytes; 36 bytes encoded.
abbrev small : Record
small = record { offset = 7; timestamp = 0; key = 107 ∷ []; value = 1 ∷ 2 ∷ [] }

small-IsWire : IsWire (stamped 5 small)
small-IsWire = record {
  offset_fits = omega arith;
  timestamp_fits = omega arith;
  size_fits = omega arith;
}

decode-encode_example :
    decode (encode 5 small ++ (9 ∷ 9 ∷ [])) ≡ ok (stamped 5 small, encoded_size small)
decode-encode_example = decode-encode 5 small (9 ∷ 9 ∷ []) small-IsWire

small-size : 10 < encoded_size small
unfolding encoded_size
small-size = omega arith

decode-torn_example : decode (take 10 (encode 5 small)) ≡ err (torn_error 10)
decode-torn_example = decode-torn 5 small 10 small-IsWire small-size

read_back : decode (encode 5 small) ≡ ok (stamped 5 small, encoded_size small)
read_back =
    subst (λ b. decode b ≡ ok (stamped 5 small, encoded_size small)) (append-nil (encode 5 small))
      (decode-encode 5 small [] small-IsWire)

zeros : ℕ → Bytes
zeros zero = []
zeros (suc n) = 0 ∷ zeros n

length-zeros : (n : ℕ) → length (zeros n) ≡ n
unfolding zeros
length-zeros zero = refl
length-zeros (suc n) = omega (arith, length-zeros n)

-- 64 MiB of value.
abbrev big : Record
big = record { offset = 7; timestamp = 1; key = []; value = zeros 67108864 }

big-over : max_size < payload_size big
big-over = omega (arith, length-zeros 67108864)

big-fits : payload_size big < 4294967296
big-fits = omega (arith, length-zeros 67108864)

decode-encode_oversize_example : decode (encode 5 big ++ []) ≡ err corrupt
decode-encode_oversize_example = decode-encode_oversize 5 big [] big-over big-fits

-- A payload of 25 bytes whose key length is 2 ^ 32 - 25.
abbrev wrapping : Bytes
wrapping =
    1 ∷ 0 ∷ 0 ∷ 0 ∷ 0 ∷ 0 ∷ 0 ∷ 0 ∷ 0 ∷ 0 ∷ 0 ∷ 0 ∷ 0 ∷ 0 ∷ 0 ∷ 0 ∷ 0 ∷ 255 ∷ 255 ∷ 255 ∷ 231 ∷ 0
    ∷ 0 ∷ 0 ∷ 0 ∷ []

wrapping-word : 4294967296 ≤ get_u32 (drop 17 wrapping) + 25
unfolding get_u32
wrapping-word = omega arith

wrapping-fits : get_u32 (drop 17 wrapping) < 4294967296
unfolding get_u32
wrapping-fits = omega arith

decode_panics_example :
    decode (
      (put_u32 (crc32c (put_u32 (length wrapping) ++ wrapping)) ++ put_u32 (length wrapping))
      ++ wrapping)
    ≡ panic
decode_panics_example =
    decode_panics wrapping (omega arith) (omega arith) refl wrapping-word wrapping-fits
