-- ===== src/Record.antt =====
-- The record format, internal/record/record.go. A Go string or byte slice is a list of bytes, an
-- int64 that is only stored is its 64-bit pattern, and the clock is an argument.
pub mod Crc
pub mod Size
pub mod RoundTrip
pub mod Damage
pub mod Sound
mod Tests
use logship.Prelude.{
  ℕ, ◌+◌, ◌-◌, ◌*◌, ◌%◌, ◌^◌, Bool, true, false, not, ◌&&◌, ◌||◌, Option, none, some, [], ◌∷◌, ◌++◌,
  ltb, leb, ◌==◌, if◌then◌else◌, length, take, drop, Bytes, put_u32, put_u64, get_u32, get_u64,
}
use Crc.{crc32c}

pub record Record : Type 0 where
  pub offset : ℕ
  pub timestamp : ℕ
  pub key : Bytes
  pub value : Bytes

-- `corrupt` is ErrCorrupt and `bad_magic` is ErrBadMagic; the others are those of package io.
pub data Error : Type 0 where
  eof unexpected_eof corrupt bad_magic : Error

-- Go's (value, error) pair. `panic` is a slice expression out of range.
pub data Result {ℓ} (A : Type ℓ) : Type ℓ where
  ok : A → Result A
  err : Error → Result A
  panic : Result A

abbrev pub magic : ℕ
magic = 1

-- 64 << 20
abbrev pub max_size : ℕ
max_size = 64 * 2 ^ 20

-- 1 + 8 + 8 + 4 + keyLen + 4 + valLen
abbrev pub payload_size : Record → ℕ
payload_size r = 1 + 8 + 8 + 4 + length r.key + 4 + length r.value

unfoldable pub encoded_size : Record → ℕ
encoded_size r = 8 + 1 + 8 + 8 + 4 + length r.key + 4 + length r.value

-- A zero timestamp is replaced by the clock.
abbrev pub stamped : ℕ → Record → Record
stamped now r = record r { timestamp = if r.timestamp == 0 then now else r.timestamp }

-- buf[8:]
unfoldable pub payload : Record → Bytes
payload r =
    magic
    ∷ (put_u64 r.offset
        ++ (put_u64 r.timestamp
            ++ (put_u32 (length r.key % 2 ^ 32)
                ++ (r.key ++ (put_u32 (length r.value % 2 ^ 32) ++ r.value)))))

-- buf[4:]
unfoldable pub sized : Record → Bytes
sized r = put_u32 (payload_size r % 2 ^ 32) ++ payload r

-- A record as it stands in a file: the checksum of what follows it, then that.
unfoldable pub frame : Record → Bytes
frame r = put_u32 (crc32c (sized r)) ++ sized r

abbrev pub encode : ℕ → Record → Bytes
encode now r = frame (stamped now r)

-- payload[lo:hi], where the capacity is the length.
unfoldable pub slice : ℕ → ℕ → Bytes → Option Bytes
slice lo hi xs =
    if leb lo hi && leb hi (length xs) then some (take (hi - lo) (drop lo xs)) else none

infixl 5 ◌>>=◌
abbrev pub ◌>>=◌ {ℓ κ} : {A : Type ℓ} {B : Type κ} → Result A → (A → Result B) → Result B
ok a >>= f = f a
err e >>= f = err e
panic >>= f = panic

abbrev pub or_panic {ℓ} : {A : Type ℓ} → Option A → Result A
or_panic none = panic
or_panic (some a) = ok a

-- io.ErrUnexpectedEOF and io.EOF inside a record are ErrCorrupt.
abbrev pub or_corrupt {ℓ} : {A : Type ℓ} → Result A → Result A
or_corrupt (ok a) = ok a
or_corrupt (err e) = err corrupt
or_corrupt panic = panic

-- `n` bytes from what is left to read, and the rest. A reader of a file gives all it has.
unfoldable pub read_full : ℕ → Bytes → Result (Bytes × Bytes)
read_full n src =
    if leb n (length src)
    then ok (take n src, drop n src)
    else if length src == 0
    then err eof
    else err unexpected_eof

-- From the key on. `21 + keyLen + 4` and `21 + keyLen` are uint32 sums, `valOff` is an int.
unfoldable pub decode_fields : Bytes → Result Record
decode_fields body =
    let key_len = get_u32 (drop 17 body) in
    let val_off = 21 + key_len in
    if ltb (length body) ((21 + key_len + 4) % 2 ^ 32) then err corrupt else do
      key ← or_panic (slice 21 ((21 + key_len) % 2 ^ 32) body)
      len_bytes ← or_panic (slice val_off (val_off + 4) body)
      let val_len = get_u32 len_bytes
      if not (val_off + 4 + val_len == length body) then err corrupt else do
        value ← or_panic (slice (val_off + 4) (val_off + 4 + val_len) body)
        ok (record {
          offset = get_u64 (take 8 (drop 1 body));
          timestamp = get_u64 (take 8 (drop 9 body));
          key = key;
          value = value;
        })

-- payload[0], of a payload that is never empty.
abbrev pub get_u8 : Bytes → ℕ
get_u8 [] = 0
get_u8 (b ∷ _) = b

-- The checks on a payload of `size` bytes, which `hdr` announced.
unfoldable pub decode_payload : Bytes → Bytes → Result Record
decode_payload hdr body =
    if not (crc32c (drop 4 hdr ++ body) == get_u32 hdr)
    then err corrupt
    else if not (get_u8 body == magic)
    then err bad_magic
    else decode_fields body

-- The record at the front of what is left to read, and the bytes that it takes.
unfoldable pub decode : Bytes → Result (Record × ℕ)
decode src = do
  (hdr, rest) ← read_full 8 src
  let size = get_u32 (drop 4 hdr)
  if ltb size 25 || ltb max_size size then err corrupt else do
    (body, _) ← or_corrupt (read_full size rest)
    rec ← decode_payload hdr body
    ok (rec, 8 + size)

-- `r.ReadAt` from a position: past the end there is nothing to read.
unfoldable pub decode_at : Bytes → ℕ → Result (Record × ℕ)
decode_at file off = decode (drop off file)
