-- ===== src/Record/RoundTrip.antt =====
-- `Decode` after `Encode`, internal/record/record.go.
use logship.Prelude.{
  ℕ, ◌+◌, ◌-◌, ◌≤◌, ◌<◌, ◌^◌, ◌%◌, ◌≡◌, refl, ap, sym, ◌∙◌, ◌||◌, [], ◌∷◌, ◌++◌, some, append-nil,
  append_assoc, arith, le→ltb-false, ltb, if◌then◌else◌, length, length-append, length-put_u32,
  put_u32, put_u64, get_u32, get_u64, Bytes, take, drop, take-length_append, drop-length_append,
  le→leb, ==_refl,
}
use logship.Record.{
  get_u8, ◌>>=◌, or_corrupt, Record, ok, err, corrupt, payload_size, encoded_size, stamped, payload,
  sized, encode, frame, slice, read_full, decode_fields, decode_payload, decode, max_size, magic,
}
use logship.Record.Crc.{crc32c, crc32c-lt}
use logship.Record.Size.{length-payload, lengths, encoded_size-eq_payload}

-- A record that fits the format: words of 64 bits, and a payload that `Decode` accepts.
pub record IsWire (r : Record) : Type 0 where
  pub offset_fits : r.offset < 2 ^ 64
  pub timestamp_fits : r.timestamp < 2 ^ 64
  pub size_fits : payload_size r ≤ max_size

slice_at :
    (xs pre mid post : Bytes) (lo hi : ℕ)
    → xs ≡ pre ++ (mid ++ post)
    → lo ≡ length pre
    → hi ≡ lo + length mid
    → slice lo hi xs ≡ some mid
unfolding slice
slice_at xs pre mid post lo hi e l h = rw (
  e,
  le→leb lo hi (omega arith),
  le→leb hi (length (pre ++ (mid ++ post)))
      (omega (arith, length-append pre (mid ++ post), length-append mid post)),
  drop-length_append pre (mid ++ post) lo l,
  take-length_append mid post (hi - lo) (omega arith),
)

module _ (r : Record) where
  -- The 21 bytes in front of the key.
  front : Bytes
  front = magic ∷ (put_u64 r.offset ++ (put_u64 r.timestamp ++ put_u32 (length r.key % 2 ^ 32)))

  value_part : Bytes
  value_part = put_u32 (length r.value % 2 ^ 32) ++ r.value

  length-front : length front ≡ 21
  unfolding front
  length-front = simp lengths

  payload_at_key : payload r ≡ front ++ (r.key ++ value_part)
  unfolding payload front value_part
  payload_at_key = simp append_assoc

  payload_at_len : payload r ≡ (front ++ r.key) ++ value_part
  payload_at_len = payload_at_key ∙ simp append_assoc

  payload_at_value :
      payload r ≡ ((front ++ r.key) ++ put_u32 (length r.value % 2 ^ 32)) ++ (r.value ++ [])
  payload_at_value = payload_at_len ∙ (unfold value_part in simp (append_assoc, append-nil))

  words-payload :
      (get_u32 (drop 17 (payload r)) ≡ length r.key % 2 ^ 32)
      × (get_u64 (take 8 (drop 1 (payload r))) ≡ r.offset % 2 ^ 64)
      × (get_u64 (take 8 (drop 9 (payload r))) ≡ r.timestamp % 2 ^ 64)
  unfolding payload put_u64 put_u32 get_u64 get_u32
  words-payload = omega arith

module _ (r : Record) (w : IsWire r) where
  value_len_bytes : get_u32 (put_u32 (length r.value % 2 ^ 32)) ≡ length r.value
  unfolding put_u32 get_u32
  value_len_bytes = omega arith

  key_len-payload : get_u32 (drop 17 (payload r)) ≡ length r.key
  key_len-payload = omega (arith, words-payload r)

  offset-payload : get_u64 (take 8 (drop 1 (payload r))) ≡ r.offset
  offset-payload = omega (arith, w.offset_fits, words-payload r)

  timestamp-payload : get_u64 (take 8 (drop 9 (payload r))) ≡ r.timestamp
  timestamp-payload = omega (arith, w.timestamp_fits, words-payload r)

  slices-payload :
      (slice 21 (21 + length r.key) (payload r) ≡ some r.key)
      × (slice (21 + length r.key) (21 + length r.key + 4) (payload r)
          ≡ some (put_u32 (length r.value % 2 ^ 32)))
      × (slice (21 + length r.key + 4) (21 + length r.key + 4 + length r.value) (payload r)
          ≡ some r.value)
  unfolding value_part
  slices-payload = (
    slice_at (payload r) (front r) r.key (value_part r) 21 (21 + length r.key) (payload_at_key r)
        (omega (arith, length-front r)) refl,
    slice_at (payload r) (front r ++ r.key) (put_u32 (length r.value % 2 ^ 32)) r.value
        (21 + length r.key) (21 + length r.key + 4) (payload_at_len r)
        (omega (arith, length-front r, length-append (front r) r.key))
        (omega (arith, length-put_u32 (length r.value % 2 ^ 32))),
    slice_at (payload r) ((front r ++ r.key) ++ put_u32 (length r.value % 2 ^ 32)) r.value []
        (21 + length r.key + 4) (21 + length r.key + 4 + length r.value) (payload_at_value r)
        (omega (
          arith,
          length-front r,
          length-append (front r) r.key,
          length-append (front r ++ r.key) (put_u32 (length r.value % 2 ^ 32)),
          length-put_u32 (length r.value % 2 ^ 32),
        ))
        refl,
  )

  decode_fields-payload : decode_fields (payload r) ≡ ok r
  unfolding decode_fields
  decode_fields-payload =
      let fits : length r.key + length r.value + 25 ≤ max_size = omega (arith, w.size_fits) in
      let len : length (payload r) ≡ 21 + length r.key + 4 + length r.value =
        omega (arith, length-payload r) in
      let m1 : (21 + length r.key + 4) % 2 ^ 32 ≡ 21 + length r.key + 4 = omega arith in
      let m2 : (21 + length r.key) % 2 ^ 32 ≡ 21 + length r.key = omega arith in
      rw (
        key_len-payload,
        m1,
        m2,
        le→ltb-false (length (payload r)) (21 + length r.key + 4) (omega arith),
        (slices-payload).0,
        (slices-payload).1,
        value_len_bytes,
        (slices-payload).2,
        len,
        ==_refl (21 + length r.key + 4 + length r.value),
        offset-payload,
        timestamp-payload,
      )

pub read_full-append :
    (n : ℕ) (xs ys : Bytes) → n ≡ length xs → read_full n (xs ++ ys) ≡ ok (xs, ys)
unfolding read_full
read_full-append n xs ys e = rw (
  le→leb n (length (xs ++ ys)) (omega (arith, length-append xs ys)),
  take-length_append xs ys n e,
  drop-length_append xs ys n e,
)

pub header_words :
    (c n : ℕ)
    → c < 2 ^ 32
    → n < 2 ^ 32
    → (get_u32 (put_u32 c ++ put_u32 n) ≡ c) × (get_u32 (drop 4 (put_u32 c ++ put_u32 n)) ≡ n)
unfolding put_u32 get_u32
header_words c n hc hn = omega arith

pub drop_header : (c : ℕ) (xs : Bytes) → drop 4 (put_u32 c ++ xs) ≡ xs
unfolding put_u32
drop_header c xs = refl

-- `Decode` behind a header that announces `n` bytes with the checksum `c`.
pub decode-header :
    (c n : ℕ) (tail : Bytes)
    → c < 2 ^ 32
    → n < 2 ^ 32
    → decode ((put_u32 c ++ put_u32 n) ++ tail) ≡ (
        if ltb n 25 || ltb max_size n then err corrupt else do
          (body, _) ← or_corrupt (read_full n tail)
          rec ← decode_payload (put_u32 c ++ put_u32 n) body
          ok (rec, 8 + n))
unfolding decode
decode-header c n tail hc hn = rw (
  read_full-append 8 (put_u32 c ++ put_u32 n) tail
      (omega (arith, length-append (put_u32 c) (put_u32 n), length-put_u32 c, length-put_u32 n)),
  (header_words c n hc hn).1,
)

-- Where the payload fits a uint32, the size field holds its length.
pub sized-eq :
    (r : Record) → payload_size r < 2 ^ 32 → sized r ≡ put_u32 (payload_size r) ++ payload r
unfolding sized
sized-eq r fits = ap (λ n. put_u32 n ++ payload r) (omega arith)

pub regroup :
    (r : Record)
    → payload_size r < 2 ^ 32
    → (c : ℕ) (rest : Bytes)
    → (put_u32 c ++ sized r) ++ rest
      ≡ (put_u32 c ++ put_u32 (payload_size r)) ++ (payload r ++ rest)
regroup r fits c rest = rw (sized-eq r fits) (simp append_assoc)

get_u8-payload : (r : Record) → get_u8 (payload r) ≡ magic
unfolding payload
get_u8-payload r = refl

module _ (r : Record) (w : IsWire r) where
  decode_payload-sized :
      decode_payload (put_u32 (crc32c (sized r)) ++ put_u32 (payload_size r)) (payload r) ≡ ok r
  unfolding decode_payload
  decode_payload-sized =
      let fits : payload_size r < 2 ^ 32 = omega (arith, w.size_fits) in
      rw
        (
          drop_header (crc32c (sized r)) (put_u32 (payload_size r)),
          ← sized-eq r fits,
          (header_words (crc32c (sized r)) (payload_size r) (crc32c-lt (sized r)) fits).0,
          ==_refl (crc32c (sized r)),
          get_u8-payload r,
        )
        (decode_fields-payload r w)

  pub decode-frame : (rest : Bytes) → decode (frame r ++ rest) ≡ ok (r, encoded_size r)
  unfolding frame
  decode-frame rest =
      let fits : payload_size r < 2 ^ 32 = omega (arith, w.size_fits) in
      rw (
        regroup r fits (crc32c (sized r)) rest,
        decode-header (crc32c (sized r)) (payload_size r) (payload r ++ rest) (crc32c-lt (sized r))
            fits,
        le→ltb-false (payload_size r) 25 (omega arith),
        le→ltb-false max_size (payload_size r) w.size_fits,
        read_full-append (payload_size r) (payload r) rest (sym (length-payload r)),
        decode_payload-sized,
        encoded_size-eq_payload r,
      )

-- A record that fits the format is read back whole, with what follows it left over.
pub decode-encode :
    (now : ℕ) (r : Record) (rest : Bytes)
    → IsWire (stamped now r)
    → decode (encode now r ++ rest) ≡ ok (stamped now r, encoded_size r)
unfolding encoded_size
decode-encode now r rest w = decode-frame (stamped now r) w rest
