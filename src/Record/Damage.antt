-- ===== src/Record/Damage.antt =====
-- What `Decode` makes of bytes that `Encode` did not finish, or that no reader accepts.
use logship.Prelude.{
  ℕ, ◌+◌, ◌-◌, ◌≤◌, ◌<◌, ◌^◌, ◌≡◌, refl, sym, ap, ◌∙◌, [], ◌++◌, append-nil, append_assoc, arith,
  le→ltb-false, ltb, ◌==◌, if◌then◌else◌, length, length-append, length-put_u32, put_u32, get_u32,
  Bytes, take, drop, take-append, length-take, lt→leb-false, lt→ltb, ==_refl,
}
use native.Mathlib.Decide.{dec_lt}
use logship.Record.{
  Record, Error, ok, err, panic, eof, unexpected_eof, corrupt, payload_size, encoded_size, stamped,
  payload, sized, encode, frame, slice, read_full, decode_fields, decode_payload, decode, max_size,
  magic, get_u8, or_corrupt,
}
use logship.Record.Crc.{crc32c, crc32c-lt}
use logship.Record.Size.{length-payload, length-sized}
use logship.Record.RoundTrip.{
  IsWire, decode-header, sized-eq, regroup, read_full-append, drop_header, header_words,
}

read_full-short :
    (n : ℕ) (src : Bytes)
    → length src < n
    → read_full n src ≡ err (if length src == 0 then eof else unexpected_eof)
unfolding read_full
read_full-short n src h = rw (lt→leb-false n (length src) h) (ground arith)

or_corrupt-short :
    (n : ℕ) (src : Bytes) → length src < n → or_corrupt (read_full n src) ≡ err corrupt
or_corrupt-short n src h = rw (read_full-short n src h) refl

-- The error for the first `n` bytes of a record.
abbrev pub torn_error : ℕ → Error
torn_error n = if n == 0 then eof else if ltb n 8 then unexpected_eof else corrupt

torn_header : (src : Bytes) → length src < 8 → decode src ≡ err (torn_error (length src))
unfolding decode
torn_header src h = rw (read_full-short 8 src h) (ground arith)

module _ (r : Record) (w : IsWire r) where
  header_length : (c : ℕ) → length (put_u32 c ++ put_u32 (payload_size r)) ≡ 8
  unfolding put_u32
  header_length c = refl

  torn_payload :
      (c k : ℕ)
      → c < 2 ^ 32
      → k < payload_size r
      → decode ((put_u32 c ++ put_u32 (payload_size r)) ++ take k (payload r)) ≡ err corrupt
  torn_payload c k hc hk =
      let fits : payload_size r < 2 ^ 32 = omega (arith, w.size_fits) in
      rw (
        decode-header c (payload_size r) (take k (payload r)) hc fits,
        le→ltb-false (payload_size r) 25 (omega arith),
        le→ltb-false max_size (payload_size r) w.size_fits,
        or_corrupt-short (payload_size r) (take k (payload r))
            (omega (arith, length-take k (payload r), length-payload r)),
      )

  torn_sized :
      (c k : ℕ)
      → c < 2 ^ 32
      → k < 8 + payload_size r
      → decode (take k (put_u32 c ++ sized r)) ≡ err (torn_error k)
  torn_sized c k hc hk =
      let fits : payload_size r < 2 ^ 32 = omega (arith, w.size_fits) in
      elim (dec_lt k 8) [
        | yes short ↦
            let len : length (take k (put_u32 c ++ sized r)) ≡ k = omega (
              arith,
              length-take k (put_u32 c ++ sized r),
              length-append (put_u32 c) (sized r),
              length-put_u32 c,
              length-sized r,
            ) in
            torn_header (take k (put_u32 c ++ sized r)) (omega arith)
            ∙ ap (λ n. err (torn_error n)) len
        | no long ↦
            rw
              (
                sized-eq r fits,
                ← append_assoc (put_u32 c) (put_u32 (payload_size r)) (payload r),
                take-append k (put_u32 c ++ put_u32 (payload_size r)) (payload r)
                    (omega (arith, header_length c)),
                torn_payload c (k - length (put_u32 c ++ put_u32 (payload_size r))) hc
                    (omega (arith, header_length c)),
              )
              (ground arith)
      ]

pub frame-torn :
    (r : Record) (n : ℕ)
    → IsWire r
    → n < encoded_size r
    → decode (take n (frame r)) ≡ err (torn_error n)
unfolding frame encoded_size
frame-torn r n w h = torn_sized r w (crc32c (sized r)) n (crc32c-lt (sized r)) (omega arith)

-- A record that fits the format and was cut short is never read as a record: an empty rest is the end of the file, a
-- cut header an unexpected end, and a cut payload is corrupt.
pub decode-torn :
    (now : ℕ) (r : Record) (n : ℕ)
    → IsWire (stamped now r)
    → n < encoded_size r
    → decode (take n (encode now r)) ≡ err (torn_error n)
unfolding encoded_size
decode-torn now r n w h = frame-torn (stamped now r) n w h

-- `Encode` writes records that `Decode` refuses: those whose payload is over 64 MiB
-- and under 4 GiB.
pub decode-encode_oversize :
    (now : ℕ) (r : Record) (rest : Bytes)
    → max_size < payload_size r
    → payload_size r < 2 ^ 32
    → decode (encode now r ++ rest) ≡ err corrupt
unfolding frame
decode-encode_oversize now r rest over fits =
    let s = stamped now r in
    rw (
      regroup s fits (crc32c (sized s)) rest,
      decode-header (crc32c (sized s)) (payload_size r) (payload s ++ rest) (crc32c-lt (sized s))
          fits,
      le→ltb-false (payload_size r) 25 (omega arith),
      lt→ltb max_size (payload_size r) over,
    )

read_full-whole : (body : Bytes) → read_full (length body) body ≡ ok (body, [])
read_full-whole body =
    ap (read_full (length body)) (sym (append-nil body))
    ∙ read_full-append (length body) body [] refl

fields_panic :
    (body : Bytes)
    → 25 ≤ length body
    → length body ≤ max_size
    → 2 ^ 32 ≤ get_u32 (drop 17 body) + 25
    → get_u32 (drop 17 body) < 2 ^ 32
    → decode_fields body ≡ panic
unfolding decode_fields slice
fields_panic body lo hi big word = ground arith

payload_panics :
    (c : ℕ) (body : Bytes)
    → c < 2 ^ 32
    → length body < 2 ^ 32
    → crc32c (put_u32 (length body) ++ body) ≡ c
    → get_u8 body ≡ magic
    → 25 ≤ length body
    → length body ≤ max_size
    → 2 ^ 32 ≤ get_u32 (drop 17 body) + 25
    → get_u32 (drop 17 body) < 2 ^ 32
    → decode_payload (put_u32 c ++ put_u32 (length body)) body ≡ panic
unfolding decode_payload
payload_panics c body bound fits e m lo hi big word = rw (
  drop_header c (put_u32 (length body)),
  (header_words c (length body) bound fits).0,
  e,
  ==_refl c,
  m,
  fields_panic body lo hi big word,
)

-- In a payload of 25 bytes up to 64 MiB, a key length of at least 2 ^ 32 - 25 wraps round in `21 + keyLen + 4`: it passes the check, and
-- the slice expression behind the check panics, although magic and checksum are right.
pub decode_panics :
    (body : Bytes)
    → 25 ≤ length body
    → length body ≤ max_size
    → get_u8 body ≡ magic
    → 2 ^ 32 ≤ get_u32 (drop 17 body) + 25
    → get_u32 (drop 17 body) < 2 ^ 32
    → decode ((put_u32 (crc32c (put_u32 (length body) ++ body)) ++ put_u32 (length body)) ++ body)
      ≡ panic
decode_panics body lo hi m big word =
    let n = length body in
    let c = crc32c (put_u32 n ++ body) in
    let bound : c < 2 ^ 32 = crc32c-lt (put_u32 n ++ body) in
    rw (
      decode-header c n body bound (omega arith),
      le→ltb-false n 25 lo,
      le→ltb-false max_size n hi,
      read_full-whole body,
      payload_panics c body bound (omega arith) refl m lo hi big word,
    )
