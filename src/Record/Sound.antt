-- ===== src/Record/Sound.antt =====
-- What a successful `Decode` says of the bytes that it read.
use logship.Prelude.{
  ℕ, ◌+◌, ◌-◌, ◌≤◌, ◌<◌, ◌^◌, ◌%◌, ◌≡◌, some, arith, length, get_u32, Bytes, take, drop,
  length-take, length-drop,
}
use logship.Record.{
  Record, ok, payload_size, encoded_size, slice, read_full, decode_fields, decode_payload, decode,
}
use logship.Record.Size.{encoded_size-eq_payload}

slice-length :
    (lo hi : ℕ) (xs ys : Bytes)
    → slice lo hi xs ≡ some ys
    → (length ys ≡ hi - lo) × (lo ≤ hi) × (hi ≤ length xs)
unfolding slice
slice-length lo hi xs ys h = ground (arith, length-take (hi - lo) (drop lo xs), length-drop lo xs)

pub read_full-ok :
    (n : ℕ) (src xs rest : Bytes)
    → read_full n src ≡ ok (xs, rest)
    → (xs ≡ take n src) × (rest ≡ drop n src) × (n ≤ length src)
unfolding read_full
read_full-ok n src xs rest h = ground arith

decode_fields-size :
    (body : Bytes) (r : Record)
    → length body < 2 ^ 32
    → decode_fields body ≡ ok r
    → length body ≡ payload_size r
unfolding decode_fields slice
decode_fields-size body r fits h =
    let kl = get_u32 (drop 17 body) in
    let hi = (21 + kl) % 2 ^ 32 in
    let vl = get_u32 (take (21 + kl + 4 - (21 + kl)) (drop (21 + kl) body)) in
    ground (
      arith,
      length-take (hi - 21) (drop 21 body),
      length-drop 21 body,
      length-take (21 + kl + 4 + vl - (21 + kl + 4)) (drop (21 + kl + 4) body),
      length-drop (21 + kl + 4) body,
    )

decode_payload-size :
    (hdr body : Bytes) (r : Record)
    → length body < 2 ^ 32
    → decode_payload hdr body ≡ ok r
    → length body ≡ payload_size r
unfolding decode_payload
decode_payload-size hdr body r fits h = ground (arith, decode_fields-size body r)

-- A record that `Decode` reads took as many bytes as `EncodedSize` says of it, and no more than there
-- were.
pub decode-size :
    (src : Bytes) (r : Record) (n : ℕ)
    → decode src ≡ ok (r, n)
    → (n ≡ encoded_size r) × (n ≤ length src)
unfolding decode read_full
decode-size src r n h =
    let size = get_u32 (drop 4 (take 8 src)) in
    ground (
      arith,
      read_full-ok 8 src (take 8 src) (drop 8 src),
      decode_payload-size (take 8 src) (take size (drop 8 src)) r,
      length-take size (drop 8 src),
      length-drop 8 src,
      encoded_size-eq_payload r,
    )
