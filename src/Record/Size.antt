-- ===== src/Record/Size.antt =====
-- How many bytes a record takes: `EncodedSize` against what `Encode` writes.
use logship.Prelude.{
  ℕ, ◌+◌, ◌≤◌, ◌^◌, ◌%◌, ◌≡◌, refl, ◌++◌, arith, length, length-append, length-put_u32,
  length-put_u64, put_u32, put_u64,
}
use logship.Record.{Record, payload_size, encoded_size, stamped, payload, sized, frame, encode}

pub ruleset lengths = (length-append, length-put_u32, length-put_u64)

pub length-payload : (r : Record) → length (payload r) ≡ payload_size r
unfolding payload
length-payload r = simp lengths (omega arith)

pub length-sized : (r : Record) → length (sized r) ≡ 4 + payload_size r
unfolding sized
length-sized r = simp (lengths, length-payload)

pub length-frame : (r : Record) → length (frame r) ≡ encoded_size r
unfolding frame encoded_size
length-frame r = simp (lengths, length-sized) (omega arith)

-- `Encode` writes `EncodedSize` bytes, whatever the record and the clock.
pub length-encode : (now : ℕ) (r : Record) → length (encode now r) ≡ encoded_size r
unfolding encoded_size
length-encode now r = length-frame (stamped now r)

pub encoded_size-eq_payload : (r : Record) → encoded_size r ≡ 8 + payload_size r
unfolding encoded_size
encoded_size-eq_payload r = omega arith

-- No record takes fewer than 33 bytes.
pub encoded_size-le : (r : Record) → 33 ≤ encoded_size r
unfolding encoded_size
encoded_size-le r = omega arith
