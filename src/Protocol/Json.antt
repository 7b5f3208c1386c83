-- ===== src/Protocol/Json.antt =====
-- What encoding/json makes of the texts of internal/protocol/types.go on their way from one broker to
-- another, and to a client: the encoder puts U+FFFD for each byte that begins no UTF-8 rune. All other
-- texts and all integers are decoded as they were encoded.
use logship.Prelude.{
  ℕ, zero, suc, ◌≡◌, refl, ap, Bool, true, false, ◌&&◌, List, [], ◌∷◌, leb, ltb, ◌==◌,
  if◌then◌else◌, Bytes, All,
}
use logship.Record.{Record}
use logship.Protocol.{WireRecord, FetchResponse, ReplicaAckRequest}

abbrev between : ℕ → ℕ → ℕ → Bool
between lo hi c = leb lo c && leb c hi

two_bytes : Bytes → ℕ
two_bytes (b ∷ rest) = if between 128 191 b then 2 else 0
two_bytes _ = 0

-- No overlong forms and no surrogates.
three_bytes : ℕ → Bytes → ℕ
three_bytes a (b ∷ c ∷ rest) =
    if between (if a == 224 then 160 else 128) (if a == 237 then 159 else 191) b
      && between 128 191 c
    then 3
    else 0
three_bytes a _ = 0

-- No overlong forms and nothing past U+10FFFF.
four_bytes : ℕ → Bytes → ℕ
four_bytes a (b ∷ c ∷ d ∷ rest) =
    if between (if a == 240 then 144 else 128) (if a == 244 then 143 else 191) b
      && between 128 191 c
      && between 128 191 d
    then 4
    else 0
four_bytes a _ = 0

-- The bytes of the rune in front, 0 if there is none.
unfoldable pub rune_size : Bytes → ℕ
unfolding two_bytes three_bytes four_bytes
rune_size [] = 0
rune_size (a ∷ rest) =
    if ltb a 128
    then 1
    else if between 194 223 a
    then two_bytes rest
    else if between 224 239 a
    then three_bytes a rest
    else if between 240 244 a
    then four_bytes a rest
    else 0

replaced : ℕ → ℕ → (ℕ → Bytes) → Bytes
replaced zero c rest = 239 ∷ 191 ∷ 189 ∷ rest zero
replaced (suc n) c rest = c ∷ rest n

-- The text behind the first bytes, which end the rune that is being read.
unfoldable pub coerced : ℕ → Bytes → Bytes
unfolding replaced
coerced n [] = []
coerced (suc n) (c ∷ cs) = c ∷ coerced n cs
coerced zero (c ∷ cs) = replaced (rune_size (c ∷ cs)) c (λ n. coerced n cs)

-- A string that was encoded and decoded.
unfoldable pub over_json : Bytes → Bytes
over_json s = coerced zero s

begun : ℕ → (ℕ → Bool) → Bool
begun zero rest = false
begun (suc n) rest = rest n

unfoldable pub valid_behind : ℕ → Bytes → Bool
unfolding begun
valid_behind n [] = true
valid_behind (suc n) (c ∷ cs) = valid_behind n cs
valid_behind zero (c ∷ cs) = begun (rune_size (c ∷ cs)) (λ n. valid_behind n cs)

-- Whether a string is UTF-8.
unfoldable pub is_text : Bytes → Bool
is_text s = valid_behind zero s

replaced-begun :
    (k c : ℕ) (cs : Bytes)
    → ((n : ℕ) → valid_behind n cs ≡ true → coerced n cs ≡ cs)
    → begun k (λ n. valid_behind n cs) ≡ true
    → replaced k c (λ n. coerced n cs) ≡ c ∷ cs
unfolding begun replaced
replaced-begun zero c cs behind e = cc
replaced-begun (suc n) c cs behind e = ap (λ r. c ∷ r) (behind n e)

coerced-valid : (n : ℕ) (s : Bytes) → valid_behind n s ≡ true → coerced n s ≡ s
unfolding coerced valid_behind
coerced-valid n [] h = refl
coerced-valid (suc n) (c ∷ cs) h = ap (λ r. c ∷ r) (coerced-valid n cs h)
coerced-valid zero (c ∷ cs) h =
    replaced-begun (rune_size (c ∷ cs)) c cs (λ n e. coerced-valid n cs e) h

pub over_json-text : (s : Bytes) → is_text s ≡ true → over_json s ≡ s
unfolding over_json is_text
over_json-text s h = coerced-valid zero s h

record_over_json : WireRecord → WireRecord
record_over_json w = record w { key = over_json w.key; value = over_json w.value }

unfoldable pub records_over_json : List WireRecord → List WireRecord
unfolding record_over_json
records_over_json [] = []
records_over_json (w ∷ ws) = record_over_json w ∷ records_over_json ws

-- The answer to a fetch, as the one who asked decodes it.
unfoldable pub response_over_json : FetchResponse → FetchResponse
response_over_json fr = record fr {
  topic = over_json fr.topic;
  records = records_over_json fr.records;
}

-- An acknowledgement, as the leader decodes it.
unfoldable pub ack_over_json : ReplicaAckRequest → ReplicaAckRequest
ack_over_json a = record a { topic = over_json a.topic }

abbrev pub IsText : Record → Type 0
IsText r = (is_text r.key ≡ true) × (is_text r.value ≡ true)

abbrev IsWireText : WireRecord → Type 0
IsWireText w = (is_text w.key ≡ true) × (is_text w.value ≡ true)

-- Records of UTF-8 are decoded as they were encoded.
pub records_over_json-text : (ws : List WireRecord) → All IsWireText ws → records_over_json ws ≡ ws
unfolding records_over_json record_over_json
records_over_json-text [] h = refl
records_over_json-text (w ∷ ws) h =
    rw (over_json-text w.key h.0.0, over_json-text w.value h.0.1, records_over_json-text ws h.1)
      refl
