-- ===== src/Config.antt =====
-- The list of peers, `ParsePeers` of internal/broker/config.go, and the defaults of `New` in
-- internal/broker/broker.go. `trim` stands for strings.TrimSpace; an error is `none`. Times are ℕ.
mod Tests
use logship.Prelude.{
  All-map, itoa-bounds, length-append, ◌≤◌, ◌<◌, ap, ◌∙◌, ℕ, ◌+◌, ◌≡◌, ◌≢◌, refl, Bool, true, false,
  Option, none, some, List, [], ◌∷◌, ◌++◌, ◌==◌, if◌then◌else◌, leb, Bytes, split, cut, cut-append,
  split-single, split-append, atoi, itoa, atoi-itoa, FitsInt, All, All-append, append_assoc, length,
  arith, ne→==-false,
}
use logship.Prelude.Int.{ℤ, pos, negsuc, leb_ℤ}

pub record PeerEntry : Type 0 where
  pub id : ℤ
  pub addr : Bytes

with_id : Option ℤ → Bytes → Option PeerEntry
with_id none addr = none
with_id (some id) addr = some record { id = id; addr = addr }

entry_parts : Option (Bytes × Bytes) → Option PeerEntry
entry_parts none = none
entry_parts (some (id, addr)) = with_id (atoi id) addr

-- 61 is "=".
parse_entry : Bytes → Option PeerEntry
parse_entry part = entry_parts (cut 61 part)

behind_entry : Option PeerEntry → Option (List PeerEntry) → Option (List PeerEntry)
behind_entry none rest = none
behind_entry (some p) none = none
behind_entry (some p) (some ps) = some (p ∷ ps)

module _ (trim : Bytes → Bytes) where
  parse_parts : List Bytes → Option (List PeerEntry)
  parse_parts [] = some []
  parse_parts (part ∷ parts) = behind_entry (parse_entry (trim part)) (parse_parts parts)

  -- 44 is ",".
  unfoldable pub parse_peers : Bytes → Option (List PeerEntry)
  unfolding parse_parts behind_entry parse_entry entry_parts with_id
  parse_peers s =
      let t = trim s in
      let parsed = parse_parts (split 44 t) in if length t == 0 then some [] else parsed

-- How an entry is written: id=address.
unfoldable pub entry : PeerEntry → Bytes
entry p = itoa p.id ++ (61 ∷ p.addr)

unfoldable pub join_entries : PeerEntry → List PeerEntry → Bytes
join_entries p [] = entry p
join_entries p (q ∷ qs) = entry p ++ (44 ∷ join_entries q qs)

-- The number fits an int, the address has no comma, and there is no space to trim at the ends.
pub record IsEntry (trim : Bytes → Bytes) (p : PeerEntry) : Type 0 where
  pub fits : FitsInt p.id
  pub no_comma : All (λ c. c ≢ 44) p.addr
  pub trimmed : trim (entry p) ≡ entry p

itoa-other : (b : ℕ) (id : ℤ) → ((c : ℕ) → (45 ≤ c) × (c ≤ 57) → c ≢ b) → All (λ c. c ≢ b) (itoa id)
itoa-other b id h = All-map (itoa id) h (itoa-bounds id)

parse_entry-entry :
    (trim : Bytes → Bytes) (p : PeerEntry) → IsEntry trim p → parse_entry (entry p) ≡ some p
unfolding parse_entry entry_parts with_id entry
parse_entry-entry trim p h = rw (
  cut-append 61 (itoa p.id) p.addr (itoa-other 61 p.id (λ c d e. omega (arith, d.0, d.1))),
  atoi-itoa p.id h.fits,
)

entry-no_comma :
    (trim : Bytes → Bytes) (p : PeerEntry) → IsEntry trim p → All (λ c. c ≢ 44) (entry p)
unfolding entry
entry-no_comma trim p h =
    All-append (λ c. c ≢ 44) (itoa p.id) (61 ∷ p.addr)
      (itoa-other 44 p.id (λ c d e. omega (arith, d.0, d.1))) (λ e. omega arith, h.no_comma)

entries : List PeerEntry → List Bytes
entries [] = []
entries (p ∷ ps) = entry p ∷ entries ps

split-join_entries :
    (trim : Bytes → Bytes) (p : PeerEntry) (ps : List PeerEntry)
    → All (IsEntry trim) (p ∷ ps)
    → split 44 (join_entries p ps) ≡ entries (p ∷ ps)
unfolding join_entries entries
split-join_entries trim p [] (h, hs) = split-single 44 (entry p) (entry-no_comma trim p h)
split-join_entries trim p (q ∷ qs) (h, hs) =
    split-append 44 (entry p) (join_entries q qs) (entry-no_comma trim p h)
    ∙ ap (λ parts. entry p ∷ parts) (split-join_entries trim q qs hs)

parse_parts-entries :
    (trim : Bytes → Bytes) (ps : List PeerEntry)
    → All (IsEntry trim) ps
    → parse_parts trim (entries ps) ≡ some ps
unfolding parse_parts entries behind_entry
parse_parts-entries trim [] h = refl
parse_parts-entries trim (p ∷ ps) (h, hs) =
    rw (h.trimmed, parse_entry-entry trim p h, parse_parts-entries trim ps hs) refl

length-join_entries : (p : PeerEntry) (ps : List PeerEntry) → 0 < length (join_entries p ps)
unfolding join_entries entry
length-join_entries p [] = omega (arith, length-append (itoa p.id) (61 ∷ p.addr))
length-join_entries p (q ∷ qs) = omega (
  arith,
  length-append (itoa p.id) (61 ∷ p.addr),
  length-append (itoa p.id ++ (61 ∷ p.addr)) (44 ∷ join_entries q qs),
)

-- A list of one or more peers, written as id=address with commas between, is parsed back as it was,
-- where the ids fit an int, no address has a comma, and there is no space at the ends of an entry.
pub parse_peers-join_entries :
    (trim : Bytes → Bytes) (p : PeerEntry) (ps : List PeerEntry)
    → All (IsEntry trim) (p ∷ ps)
    → trim (join_entries p ps) ≡ join_entries p ps
    → parse_peers trim (join_entries p ps) ≡ some (p ∷ ps)
unfolding parse_peers
parse_peers-join_entries trim p ps h e = rw (
  e,
  ne→==-false (length (join_entries p ps)) 0 (λ z. omega (arith, z, length-join_entries p ps)),
  split-join_entries trim p ps h,
  parse_parts-entries trim (p ∷ ps) h,
)

-- The fields that have a default. `MinISR` may be negative.
pub record Config : Type 0 where
  pub bind : Bytes
  pub data_dir : Bytes
  pub session_timeout : ℕ
  pub group_session : ℕ
  pub rebalance_wait : ℕ
  pub replica_lag_time : ℕ
  pub max_segment_bytes : ℕ
  pub index_interval : ℕ
  pub min_isr : ℤ
  pub produce_timeout : ℕ

or_default : ℕ → ℕ → ℕ
or_default n default = if n == 0 then default else n

-- "0.0.0.0:9092"
abbrev default_bind : Bytes
default_bind = 48 ∷ 46 ∷ 48 ∷ 46 ∷ 48 ∷ 46 ∷ 48 ∷ 58 ∷ 57 ∷ 48 ∷ 57 ∷ 50 ∷ []

-- "data"
abbrev default_dir : Bytes
default_dir = 100 ∷ 97 ∷ 116 ∷ 97 ∷ []

-- Durations in nanoseconds.
unfoldable pub with_defaults : Config → Config
unfolding or_default
with_defaults c = record {
  bind = if length c.bind == 0 then default_bind else c.bind;
  data_dir = if length c.data_dir == 0 then default_dir else c.data_dir;
  session_timeout = or_default c.session_timeout 3000000000;
  group_session = or_default c.group_session 10000000000;
  rebalance_wait = or_default c.rebalance_wait 2000000000;
  replica_lag_time = or_default c.replica_lag_time 5000000000;
  max_segment_bytes = or_default c.max_segment_bytes 1048576;
  index_interval = or_default c.index_interval 4096;
  min_isr = if leb_ℤ c.min_isr (pos 0) then pos 1 else c.min_isr;
  produce_timeout = or_default c.produce_timeout 5000000000;
}
