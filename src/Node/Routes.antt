-- ===== src/Node/Routes.antt =====
-- The routes of a broker, `Start` of internal/broker/broker.go, and what `serveFetch` of
-- internal/broker/handlers.go reads of a query. `unescape` is the decoding of a part of a path in
-- net/url; no two patterns of the table match the same request, so that the first that matches is
-- the one that net/http takes.
pub mod Reached
mod Tests
use logship.Prelude.{
  ℕ, Bool, true, false, ◌&&◌, not, ◌==◌, length, Option, none, some, List, [], ◌∷◌, Bytes, split,
  str_eq, atoi, lookup, if◌then◌else◌,
}
use logship.Prelude.Int.{ℤ, pos}
use logship.Client.Requests.{Method, get, post, one_word}
use logship.Client.Words.{
  health_word, metadata_word, topics_word, produce_word, fetch_word, groups_word, join_word,
  sync_word, heartbeat_word, leave_word, offsets_word, internal_word, replica_word, ack_word,
  topic_word, partition_word, offset_word, max_bytes_word,
}

pub data Handler : Type 0 where
  handle_health handle_metadata handle_create_topic handle_produce handle_fetch : Handler
  handle_join handle_sync handle_heartbeat handle_leave : Handler
  handle_commit_offsets handle_fetch_offsets : Handler
  handle_peer_heartbeat handle_metadata_push handle_replica_fetch handle_replica_ack : Handler

-- A part of a pattern: a word, or "{group}".
pub data Part : Type 0 where
  word : Bytes → Part
  group : Part

pub record Route : Type 0 where
  pub method : Method
  pub parts : List Part
  pub handler : Handler

group_route : Method → Bytes → Handler → Route
group_route m w h = record {
  method = m;
  parts = word groups_word ∷ group ∷ word w ∷ [];
  handler = h;
}

internal_route : Method → List Part → Handler → Route
internal_route m ws h = record { method = m; parts = word internal_word ∷ ws; handler = h }

plain_route : Method → Bytes → Handler → Route
plain_route m w h = record { method = m; parts = word w ∷ []; handler = h }

unfoldable pub routes : List Route
unfolding group_route internal_route plain_route
routes =
    plain_route get health_word handle_health
    ∷ plain_route get metadata_word handle_metadata
    ∷ plain_route post topics_word handle_create_topic
    ∷ plain_route post produce_word handle_produce
    ∷ plain_route get fetch_word handle_fetch
    ∷ group_route post join_word handle_join
    ∷ group_route post sync_word handle_sync
    ∷ group_route post heartbeat_word handle_heartbeat
    ∷ group_route post leave_word handle_leave
    ∷ group_route post offsets_word handle_commit_offsets
    ∷ group_route get offsets_word handle_fetch_offsets
    ∷ internal_route post (word heartbeat_word ∷ []) handle_peer_heartbeat
    ∷ internal_route post (word metadata_word ∷ []) handle_metadata_push
    ∷ internal_route get (word replica_word ∷ word fetch_word ∷ []) handle_replica_fetch
    ∷ internal_route post (word replica_word ∷ word ack_word ∷ []) handle_replica_ack
    ∷ []

same_method : Method → Method → Bool
same_method get get = true
same_method get post = false
same_method post get = false
same_method post post = true

-- What a request comes to: the handler, and the group of its path, which is empty where none is named.
pub record Dispatched : Type 0 where
  pub handler : Handler
  pub group : Bytes

-- No part is empty, "." or "..": net/http redirects the others to the path without these.
unfoldable pub is_clean : Bytes → Bool
is_clean s = not (length s == 0) && (not (str_eq s (46 ∷ [])) && not (str_eq s (46 ∷ 46 ∷ [])))

all_clean : List Bytes → Bool
all_clean [] = true
all_clean (s ∷ ss) = is_clean s && all_clean ss

module _ (unescape : Bytes → Option Bytes) where
  -- Whether the parts match, and the group; an empty part is no group.
  match_group : Option Bytes → Option Bytes → Option Bytes
  match_group none rest = none
  match_group (some []) rest = none
  match_group (some (c ∷ cs)) none = none
  match_group (some (c ∷ cs)) (some g) = some (c ∷ cs)

  match_parts : List Part → List Bytes → Option Bytes
  match_parts [] [] = some []
  match_parts [] (s ∷ ss) = none
  match_parts (p ∷ ps) [] = none
  match_parts (word w ∷ ps) (s ∷ ss) =
      let rest = match_parts ps ss in if str_eq s w then rest else none
  match_parts (group ∷ ps) (s ∷ ss) = match_group (unescape s) (match_parts ps ss)

  chosen : Handler → Option Bytes → Option Dispatched → Option Dispatched
  chosen h none rest = rest
  chosen h (some g) rest = some record { handler = h; group = g }

  dispatch_among : List Route → Method → List Bytes → Option Dispatched
  dispatch_among [] m parts = none
  dispatch_among (r ∷ rs) m parts =
      let rest = dispatch_among rs m parts in
      let here = chosen r.handler (match_parts r.parts parts) rest in
      if same_method r.method m then here else rest

  -- A path begins with a slash; `none` is where no pattern matches, or the path is not clean.
  on_parts : Method → List Bytes → Option Dispatched
  on_parts m [] = none
  on_parts m (first ∷ parts) =
      let reached = dispatch_among routes m parts in if all_clean parts then reached else none

  unfoldable pub dispatch : Method → Bytes → Option Dispatched
  unfolding on_parts all_clean dispatch_among chosen match_parts match_group same_method
  dispatch m path = on_parts m (split 47 path)

-- The arguments of serveFetch. A missing value is empty, and what is no number is 0; a number beyond an
-- int, which strconv cuts at the end of the range, counts as none here.
pub record FetchQuery : Type 0 where
  pub topic : Bytes
  pub partition : ℤ
  pub offset : ℤ
  pub max_bytes : ℤ
  pub replica : Bool

value : Option Bytes → Bytes
value none = []
value (some v) = v

number : Option ℤ → ℤ
number none = pos 0
number (some n) = n

unfoldable pub parse_query : List (Bytes × Bytes) → FetchQuery
unfolding value number
parse_query q = record {
  topic = value (lookup topic_word q);
  partition = number (atoi (value (lookup partition_word q)));
  offset = number (atoi (value (lookup offset_word q)));
  max_bytes = number (atoi (value (lookup max_bytes_word q)));
  replica = str_eq (value (lookup replica_word q)) one_word;
}
