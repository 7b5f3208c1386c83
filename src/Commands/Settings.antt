-- ===== src/Commands/Settings.antt =====
-- What the commands make of the environment and of their arguments, cmd/logship-cli/main.go,
-- cmd/logship/main.go and cmd/bench/main.go. `trim` is strings.TrimSpace, and `parse` is what package
-- flag makes of the arguments behind the topic.
use logship.Prelude.{
  ℕ, Bool, false, not, ◌||◌, Option, none, some, List, [], ◌∷◌, Bytes, split, atoi, str_eq, length,
  ◌==◌, if◌then◌else◌,
}
use logship.Prelude.Int.{ℤ, pos}
use logship.Config.{Config}
use logship.Protocol.{ProduceRequest}
use logship.Client.Requests
use logship.Client.Requests.{Request}

-- An unset variable is empty.
unfoldable pub env : (Bytes → Bytes) → Bytes → Bytes → Bytes
env getenv k default = if length (getenv k) == 0 then default else getenv k

or_int : Option ℤ → ℤ → ℤ
or_int none default = default
or_int (some n) default = n

-- What is no number counts as unset.
unfoldable pub env_int : (Bytes → Bytes) → Bytes → ℤ → ℤ
unfolding or_int
env_int getenv k default =
    if length (getenv k) == 0 then default else or_int (atoi (getenv k)) default

-- A list with commas: 44 is the comma.
named_parts : (Bytes → Bytes) → List Bytes → List Bytes
named_parts trim [] = []
named_parts trim (p ∷ ps) =
    let rest = named_parts trim ps in if length (trim p) == 0 then rest else trim p ∷ rest

unfoldable pub split_list : (Bytes → Bytes) → Bytes → List Bytes
unfolding named_parts
split_list trim s = named_parts trim (split 44 s)

-- 45 is the dash.
begins_flag : Bytes → Bool
begins_flag [] = false
begins_flag (c ∷ cs) = c == 45

-- The topic in front of the flags, or none.
unfoldable pub shift_topic : List Bytes → Bytes × List Bytes
unfolding begins_flag
shift_topic [] = ([], [])
shift_topic (a ∷ as') = if begins_flag a then ([], a ∷ as') else (a, as')

-- The first argument that is left behind the flags, for a topic that stands there.
or_first : Bytes → List Bytes → Bytes
or_first [] [] = []
or_first [] (a ∷ as') = a
or_first (c ∷ cs) left = c ∷ cs

pub record ProduceFlags : Type 0 where
  pub key : Bytes
  pub value : Bytes
  pub acks : Bytes
  pub left : List Bytes

pub record FetchFlags : Type 0 where
  pub partition : ℤ
  pub offset : ℤ
  pub left : List Bytes

pub record TopicFlags : Type 0 where
  pub partitions : ℤ
  pub replication_factor : ℤ

-- The request that a command sends; `none` is where it shows how it is used.
produced : Bytes → ProduceFlags → Option ProduceRequest
produced topic flags =
    if length topic == 0 || length flags.value == 0
    then none
    else some record {
      topic = topic;
      partition = pos 0;
      key = flags.key;
      value = flags.value;
      acks = flags.acks;
      records = [];
    }

unfoldable pub produce_command : (List Bytes → ProduceFlags) → List Bytes → Option ProduceRequest
unfolding produced or_first
produce_command parse args =
    let (topic, rest) = shift_topic args in
    let flags = parse rest in produced (or_first topic flags.left) flags

fetching : Bytes → FetchFlags → Option Request
fetching topic flags =
    if length topic == 0
    then none
    else some (Requests.fetch topic flags.partition flags.offset (pos 1048576) false)

unfoldable pub fetch_command : (List Bytes → FetchFlags) → List Bytes → Option Request
unfolding fetching or_first
fetch_command parse args =
    let (topic, rest) = shift_topic args in
    let flags = parse rest in fetching (or_first topic flags.left) flags

-- "create"
abbrev create_word : Bytes
create_word = 99 ∷ 114 ∷ 101 ∷ 97 ∷ 116 ∷ 101 ∷ []

topic_for : Bytes → TopicFlags → Request
topic_for name flags = Requests.create_topic name flags.partitions flags.replication_factor

unfoldable pub topic_command : (List Bytes → TopicFlags) → List Bytes → Option Request
unfolding topic_for
topic_command parse [] = none
topic_command parse (a ∷ []) = none
topic_command parse (a ∷ name ∷ rest) =
    if not (str_eq a create_word) then none else some (topic_for name (parse rest))

-- The flags of a broker, as far as the configuration has them; sizes that are not negative.
pub record BrokerFlags : Type 0 where
  pub bind : Bytes
  pub data_dir : Bytes
  pub segment_bytes : ℕ
  pub index_interval : ℕ
  pub min_isr : ℤ

-- Durations in nanoseconds.
unfoldable pub broker_config : BrokerFlags → Config
broker_config flags = record {
  bind = flags.bind;
  data_dir = flags.data_dir;
  session_timeout = 3000000000;
  group_session = 10000000000;
  rebalance_wait = 2000000000;
  replica_lag_time = 5000000000;
  max_segment_bytes = flags.segment_bytes;
  index_interval = flags.index_interval;
  min_isr = flags.min_isr;
  produce_timeout = 5000000000;
}
