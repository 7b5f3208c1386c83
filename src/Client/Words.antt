-- ===== src/Client/Words.antt =====
-- The words in the paths and the queries of internal/client/client.go and internal/broker/broker.go.
use logship.Prelude.{[], ◌∷◌, Bytes}

abbrev pub health_word : Bytes
health_word = 104 ∷ 101 ∷ 97 ∷ 108 ∷ 116 ∷ 104 ∷ []

abbrev pub metadata_word : Bytes
metadata_word = 109 ∷ 101 ∷ 116 ∷ 97 ∷ 100 ∷ 97 ∷ 116 ∷ 97 ∷ []

abbrev pub topics_word : Bytes
topics_word = 116 ∷ 111 ∷ 112 ∷ 105 ∷ 99 ∷ 115 ∷ []

abbrev pub produce_word : Bytes
produce_word = 112 ∷ 114 ∷ 111 ∷ 100 ∷ 117 ∷ 99 ∷ 101 ∷ []

abbrev pub fetch_word : Bytes
fetch_word = 102 ∷ 101 ∷ 116 ∷ 99 ∷ 104 ∷ []

abbrev pub groups_word : Bytes
groups_word = 103 ∷ 114 ∷ 111 ∷ 117 ∷ 112 ∷ 115 ∷ []

abbrev pub join_word : Bytes
join_word = 106 ∷ 111 ∷ 105 ∷ 110 ∷ []

abbrev pub sync_word : Bytes
sync_word = 115 ∷ 121 ∷ 110 ∷ 99 ∷ []

abbrev pub heartbeat_word : Bytes
heartbeat_word = 104 ∷ 101 ∷ 97 ∷ 114 ∷ 116 ∷ 98 ∷ 101 ∷ 97 ∷ 116 ∷ []

abbrev pub leave_word : Bytes
leave_word = 108 ∷ 101 ∷ 97 ∷ 118 ∷ 101 ∷ []

abbrev pub offsets_word : Bytes
offsets_word = 111 ∷ 102 ∷ 102 ∷ 115 ∷ 101 ∷ 116 ∷ 115 ∷ []

abbrev pub internal_word : Bytes
internal_word = 105 ∷ 110 ∷ 116 ∷ 101 ∷ 114 ∷ 110 ∷ 97 ∷ 108 ∷ []

abbrev pub replica_word : Bytes
replica_word = 114 ∷ 101 ∷ 112 ∷ 108 ∷ 105 ∷ 99 ∷ 97 ∷ []

abbrev pub ack_word : Bytes
ack_word = 97 ∷ 99 ∷ 107 ∷ []

abbrev pub topic_word : Bytes
topic_word = 116 ∷ 111 ∷ 112 ∷ 105 ∷ 99 ∷ []

abbrev pub partition_word : Bytes
partition_word = 112 ∷ 97 ∷ 114 ∷ 116 ∷ 105 ∷ 116 ∷ 105 ∷ 111 ∷ 110 ∷ []

abbrev pub offset_word : Bytes
offset_word = 111 ∷ 102 ∷ 102 ∷ 115 ∷ 101 ∷ 116 ∷ []

abbrev pub max_bytes_word : Bytes
max_bytes_word = 109 ∷ 97 ∷ 120 ∷ 95 ∷ 98 ∷ 121 ∷ 116 ∷ 101 ∷ 115 ∷ []
