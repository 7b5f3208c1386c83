-- ===== src/Node/Handlers.antt =====
-- The HTTP handlers of a broker for topics and records, internal/broker/handlers.go, and the hook
-- behind a commit, internal/broker/broker.go.
-- A request is what was decoded of it, `none` where that failed; another broker's answer is an
-- argument.
use logship.Prelude.{
  ℕ, Bool, not, ◌&&◌, Option, none, some, List, [], ◌∷◌, ◌++◌, ◌==◌, if◌then◌else◌, Bytes, length,
  lookup, str_eq, itoa,
}
use logship.Prelude.Int.{ℤ, pos}
use logship.Cluster.{addr, controller_id, is_controller, mark_seen}
use logship.Broker.{PartitionMeta}
use logship.Broker.Produce.{Topics}
use logship.Protocol.{
  CreateTopicRequest, HeartbeatPeerRequest, ProduceRequest, ProduceResponse, ProduceResult,
}
use logship.Node.{Node}
use logship.Node.Metadata.{create_topic_locked, offsets_topic}
use logship.Node.Produce
use logship.Node.Produce.{ProduceIo, ProduceError, produce_local}

-- A status with what it carries, an error status, or the answer of another broker passed on.
pub data Reply (A : Type 0) : Type 0 where
  answered : ℕ → A → Reply A
  failed : ℕ → Reply A
  passed : A → Reply A
  not_leader : ℕ → Bytes → Reply A

-- What handleCreateTopic says of a topic.
pub data CreateStatus : Type 0 where
  forwarded : CreateStatus
  exists : CreateStatus
  created : CreateStatus

topics_created : Option Topics → Node → Option (Reply CreateStatus × Node)
topics_created none n = none
topics_created (some ts) n = some (answered 200 created, record n { topics = ts })

create_here :
    CreateTopicRequest → Option (List PartitionMeta) → Node → Option (Reply CreateStatus × Node)
create_here req (some ps) n = some (answered 200 exists, n)
create_here req none n =
    topics_created (create_topic_locked req.name req.partitions req.replication_factor n) n

-- `asked` is whether the controller has taken the request.
create_elsewhere : Bytes → Bytes → (Bytes → Bool) → Reply CreateStatus
create_elsewhere own at asked =
    if length at == 0
    then failed 503
    else if str_eq at own
    then failed 503
    else if asked at
    then answered 200 forwarded
    else failed 502

-- `none` is where the creation would panic.
unfoldable pub handle_create_topic :
    ℕ → (Bytes → Bool) → Option CreateTopicRequest → Node → Option (Reply CreateStatus × Node)
unfolding create_here create_elsewhere topics_created
handle_create_topic now asked none n = some (failed 400, n)
handle_create_topic now asked (some req) n =
    let here = create_here req (lookup req.name n.topics) n in
    if length req.name == 0
    then some (failed 400, n)
    else if not (is_controller now n.cluster)
    then some (create_elsewhere n.advertise (addr (controller_id now n.cluster) n.cluster) asked, n)
    else here

proxied : ℕ → Bytes → Option ProduceResponse → Reply ProduceResponse
proxied leader at none = not_leader leader at
proxied leader at (some r) = passed r

produce_reply :
    (Bytes → Option ProduceResponse)
    → Bytes
    → (List ProduceResult × Option ProduceError) × Node
    → Reply ProduceResponse × Node
produce_reply ask topic ((out, none), n) =
    (answered 200 (record { topic = topic; results = out }), n)
produce_reply ask topic ((out, some (Produce.not_leader leader)), n) =
    let at = addr leader n.cluster in
    let asked = proxied leader at (ask at) in
    (if not (length at == 0) && not (str_eq at n.advertise) then asked else not_leader leader at, n)
produce_reply ask topic ((out, some Produce.unknown_topic), n) = (failed 404, n)
produce_reply ask topic ((out, some e), n) = (failed 500, n)

-- `ask` is the client's `Produce` of the same request at another broker.
unfoldable pub handle_produce :
    (ℕ → ProduceIo)
    → (Bytes → Option ProduceResponse)
    → ProduceRequest
    → Node
    → Reply ProduceResponse × Node
unfolding produce_reply proxied
handle_produce io ask req n = produce_reply ask req.topic (produce_local io req n)

unfoldable pub handle_peer_heartbeat : ℕ → HeartbeatPeerRequest → Node → (ℕ × ℕ) × Node
handle_peer_heartbeat now req n =
    let c = if req.broker_id == 0 then n.cluster else mark_seen req.broker_id now n.cluster in
    ((n.id, controller_id now c), record n { cluster = c })

-- The hook behind a commit: the offset as a record of the offsets topic.
unfoldable pub replicate_offset : (ℕ → ProduceIo) → Bytes → Bytes → ℤ → ℤ → Node → Node
replicate_offset io group topic partition offset n =
    let produced =
      produce_local io
        (record {
          topic = offsets_topic;
          partition = pos 0;
          key = group ++ (47 ∷ (topic ++ (47 ∷ itoa partition)));
          value = itoa offset;
          acks = 49 ∷ [];
          records = [];
        })
        n in
    if str_eq topic offsets_topic then n else produced.1
