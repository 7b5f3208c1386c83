-- ===== src/Lib.antt =====
-- logship, a broker for append-only logs that are split into partitions and replicated, as a
-- library of definitions and theorems. A producer sends records over HTTP to a partition's leader;
-- the partitioner picks the partition, the log appends the record to its active segment, followers
-- fetch it, and when every replica in sync has it the high watermark passes it and consumers see
-- it. A controller, the live broker with the least id, elects leaders; a coordinator shares the
-- partitions of a topic among the members of a consumer group.
--
-- The files and the code they model:
--   Record          internal/record/record.go: Encode, Decode, DecodeAt, EncodedSize; Crc is
--                   crc32.Checksum with the Castagnoli table
--   Index           internal/log/index.go: append, load and lookup of the sparse index
--   Segment         internal/log/segment.go: createSegment, append, readFrom; Segment/Open has
--                   openSegment and recover, with a full scan and a scan from the last entry
--   Log             internal/log/log.go: Append, AppendAt, rotateLocked, Read, the watermark;
--                   Log/Open has Open and recover, Log/Restart what a crash leaves behind, and
--                   Log/Wait has WaitHighWatermark
--   Routing         internal/routing/partitioner.go
--   Assignor        internal/assignor/range.go
--   Group           internal/group/coordinator.go: Join, Sync, Heartbeat, Leave, Expire;
--                   Group/Offsets has Commit and ApplyOffset, Group/Fetch FetchOffsets, and
--                   Group/Durable the offsets on disk
--   Cluster         internal/cluster/cluster.go
--   Broker          internal/broker/metadata.go, replica.go and broker.go: per partition, the
--                   controller's tick, replica assignment, snapshots of metadata and recomputeHW;
--                   Broker/Produce has createTopicLocked and, of handlers.go, how produceLocal
--                   chooses a partition
--                   Broker/Follow has what a follower does with the records of a fetch
--   Store           internal/store/store.go; Store/Keys is about its keys
--   Protocol        internal/protocol/types.go; Protocol/Json is what encoding/json makes of the strings
--                   of a fetch answer and of an acknowledgement
--   Node            the whole state of one broker, internal/broker: Node/Produce has produceLocal,
--                   Node/Fetch serveFetch, Node/Metadata the topics, Node/Replicate a round of
--                   followLoop and handleReplicaAck, Node/Followers syncFollowers, Node/Handlers
--                   and Node/GroupHandlers the other handlers, Node/Tick the tick,
--                   Node/Start New, loadTopics and persistTopicsLocked, and Node/Routes the routes
--                   that Start registers; Node/Replication is the steps of a leader and a follower
--   Client          internal/client/client.go over a network that is an argument;
--                   Client/Requests has what each call sends
--   Config          internal/broker/config.go, and the defaults of New in broker.go
--   Disk            a file that is replaced by a temporary one and a rename, which
--                   internal/group/coordinator.go and internal/broker/metadata.go both do
--   Commands        Commands/Consume is consumeCmd of cmd/logship-cli/main.go, Commands/Settings
--                   the other commands and the environment, with cmd/logship/main.go, and
--                   Commands/Bench is cmd/bench/main.go
--   Prelude         what they share: lists, tests, big-endian words, strings, maps
-- A function keeps the source's name in lower case; the child modules prove things about the
-- module they stand under, and the modules called Tests try definitions and theorems on values.
--
-- How the code is read:
--   - Bytes and strings are lists of bytes, each a natural number. A record's int64 fields are their
--     64-bit patterns, offsets in a log are natural numbers, and the offsets and limits that a
--     caller gives to Read are integers. A conversion to uint32 is `% 2 ^ 32`.
--   - The clock and what the file system does are arguments: a write is done or fails after some
--     bytes, a truncation or a flush succeeds or not. Reads of a file fail only at its end.
--   - A slice expression out of range is the result `panic`; where a broker would index an empty
--     slice it is `none`.
--   - A method of a log, a store or the coordinator holds its mutex to the end, so that a call is one
--     step. A broker takes its locks anew for each part of a request; a request is one step here, but
--     for its waits. A Go map is an association list in the order in which `range` visits it.
--   - The scans of a file have fuel, one round more than the file has bytes; a round that goes on
--     takes at least 33 bytes, so that the theorems have an actual result and never `stuck`. The
--     binary search has a round for each entry.
--
--   - While WaitHighWatermark waits, other goroutines work: each round of the wait has a function for
--     what they do to the state of the broker, the time at which one of their broadcasts wakes it, if
--     any, and how late its timer is. A pointer to a log is its key in the store, where the
--     changed log is put back.
--   - A string that goes over JSON has U+FFFD for each byte that is not UTF-8. What another broker
--     answers, what log.Open gives for a directory, strings.TrimSpace and the decoding of other JSON
--     are arguments. A text of an error that decides nothing is left out.
--   - A crash leaves a file that is being written with some first part of the bytes, and a rename done
--     or not done; for them encoding/json is a pair of functions that read back what
--     they wrote.
--   - The answers that the consume command gets are arguments of its loops, one list of rounds for each
--     session, so that it ends where the list does. In Node/Replication a message that was sent stays
--     in a list, and may be read at any later step, or never.
--   - A goroutine of syncFollowers is what it was started with and whether it was cancelled.
--   - The client makes at most five attempts, as the source does; its loop counts them down.
--
-- Not modelled: the listener, the ticker, the start and stop of their goroutines, the shutdown, package
-- flag, what the commands print beside the records, and the times of the benchmark, which are I/O
-- around the parts above.
pub mod Prelude
pub mod Record
pub mod Index
pub mod Segment
pub mod Log
pub mod Routing
pub mod Assignor
pub mod Cluster
pub mod Broker
pub mod Group
pub mod Store
pub mod Protocol
pub mod Node
pub mod Client
pub mod Config
pub mod Disk
pub mod Commands
