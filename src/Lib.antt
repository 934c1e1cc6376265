-- ===== src/Lib.antt =====
-- The Go node of focal-point: a point (a chain) of counts (blocks), each a list of considerations
-- between public keys, of which the one with the most work confirms its considerations. A
-- consideration enters through the processor, waits in the consideration queue, is put under the
-- hash list root of a count by a renderer, and counts that peers announce are downloaded in the order
-- of the count queue and checked by the processor. The graph of considerations between keys decides
-- which considerations would close a cycle.
--
-- The modules, each named after the code that it models:
-- - Prelude: natural numbers with Boolean tests, Go's int64 and int32 as integers with their
--   wrap-around, maps as association lists, errors. An error is a constructor of `Error`, a Go panic
--   is `panic`, and a method that changes its object is an `Action`: the result and the object as the
--   call left it, also when it fails.
-- - Constants: constants.go.
-- - Consideration: translation.go and checkConsiderationSeries of processor.go.
-- - ImbalanceCache: imbalance_cache.go, over GetPublicKeyImbalance of ledger.go as a parameter.
-- - Utils: pad44 and pubKeyToString of utils.go, with base64.
-- - Graph: tranxlation_graph.go but Rank and ToDOT.
-- - Linked: container/list, in which a pointer to an element is a handle. CountQueue: stage_queue.go.
--   ConsiderationQueue: translation_queue_memory.go, over the ledger, the graph and the cache. In both
--   queues a map leads from names to elements, and Linked.Named says when the two agree.
-- - Count: stage.go. A hash is the number that its 32 bytes spell, as GetBigInt reads it, and the
--   running SHA3 state is the list of what was written to it.
-- - HeaderHasher: stage_header_hasher.go, with the writes to its buffer (Cells, Rewrite), base 10 (Digits)
--   and the attempts of a renderer (Update, Attempts). A write past the capacity, which Go may cut or
--   refuse, is a panic of the model when the buffer is hashed.
-- - Processor: the checks of processor.go and checkpoints.go that need no state (Checks, Sane, Sound,
--   Capacity), the targets (Target, Retarget), and the walk of acceptCountContinue back to the ancestor
--   that two points share (Fork), the median of timestamps (Median), the interface to ledger and
--   storage with the processor's state (Node), the checks that read the state (Context) and the
--   handling of considerations and counts (Accept).
-- - Binary: Go's encoding/binary. LevelDb: goleveldb, a parameter with what it documents of reads after
--   a batch of writes.
-- - Ledger: ledger_disk.go: the schema (Keys), the reads (Reads), the parts of a batch (Batches),
--   ConnectCount and DisconnectCount (Connect) and the queries by range (Ranges).
-- - CountStorage: stage_storage_disk.go, over the file system and the codecs. DiskNode: the processor
--   over the ledger and the storage on disk, as client/main.go opens them.
-- - PeerStorage: peer_storage_disk.go: keys and policy (Info), the operations (Disk) and their
--   invariant with calls that overlap (Consistent, Calls, Reads, Reached), and what `Get` chooses
--   (Choice) and when it panics (Safe).
-- - Tests: concrete data at which the theorems apply.
--
-- SHA3-256, ed25519 and encoding/json are the parameters Crypto and Hashing, of which nothing is
-- assumed but where a theorem names it. The clock and random numbers are arguments. Each method is one
-- step, under its lock or called by the processor's one goroutine. PeerStorageDisk has no lock around
-- what it reads and writes, and there the two are steps between which other calls come. The float64
-- weights of the graph are values of any type with an addition. The search of the graph runs on fuel,
-- one more than the number of successors in the graph and its start, and the walk to a common ancestor
-- on the sum of both heights and one; that the fuel is enough is part of what is proved of each.
--
-- A channel that the processor notifies is the list of what was sent. Where a walk back would not end,
-- since the heights in the storage do not fall, the model has a panic.
--
-- The database of the ledger is a state of any type behind LevelDb's operations, and its iterators are
-- lists of entries with the failure that ends them. ImbalanceCache.Views describes the cache by the
-- natural number that it shows for every key, over one state of the ledger or the next.
--
-- Not modelled: the connections of peers, the indexer, the renderer and the agents
-- (state behind websockets and JSON), and the programs, DNS, IRC, TLS and UPnP (I/O).
pub mod Prelude
pub mod Constants
pub mod Consideration
pub mod HeaderHasher
pub mod ImbalanceCache
pub mod Binary
pub mod LevelDb
pub mod Ledger
pub mod CountStorage
pub mod PeerStorage
pub mod Utils
pub mod Graph
pub mod Linked
pub mod CountQueue
pub mod ConsiderationQueue
pub mod Count
pub mod Processor
pub mod DiskNode
pub mod Tests
