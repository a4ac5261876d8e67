-- ===== src/Lib.antt =====
-- 996.Blockchain, in Go: a chain of blocks that carry evidence, which is a hash of a file with a
-- description and a signature. Blocks and evidence are both mined. Nodes exchange the messages of
-- serialize/cp; `Chain` of core/blockchain verifies blocks and keeps the tree of branches, whose old
-- end goes to the database of db; the evidence pool of core/ev_pool.go holds what is to be mined. `net` of core/net.go exchanges the messages, asks peers for
-- blocks and hands what it receives to the chain and the pool.
--
-- Which file models what:
--   Common          shared types, lists, results and Go's integers
--   Wire            encoding/binary as serialize/ uses it: big-endian bytes and byte slices behind
--                   their lengths. Reads and Parses are rules for what a reader does with written
--                   bytes and what it accepts at all; Checks is for test data
--   Cp              serialize/cp: a file for each message, with its constructors (`NewX` is `new_x`),
--                   `UnmarshalX`, `Marshal` and `Verify`. Description has `VerifyDescription`,
--                   PowCache has pow_cache.go and the two `NextNonce`, Validity what `Verify` accepts
--   Handshake       serialize/handshake: request.go and response.go
--   Storage         serialize/storage: block_header.go and block.go
--   Discover        serialize/discover: the head, ping.go, pong.go and get_neighbours.go
--   EvidencePool    the ordered slice of core/ev_pool.go
--   Merkle          core/merkle/merkle.go
--   Difficulty      `TargetToDiff` and `DiffToTarget` of core/blockchain/difficulty.go
--   Chain           core/blockchain. Maps: `sync.Map`. Blocks: block.go, with the store of all blocks
--                   in place of pointers. Branch: branch.go. Target: `CalculateTarget` and
--                   `nextBlockTarget`. Verify: `verifyBlock`. Growth: `addBlocks` of chain.go and
--                   what it calls. Sync: `GetSyncBlocks` as far as it answers from the cache. Queries: the
--                   other queries, with what they ask the database. Adding, Caching, Integrity and
--                   Serving are about these
--   Db              db: the keys of schema.go, and in Store and Queries the reads and writes of badger.go
--                   over a transaction of badger, which is the record `Badger`. Keys says what a key
--                   names, Writes and Held which writes a block makes, Refinement, Putting, Fresh,
--                   Recorded, Ledger and Promise what the database holds then, Room how much room the
--                   writes take, Reading, Answering and Success what follows
--   Core            core/net.go. Message: the `switch` over the type of a packet. Net: the state of `net`
--                   with what it sends. Handlers: a function for each `handleX`. Loop: `sync`, and the
--                   loop as events. View: what `net` asks of the chain,
--                   answered by Chain and Db. QueryCache: core/qcache.go, and Sorted about it.
--                   Scheduler: the making of a block in core/scheduler.go. Parsing, Dispatch,
--                   Slices, Taking, Transfer, Filter, Relay and Asking are about these
--   Peers           p2p/peer: State is peer.go and pstate.go, Table is table.go; Maps, Keeping, Choice and
--                   Seeds are about these
--
-- A pointer to a block is its number in the store `Heap`, and every write goes through the store,
-- so branches share blocks as they do in Go. Branches stand in a table in the same way. A method
-- that changes its receiver returns the changed one. An error is an `err` or `none`, a panic or a
-- fatal error too, as the comment at the definition says. Locks are taken for the whole of each
-- operation and are left out.
--
-- Parameters: the hash (utils.Hash, SHA-256), the signatures of btcec as the record `Btcec`, the
-- operations on `float64` and `big.Float` as the record `Floats`, the answers of the database
-- to the chain (`has_evidence`), a transaction of badger as the record `Badger`, what the chain answers
-- to `net` as the record `ChainView` (which View fills), the text of an address, random numbers, the
-- order in which `getEvidence` of the scheduler ranges over its map, the
-- clock, and whether its second is even where `getLongestBranch` asks. No law of them is
-- assumed except where a theorem names one: that the hash has 32 bytes, that a transaction reads what
-- it wrote last (`BadgerLaws`), that badger does not fail while a transaction has room (`IsRoomy`),
-- that a random number is below the size it was asked for, that a range meets every entry once.
--
-- Integers: a field that is read has its width from the reader; written, it is cut to its width.
-- `int64` and `int32` are two's complement. Lengths are cut to one or two bytes as `Uint8Len` and
-- `Uint16Len` do. A height is a `uint64` that is not taken to its end by additions; differences of
-- heights wrap (`sub64`).
--
-- Loops: most recurse on a list. On fuel are the loops of `ComputeRoot` (the number of leaves), the
-- binary search of the pool (its length), the binary digits of `DiffToTarget` (the number), the loops
-- of `newBranch`, of the queries of the chain and of `remove` of a branch (the number of its head,
-- since parents have smaller numbers).
-- The loop of `handleBlocksRequest` has the number of blocks as fuel, and takes one at least a round.
--
-- Not modelled: the maintenance of the chain and its start from the database; the
-- goroutines and channels of the pool, the scheduler and of parallel mining;
-- the opening and the clean-up of badger; p2p but for the peer table, rpc, crypto, cmd, and what has
-- an address in serialize/discover. The setters of a header, `Sign` and the `String` methods of
-- messages are left out.
pub mod Common
pub mod Wire
pub mod Cp
pub mod Handshake
pub mod Storage
pub mod EvidencePool
pub mod Merkle
pub mod Difficulty
pub mod Chain
pub mod Discover
pub mod Db
pub mod Core
pub mod Peers
