-- ===== src/Lib.antt =====
-- Verification of the RustSMB server: its session layer, its state stores, its in-memory file
-- system and the state that its coordinators replicate.
--
-- RustSMB serves the SMB2 protocol from several servers that share one state store. A connection
-- keeps its own credits, pending requests and compound requests; sessions, trees, handles, leases and
-- locks are in the store, so that another server can take over; coordinators replicate membership,
-- leases and byte-range locks.
--
-- The files, and the code that each models:
--   Base          lists, maps, Boolean tests and bits that all parts share
--   Core          crates/rustsmb-core: errors and dialects; Core/Action: methods that change a state
--                 and return a `Result`
--   State         crates/rustsmb-state. Types: the persistent records and when a handle may be
--                 reconnected; Lock: byte-range locks and `conflicts_with`; Lease: lease states,
--                 their conflicts and reduction; Store: the trait `StateStore` as a record, and its
--                 contract, three tables that each operation reads or changes
--   Memory        crates/rustsmb-state-memory: `MemoryStateStore`. Leases, FileLocks, Tokens: the
--                 operations on leases, byte-range locks and named locks; AsStore: the contract
--   Cached        crates/rustsmb-state-cached: the local cache with its epochs, and the store that
--                 reads and writes through it, over any lawful store; Coherent, Follows, AsStore:
--                 when the cache agrees with that store
--   Credits       crates/rustsmb-session/src/credits.rs; Race: its atomic loops, one access a step,
--                 with any number of threads
--   Compound      crates/rustsmb-session/src/compound.rs: contexts, queue, offsets
--   AsyncRequest  crates/rustsmb-session/src/async_request.rs: requests that complete later
--   Connection    crates/rustsmb-session/src/connection.rs, made of the last three
--   Handler       crates/rustsmb-server/src/handler.rs: the loop over the commands of a compound
--                 request, with the dispatch of one command, its signing and the header's codec as
--                 parameters; Propagation: failed commands; Answers: unrelated commands;
--                 Combine: the responses as one message
--   LeaseBreak    crates/rustsmb-server/src/lease_break.rs: breaks of leases and oplocks; Lease,
--                 Oplock: the calls; Acknowledged, Justified, Expired: how breaks of leases end
--   Manager       crates/rustsmb-session/src/manager.rs, over any lawful state store
--   Validation    crates/rustsmb-session/src/validation.rs, over any lawful state store
--   Coord         crates/rustsmb-coord-raft/src/state.rs: the replicated state machine, and logs
--   Coordinator   crates/rustsmb-coordinator/src/state.rs: the coordinator's table of servers; Replicas:
--                 coordinators with clocks of their own; Service: the calls of service.rs and its
--                 monitor; Epochs, Monitor: the events that these broadcast
--   Vfs           crates/rustsmb-vfs/src/types.rs: handles, create parameters and open flags, metadata
--   MemoryFs      crates/rustsmb-backend-memory/src/lib.rs: the file system as a tree of nodes. Path,
--                 Node: paths and the walk along them; Attributes, Handles: the operations on nodes and
--                 on open files; Changes: which entry an operation changes; Runs: any operations
--                 in any order
--
-- A method that takes `&mut self`, or changes what a lock or an atomic guards, is a function from the
-- state to the new state and the answer; each method of the in-memory store holds one table's lock
-- for its whole body, so it is one step. A hash map is an association list with each key once, and its
-- order, which the code leaves open, is the list's. The LRU cache of the crate `lru` is a parameter with
-- laws, which its documentation states. The clock's reading is an argument `now`. A one-shot
-- channel is the ID of the request that it was opened for: the senders that are open are a table, and
-- what was sent is a list. Sums on 16, 32 and 64 bits wrap or saturate as the code writes them.
--
-- Numbers of rounds: the parser of compound offsets runs on as many rounds as the message has bytes,
-- which is enough, as every round moves on by one byte at least. The other loops recurse on lists. The
-- loops of the credit manager are step relations, in which a weak exchange may fail at any time.
--
-- Not modelled: the binary codecs of the protocol, signing, encryption and authentication; the handlers
-- of the single commands of crates/rustsmb-server; the Redis store; the
-- coordinator's client and the Raft crate; the local file system backend. They are parsers, calls of
-- third-party crates and of the operating system, or parts that rest on what is here. Texts for a human
-- reader, such as log lines, are left out, and texts in errors stand for what they are made of.
mod Base
pub mod Core
pub mod State
pub mod Memory
pub mod Credits
pub mod Compound
pub mod AsyncRequest
pub mod Connection
pub mod Manager
pub mod Validation
pub mod Coord
pub mod Cached
pub mod Handler
pub mod Vfs
pub mod MemoryFs
pub mod LeaseBreak
pub mod Coordinator
