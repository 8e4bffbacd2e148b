-- ===== src/Lib.antt =====
-- NimbusVault: a replicated chunk store.
--
-- The program has a metadata leader, metadata followers and storage nodes. Clients put chunks through the leader:
-- it chooses nodes, writes the data to them, and records the put in a log that it replicates. Every server applies
-- committed entries to its coordinator, the tables of chunks and nodes. The leader's policy moves chunks to more or
-- fewer replicas as their access rates change. Storage nodes report their chunks' accesses, fetch the versions they
-- lack from each other, and drop chunks that are not theirs. A client library, a command line client and a load
-- generator stand on top.
--
-- Files, with the code that each models:
--   Base, Text         strings as lists of bytes, tables, big-endian numbers, decimal text, and the splitting loops
--   Rocks              RocksDB: the calls the program makes and the laws it relies on; Rocks.Memory keeps the laws
--   Float              `float` and `double`: one abstract type with the operations that the program calls
--   Wal                src/meta/meta_wal.cpp: the write-ahead log (Codec, Log, Reopen)
--   Coordinator        src/meta/meta_coordinator.cpp: chunk and node tables (Lookup, Invariant, Nodes)
--   Apply              apply_wal_entry of src/bin/meta_server.cpp and the encoders of the payloads
--   Replication        src/meta/meta_replication.cpp: the leader's quorum write (Quorum) and its replication
--                      threads with a follower that they reach (Linked, Arrival)
--   Follower           src/meta/meta_follower.cpp, AppendEntry and CommitEntry (Prefix, Lost)
--   Policy, Placement  src/meta/policy.cpp (Hysteresis) and placement.cpp (Members, Choice)
--   Snapshot, Stream   src/meta/meta_snapshot.cpp, and streams of 64 KiB messages
--   Server             the leader with its on_commit callback (Commits)
--   Replicas, Reconfig src/meta/reconfig_driver.cpp: the plan, the copy and the two log writes (Plan, Targets, Moves,
--                      Stuck)
--   MetaRpc, ChunkRpc  src/meta/meta_rpc.cpp: PutChunk (Put), and the other calls of clients
--   Recovery           src/meta/recovery.cpp (Covers, Undo)
--   MetaServer         src/bin/meta_server.cpp: bootstrap of a follower and the policy round
--   Programs           the options of src/bin/storage_server.cpp and meta_server.cpp, how a metadata server starts
--                      (Boot, Restart), and src/bin/workload_runner.cpp (Runner)
--   ChunkStore         src/storage/chunk_store.cpp (Keys, Latest, Remove)
--   StorageRpc         src/storage/storage_rpc.cpp and the counts of stats_reporter.cpp (Fetch)
--   Repair             src/storage/replica_repair.cpp: the repair of replicas (Peers, Sync, Rounds)
--   Client             src/client/nimbus_client.cpp: put, get with its retries, remove (Stubs, Get, Honest)
--   Fleet              storage nodes in the place of the network, for a client's reads (Nodes, Reads)
--   History            src/client/history_tracer.cpp: the history of operations and its summary (Ranks)
--   Workload           src/workload/workload_gen.cpp: the load generator (Chunks, Loop, Threads)
--   Cli                src/bin/nimbus_cli.cpp: flags (Flags) and commands (Commands)
--   Examples           small servers at which the theorems are applied
--
-- State is passed on explicitly, and a method that runs under a lock is one step. So is a call of a follower's
-- handlers and of the log, which hold no lock in the program: calls that run at the same time are not modelled. A failed call or an exception is
-- a value: `none`, or a result type. The clock, the shuffle and what arrives while the leader waits are arguments:
-- `write` takes the acks as a list with one element for each poll before the deadline. Clients' stubs of other
-- servers (`StorageNet`, `Peer`) and the database (`RocksDb`) are parameters. Numbers of 64 bits wrap where the
-- program adds to or subtracts from them; an `int` is a whole number that text must fit into. The client's pauses, random
-- draws, `std::sort`, `std::ceil`, `std::pow` and the order of an unordered set are arguments too. Threads of the load generator
-- are steps of a relation, in any order.
--
-- Loops over a list are structural. Fuel appears in `digits`, which has more than the number has digits, and in
-- `pieces`, which has the data's length while each round takes at least a byte. The loops over log indices run
-- for the number of indices between their bounds. A client's read has its 60 attempts.
--
-- Not modelled: threads of a server that run between two locked sections of a handler, except as the acks above;
-- logging; signals and the set-up of gRPC servers; measurements of load and disk; the layout of printed summaries;
-- deserialize_chunk and deserialize_node of src/meta/meta_snapshot.cpp, which nothing calls.
pub mod Base
pub mod Text
pub mod Rocks
pub mod Float
pub mod Wal
pub mod Coordinator
pub mod Apply
pub mod Policy
pub mod Placement
pub mod Follower
pub mod Replication
pub mod ChunkStore
pub mod Stream
pub mod Snapshot
pub mod StorageRpc
pub mod Replicas
pub mod Server
pub mod Reconfig
pub mod MetaRpc
pub mod ChunkRpc
pub mod Recovery
pub mod MetaServer
pub mod Client
pub mod Repair
pub mod History
pub mod Workload
pub mod Cli
pub mod Programs
pub mod Fleet
pub mod Examples
