-- ===== src/Lib.antt =====
-- A verification library for the storage engine of this repository (engine/include, engine/src): an
-- in-memory key-value store with eviction, expiry, a write-ahead log and sharding.
--
-- The parts and their files
-- Hash.antt: the 64-bit hash of a key (HashTable::hash; ShardedEngine::get_shard_id repeats it).
-- HashTable.antt: the class HashTable of engine/src/hash_table.cpp, one function for each method.
--   The state is the record HashTable (buckets_, num_entries_, the policy, wal_writer_); a method
--   takes it and returns the new one. Children: Chain (a bucket's list), Buckets (a write to one
--   bucket), Rehash, Valid (the invariant IsValid and the map `lookup` that the table stands for),
--   Evict, Methods (insert and get against the map), Fresh (the constructor), Recalls (the table as
--   an instance of the interface of History.antt), Roomy (a table below its memory limit, and runs
--   of calls on it), LruCache (the cache that an LRU table stands for, with Tracked, Items, Refines,
--   Writes, Runs and Exact), StoredBytes, Memory and ReadMemory (what the policy counts is what is
--   stored), Pressure (the memory limit), Upkeep (scan_expired_keys and replay_wal), Expired (what a
--   scan removes), Replays (what a replayed log does to the map), Scanner (the scanner's thread),
--   Stats (get_stats).
-- Policy.antt: engine/src/lru_policy.cpp (Lru, with Lru/Order for the recency order and Lru/Runs for
--   sequences of calls) and engine/src/lfu_policy.cpp (Lfu, with Lfu/Complete for the lazy heap,
--   Lfu/Sorted for the order in it and Lfu/Least for its candidate); Tracker is the table's choice
--   between the two, Accounts and Candidates are what the table relies on, whichever it chose, Keys
--   is about the keys that a policy keeps; StringMap is std::unordered_map as an association list.
-- Wal.antt: WALWriter and WALReader of engine/src/wal.cpp. A file is the list of its bytes; Input is
--   the stream with its failure state, Truncated reads files that are cut, Torn those of which more
--   is left than was synced, Durable is what a crash leaves.
-- Sharding.antt: ShardedEngineSync of engine/include/sharded_engine_sync.h (`set` is called put
--   here), with Routed, the shards as one map.
-- Workers.antt: ShardedEngine of engine/src/sharded_engine.cpp: an execution is a list of events (a
--   request is queued, a worker tests whether the engine runs, a worker runs the body of its loop,
--   start, stop), in any interleaving; Sequential is about the order of the requests, Turns and
--   Drained are about a worker that gets its turns.
-- Engine.antt: the C interface of engine/src/engine.cpp, with its error codes.
-- Snapshot.antt: the checksum, the writer and the loader of engine/src/snapshot.cpp, with RoundTrip,
--   Truncated (files that are cut), Restored (the map of the loaded table), Xor and Checksum (the
--   exclusive or digit by digit and CRC64) and Altered (files with another byte).
-- MutexEngine.antt: engine/include/mutex_engine.h, one table behind one mutex, with Recalls, where
--   it fills the interface of History.antt: a map that may lose entries, and a client's sequence of
--   calls; Exact is about the engine below its memory limit.
-- Recovery.antt: the table, its log, a crash and the replay together. Recovery/Logs has what each
--   operation hands to the log, Records and Calls the log that a sequence of calls leaves, without
--   and with evictions, Prefix what a first part of it says, Replay what replay_wal makes of it,
--   Crash and Exact the file that a crash leaves and the table that is replayed from it, Restart the
--   same without a crash.
-- Resp.antt: the protocol, engine/src/resp.cpp. Resp/Decimal has its numbers, Resp/Value RESPValue,
--   `serialize` and RESPFormatter, Resp/Parser RESPParser, one function for each state of its loop,
--   and Resp/Command `to_command`. Under Resp/Parser: Lines, Numbers and Steps (lemmas), Ends and
--   Fuel (the loop), Arrays (what the nested call does to them), RoundTrip, and Rounds and Chunks
--   (input in pieces).
-- Server.antt: EpollServer of engine/src/epoll_server.cpp. What the system calls return is an
--   argument, and the kernel's choice of a descriptor a parameter. Server/Connection has
--   ClientConnection and the two handlers, with Replies and Sends; Descriptors, with Starting,
--   Accepting and Lifecycle, is about what the server holds open; Clients and Refusal are about what
--   clients get.
-- Prelude.antt: shared names, lists and byte strings over the native numbers. Tests.antt: small
--   inputs.
--
-- How they interact
-- The engines hold hash tables and call insert, get and remove. The table appends to its log before
-- a change, tells its policy of every insertion, access and deletion, and asks it for candidates
-- while it is above its limit. The server feeds what it receives to the connection's parser, turns
-- values into commands, hands these to the command handler, which works on a store of its own, and
-- sends the replies.
--
-- Conventions
-- A machine word is a natural number with its wrap-around written out. A pointer into a container is
-- the key or the node number that it stands at. Clock readings and random choices are arguments. An
-- operation that the source runs under a mutex is one step.
--
-- Fuel
-- evict_loop gets one round more than the policy has candidates, and each round takes one away.
-- round_up gets 64 rounds: 64 doublings pass every capacity up to 2 ^ 63; beyond that the source's
-- loop does not end, and no theorem is stated. read_all takes more rounds than there are records, or
-- than there are bytes. print_digits gets 19 digits after the first, enough for 64 bits. parse gets
-- two rounds for each byte of the buffer and two more: a round takes a byte or enters an array's
-- element. The loop over the values of a received buffer gets two rounds: after a value the parser
-- is new.
--
-- Not modelled
-- Threads other than as events, the signed overflow of `bulk_len_ + 2` in the parser (undefined in
-- C++; the sum wraps here), allocation failure other than in the parser, and files that cannot be
-- opened. That `stop` of ShardedEngine joins its threads: it is the write of `running_`, after which
-- a worker past its test may take one more request. std::priority_queue's choice among entries of
-- equal count: the one pushed first comes first here. `stop` of the server during a call of `run`,
-- and the kernel's side of sockets and epoll. fsync is not visible: what flush has written is on
-- disk, and a crash leaves any part of what it is writing. The Go node layer is outside the engine.
pub mod Prelude
pub mod Hash
pub mod HashTable
pub mod History
pub mod Policy
pub mod Wal
pub mod Sharding
pub mod Workers
pub mod Engine
pub mod MutexEngine
pub mod Snapshot
pub mod Resp
pub mod Server
pub mod Recovery
pub mod Tests
