-- ===== src/Workers.antt =====
-- The engine with a thread for each shard: engine/include/sharded_engine.h and
-- engine/src/sharded_engine.cpp. A shard's table is touched by its own worker only, and its queue
-- under the queue's mutex, so an execution is a sequence of the events below: a thread's test of
-- `running_` is one, and the body of its loop another. The answers of a
-- shard are what its promises were set to, in the order in which that happened.
pub mod Sequential
pub mod Turns
pub mod Drained
use distributed_in_memory_kv.Prelude.{
  ℕ, zero, suc, ◌+◌, ◌%◌, Bool, true, false, Option, none, some, List, [], ◌∷◌, ◌++◌, Bytes, get_or,
  replicate, if◌then◌else◌,
}
use distributed_in_memory_kv.Prelude
use distributed_in_memory_kv.Hash.{hash}
use distributed_in_memory_kv.Policy.Tracker.{EvictionPolicy}
use distributed_in_memory_kv.HashTable
use distributed_in_memory_kv.HashTable.{HashTable}
use distributed_in_memory_kv.HashTable.Chain.{ValueEntry}

-- The requests that `get`, `set` and `remove` make. A lookup carries what the worker's clock reads
-- while it is answered.
pub data Request : Type 0 where
  get : Bytes → ℕ → ℕ → Request
  set : Bytes → ValueEntry → Request
  remove : Bytes → Request

unfoldable pub key_of : Request → Bytes
key_of (Request.get k n m) = k
key_of (Request.set k v) = k
key_of (Request.remove k) = k

pub record Shard : Type 0 where
  pub table : HashTable
  pub queue : List Request
  pub answers : List (Option ValueEntry)

-- Where a shard's thread stands: there is none, it is about to test `running_`, it is past the test, or
-- its loop has ended.
pub data WorkerThread : Type 0 where
  absent at_test in_body ended : WorkerThread

pub record ShardedEngine : Type 0 where
  pub num_shards : ℕ
  pub shards : List Shard
  pub workers : List WorkerThread
  pub running : Bool

unfoldable pub new_shard : ℕ → EvictionPolicy → Shard
new_shard memory_limit policy = record {
  table = HashTable.new 16 memory_limit policy none;
  queue = [];
  answers = [];
}

unfoldable pub new : ℕ → ℕ → EvictionPolicy → ShardedEngine
unfolding new_shard
new num_shards memory_limit_per_shard policy = record {
  num_shards = num_shards;
  shards = replicate num_shards (new_shard memory_limit_per_shard policy);
  workers = replicate num_shards absent;
  running = false;
}

unfoldable pub get_shard_id : ℕ → Bytes → ℕ
get_shard_id num_shards key = hash key % num_shards

-- What the promise is set to, and the table. Only a lookup answers with a value.
unfoldable pub process_request : Request → HashTable → Option ValueEntry × HashTable
process_request (Request.get k n m) t = HashTable.get k n m t
process_request (Request.set k v) t = (none, HashTable.insert k v t)
process_request (Request.remove k) t = (none, (HashTable.remove k t).1)

unfoldable pub answer_now : Request → Shard → Shard
unfolding process_request
answer_now r s =
    let (a, t) = process_request r s.table in record s { table = t; answers = s.answers ++ a ∷ [] }

unfoldable pub enqueue : Request → Shard → Shard
enqueue r s = record s { queue = s.queue ++ r ∷ [] }

-- `front`, `pop` and process_request.
unfoldable pub take_request : Request → List Request → Shard → Shard
unfolding answer_now
take_request r rs s = answer_now r (record s { queue = rs })

unfoldable pub shard_at : ℕ → ShardedEngine → Shard
unfolding new_shard
shard_at i e = get_or e.shards i (new_shard 0 EvictionPolicy.lru)

unfoldable pub write_shard : ℕ → Shard → ShardedEngine → ShardedEngine
write_shard i s e = record e { shards = Prelude.set e.shards i s }

unfoldable pub submit : Request → ShardedEngine → ShardedEngine
unfolding shard_at write_shard enqueue get_shard_id key_of
submit r e =
    let i = get_shard_id e.num_shards (key_of r) in write_shard i (enqueue r (shard_at i e)) e

unfoldable pub worker_at : ℕ → ShardedEngine → WorkerThread
worker_at i e = get_or e.workers i absent

unfoldable pub set_worker : ℕ → WorkerThread → ShardedEngine → ShardedEngine
set_worker i w e = record e { workers = Prelude.set e.workers i w }

-- `while (running_)`
unfoldable pub after_test : Bool → WorkerThread → WorkerThread
after_test running at_test = if running then in_body else ended
after_test running w = w

unfoldable pub test : ℕ → ShardedEngine → ShardedEngine
unfolding worker_at set_worker after_test
test i e = set_worker i (after_test e.running (worker_at i e)) e

-- The body of the loop. With an empty queue the thread waits, and ends once the engine is stopped.
-- With a request in the queue it takes it, even if the engine was stopped after the test.
unfoldable pub body : List Request → ℕ → ShardedEngine → ShardedEngine
unfolding shard_at write_shard take_request set_worker
body [] i e = if e.running then e else set_worker i ended e
body (r ∷ rs) i e = set_worker i at_test (write_shard i (take_request r rs (shard_at i e)) e)

unfoldable pub is_in_body : WorkerThread → Bool
is_in_body in_body = true
is_in_body _ = false

unfoldable pub work : ℕ → ShardedEngine → ShardedEngine
unfolding body is_in_body
work i e = if is_in_body (worker_at i e) then body (shard_at i e).queue i e else e

unfoldable pub start : ShardedEngine → ShardedEngine
start e =
    let fresh = record e { running = true; workers = replicate e.num_shards at_test } in
    if e.running then e else fresh

-- The write of `running_`. The call returns once the threads have ended, so a `start` comes after that.
unfoldable pub stop : ShardedEngine → ShardedEngine
stop e = record e { running = false }

pub data Event : Type 0 where
  submitted : Request → Event
  tested : ℕ → Event
  worked : ℕ → Event
  started stopped : Event

unfoldable pub step : Event → ShardedEngine → ShardedEngine
unfolding submit test work start stop
step (submitted r) e = submit r e
step (tested i) e = test i e
step (worked i) e = work i e
step started e = start e
step stopped e = stop e

-- An execution, its first event first.
unfoldable pub run : List Event → ShardedEngine → ShardedEngine
unfolding step
run [] e = e
run (x ∷ xs) e = run xs (step x e)

total : List Shard → ℕ
total [] = 0
total (s ∷ ss) = HashTable.size s.table + total ss

unfoldable pub total_entries : ShardedEngine → ℕ
unfolding total
total_entries e = total e.shards
