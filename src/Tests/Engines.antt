-- ===== src/Tests/Engines.antt =====
-- The engines built over the table.
use distributed_in_memory_kv.Prelude.{
  ◌*◌, ◌≤◌, ◌≡◌, inr, true, refl, none, some, List, [], ◌∷◌, Bytes, arith, length, codes,
  if◌then◌else◌, str_eq, length-replicate, replicate, get_or,
}
use distributed_in_memory_kv.Prelude.Int.{pos, negsuc}
use distributed_in_memory_kv.Policy.Tracker.{EvictionPolicy}
use distributed_in_memory_kv.HashTable.{HashTable}
use distributed_in_memory_kv.HashTable.Chain.{ValueEntry, new_entry}
use distributed_in_memory_kv.HashTable.Valid.{IsValid, lookup, found?}
use distributed_in_memory_kv.HashTable.Fresh.{new-IsValid}
use distributed_in_memory_kv.Sharding
use distributed_in_memory_kv.Sharding.{ShardedEngineSync, put, remove}
use distributed_in_memory_kv.Sharding.Routed.{Puts, put-Puts, Removes, remove-Removes, new-IsRouted}
use distributed_in_memory_kv.Workers
use distributed_in_memory_kv.Workers.{
  Request, Shard, ShardedEngine, shard_at, Event, run, step, start, submit, worker_at, write_shard,
  enqueue, key_of, get_shard_id, new_shard,
}
use distributed_in_memory_kv.Workers.Sequential.{IsWide, answer_all, served, routed, run-served}
use distributed_in_memory_kv.Workers.Drained.{is_quiet, turns, run-drained}
use distributed_in_memory_kv.Hash.{hash}
use distributed_in_memory_kv.History
use distributed_in_memory_kv.History.{Call, payload, written}
use distributed_in_memory_kv.MutexEngine
use distributed_in_memory_kv.HashTable.Roomy.Runs.{volume}
use distributed_in_memory_kv.MutexEngine.Exact.{get_exact}
use distributed_in_memory_kv.MutexEngine.Recalls.{mutex_map}
use distributed_in_memory_kv.Engine.{
  EngineHandle, default_table, put_value, engine_get, engine_delete,
}
use distributed_in_memory_kv.Engine.RoundTrip.{engine_get-put_value, engine_delete-found}

abbrev two_shards : ShardedEngineSync
two_shards = Sharding.new 2 100 EvictionPolicy.lfu

abbrev entry : ValueEntry
entry = new_entry (codes "v") 0

put-Puts_example : Puts (codes "k") entry two_shards (put (codes "k") entry two_shards)
put-Puts_example =
    put-Puts (codes "k") entry (new-IsRouted 2 100 EvictionPolicy.lfu (omega arith)).0

abbrev filled_shards : ShardedEngineSync
filled_shards = put (codes "k") entry two_shards

remove-Removes_example : Removes (codes "k") filled_shards (remove (codes "k") filled_shards)
remove-Removes_example = remove-Removes (codes "k") put-Puts_filled.routed
  where
    put-Puts_filled : Puts (codes "k") entry two_shards filled_shards
    put-Puts_filled =
        put-Puts (codes "k") entry (new-IsRouted 2 100 EvictionPolicy.lfu (omega arith)).0

-- Two clients and two workers; one worker is past its test when the engine is stopped.
abbrev schedule : List Event
schedule =
    Event.started
    ∷ Event.tested 1
    ∷ Event.submitted (Request.set (codes "k") entry)
    ∷ Event.worked 1
    ∷ Event.tested 0
    ∷ Event.tested 1
    ∷ Event.submitted (Request.get (codes "k") 1 2)
    ∷ Event.worked 0
    ∷ Event.stopped
    ∷ Event.worked 1
    ∷ []

abbrev idle_engine : ShardedEngine
idle_engine = Workers.new 2 100 EvictionPolicy.lru

idle_IsWide : IsWide idle_engine
unfolding Workers.new
idle_IsWide = record { wide = omega arith; full = length-replicate 2 _ }

run-served_example :
    served (shard_at 1 (run schedule idle_engine))
    ≡ answer_all (routed idle_engine.num_shards 1 schedule) (served (shard_at 1 idle_engine))
run-served_example = run-served schedule 1 idle_IsWide

-- A request is queued; the other worker's steps come between those of its shard's worker.
abbrev busy_engine : ShardedEngine
busy_engine = run (Event.started ∷ Event.submitted (Request.set (codes "k") entry) ∷ []) idle_engine

abbrev turns_to_come : List Event
turns_to_come =
    Event.tested 0
    ∷ Event.tested 1
    ∷ Event.worked 0
    ∷ Event.worked 1
    ∷ Event.tested 1
    ∷ Event.worked 1
    ∷ []

run-drained_example :
    ((shard_at 1 (run turns_to_come busy_engine)).queue ≡ [])
    × (shard_at 1 (run turns_to_come busy_engine) ≡ served (shard_at 1 busy_engine))
unfolding run step start submit Workers.new worker_at shard_at write_shard enqueue key_of
    get_shard_id is_quiet turns hash new_shard replicate get_or
run-drained_example =
    run-drained turns_to_come 1 {e = busy_engine} (record { wide = omega arith; full = refl }) refl
      (omega arith) refl refl (omega arith)

-- The request waits in shard 1.
busy_queue : length (shard_at 1 busy_engine).queue ≡ 1
unfolding run step start submit Workers.new worker_at shard_at write_shard enqueue key_of
    get_shard_id hash new_shard replicate get_or
busy_queue = refl

abbrev handle : EngineHandle
handle = record { num_threads = 4; mem_limit_bytes = 1000; table = default_table }

handle_IsValid : IsValid handle.table
handle_IsValid = (new-IsValid 16 (100 * 1024 * 1024) EvictionPolicy.lru none (omega arith)).0

-- Set at 1000 for 500, got at 1200.
engine_get-put_value_example :
    let (code, h') = put_value 1000 (codes "k") (codes "value") (pos 500) handle in
    let got = engine_get (1200, 1201, 1202) (some h') (some (codes "k")) true (some 64) in
    (code ≡ pos 0)
    × (got.code ≡ pos 0)
    × (got.out_buf ≡ some (codes "value"))
    × (got.out_len ≡ some 5)
engine_get-put_value_example =
    engine_get-put_value 1000 1200 1201 1202 (codes "k") (codes "value") (pos 500) 64 handle
      handle_IsValid (omega arith) (omega arith) (omega arith, inr (omega arith))
      (omega arith, inr (omega arith))

engine_delete-found_example :
    let (code, left) = engine_delete (some handle) (some (codes "k")) in
    (t : HashTable) × (left ≡ some (record handle { table = t }))
    × IsValid t
    × (code ≡ (if found? (lookup (codes "k") handle.table) then pos 0 else negsuc 0))
    × ((q : Bytes) → lookup q t ≡ (if str_eq (codes "k") q then none else lookup q handle.table))
engine_delete-found_example = engine_delete-found (codes "k") handle handle_IsValid

-- A key is written twice and another one removed.
abbrev mutex_calls : List Call
mutex_calls =
    Call.set (codes "k") (new_entry (codes "old") 0)
    ∷ Call.set (codes "l") entry
    ∷ Call.get (codes "k") 1 2
    ∷ Call.set (codes "k") entry
    ∷ Call.remove (codes "l")
    ∷ []

mutex_calls_small : volume mutex_calls ≤ 100 * 1024 * 1024
unfolding volume new_entry
mutex_calls_small = omega arith

get_exact_example :
    payload (MutexEngine.get (codes "k") 3 4 (History.run mutex_map mutex_calls MutexEngine.new)).0
    ≡ some (codes "v", 0)
unfolding new_entry str_eq
get_exact_example = get_exact mutex_calls (codes "k") 3 4 mutex_calls_small
