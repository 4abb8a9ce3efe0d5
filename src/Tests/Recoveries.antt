-- ===== src/Tests/Recoveries.antt =====
-- A few calls, a crash and a restart (engine/src/hash_table.cpp, engine/src/wal.cpp).
use distributed_in_memory_kv.Prelude.{◌≡◌, some, str_eq, none, List, [], ◌∷◌, arith, codes}
use distributed_in_memory_kv.Policy.Tracker.{EvictionPolicy}
use distributed_in_memory_kv.HashTable
use distributed_in_memory_kv.HashTable.{enable_wal, destroy}
use distributed_in_memory_kv.HashTable.Recalls.{table_map}
use distributed_in_memory_kv.HashTable.Roomy.Runs.{volume}
use distributed_in_memory_kv.HashTable.Upkeep.{replay_wal}
use distributed_in_memory_kv.History.{Call, run, payload}
use distributed_in_memory_kv.HashTable.Valid.{lookup}
use distributed_in_memory_kv.Recovery.Restart.{restart_exact}
use distributed_in_memory_kv.Recovery.Calls.{AllFitting}
use distributed_in_memory_kv.Recovery.Crash.{crash_image}
use distributed_in_memory_kv.Recovery.Exact.{Restores, crash_recovery_exact}

abbrev traffic : List Call
traffic =
    Call.set (codes "a")
      (record { value = codes "12"; access_count = 0; last_access_ns = 0; expiry_ns = 0 })
    ∷ Call.get (codes "a") 1 2
    ∷ Call.set (codes "b")
        (record { value = codes "3"; access_count = 0; last_access_ns = 0; expiry_ns = 9 })
    ∷ Call.remove (codes "a")
    ∷ []

traffic-AllFitting : AllFitting traffic
traffic-AllFitting = (
  omega arith,
  omega arith,
  omega arith,
  (omega arith, (omega arith, omega arith, omega arith, (omega arith, tt))),
)

-- The second flush was under way when the crash came.
crash_recovery_exact_example :
    let t = run table_map traffic (enable_wal [] 2 (HashTable.new 4 100 EvictionPolicy.lru none)) in
    let t' = HashTable.new 8 50 EvictionPolicy.lfu none in
    Restores 2 traffic (replay_wal (λ i. (i, i)) (crash_image 7 t.wal_writer) t').1
crash_recovery_exact_example =
    crash_recovery_exact traffic 4 100 8 50 2 7 EvictionPolicy.lru EvictionPolicy.lfu (λ i. (i, i))
      (omega arith) (omega arith) (omega arith) (omega arith) (unfold volume in omega arith)
      (unfold volume in omega arith) (omega arith) traffic-AllFitting

restart_exact_example :
    let t = run table_map traffic (enable_wal [] 2 (HashTable.new 4 100 EvictionPolicy.lru none)) in
    let t' = HashTable.new 8 50 EvictionPolicy.lfu none in
    payload (lookup (codes "b") (replay_wal (λ i. (i, i)) (destroy t) t').1) ≡ some (codes "3", 9)
unfolding str_eq
restart_exact_example =
    restart_exact traffic 4 100 8 50 2 EvictionPolicy.lru EvictionPolicy.lfu (λ i. (i, i))
      (codes "b") (omega arith) (omega arith) (omega arith) (omega arith)
      (unfold volume in omega arith) (unfold volume in omega arith) (omega arith) traffic-AllFitting
