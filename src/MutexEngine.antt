-- ===== src/MutexEngine.antt =====
-- MutexEngine (engine/include/mutex_engine.h): one table behind one mutex. Each method is one step.
pub mod Recalls
pub mod Exact
use distributed_in_memory_kv.Prelude.{ℕ, ◌*◌, Bool, Option, none, Bytes}
use distributed_in_memory_kv.Policy.Tracker.{EvictionPolicy}
use distributed_in_memory_kv.HashTable
use distributed_in_memory_kv.HashTable.{HashTable}
use distributed_in_memory_kv.HashTable.Chain.{ValueEntry}

pub record MutexEngine : Type 0 where
  pub table : HashTable

abbrev pub new : MutexEngine
new = record { table = HashTable.new 16 (100 * 1024 * 1024) EvictionPolicy.lru none }

-- `set`
abbrev pub put : Bytes → ValueEntry → MutexEngine → MutexEngine
put key value e = record { table = HashTable.insert key value e.table }

abbrev pub get : Bytes → ℕ → ℕ → MutexEngine → Option ValueEntry × MutexEngine
get key now_check now_access e =
    let r = HashTable.get key now_check now_access e.table in (r.0, record { table = r.1 })

abbrev pub remove : Bytes → MutexEngine → Bool × MutexEngine
remove key e = let r = HashTable.remove key e.table in (r.0, record { table = r.1 })

abbrev pub size : MutexEngine → ℕ
size e = HashTable.size e.table
