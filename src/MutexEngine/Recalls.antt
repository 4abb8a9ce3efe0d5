-- ===== src/MutexEngine/Recalls.antt =====
-- The engine with one mutex as a map that may lose entries (engine/include/mutex_engine.h).
use distributed_in_memory_kv.Prelude.{ℕ, ◌*◌, ◌≡◌, ◌⊎◌, none, List, Bytes, arith}
use distributed_in_memory_kv.Policy.Tracker.{EvictionPolicy}
use distributed_in_memory_kv.HashTable
use distributed_in_memory_kv.HashTable.{HashTable, is_expired, touch}
use distributed_in_memory_kv.HashTable.Valid.{IsValid, lookup, remove-Updates}
use distributed_in_memory_kv.HashTable.Methods.{get-Gets, insert-Inserts}
use distributed_in_memory_kv.HashTable.Fresh.{new-IsValid}
use distributed_in_memory_kv.MutexEngine.{MutexEngine, new, put, get, remove}
use distributed_in_memory_kv.HashTable.Recalls.{Gets-payload, Gets-lookup, insert-others}
use distributed_in_memory_kv.History.{MapEngine, payload, Call, written, run, get-written}

abbrev pub mutex_map : MapEngine
mutex_map = record {
  State = MutexEngine;
  IsGood = λ e. IsValid e.table;
  held = λ q e. lookup q e.table;
  put = put;
  get = get;
  remove = remove;
  put-IsGood = λ k v e good. (insert-Inserts k v good).valid;
  put-held = λ k v e good. (insert-Inserts k v good).stored;
  put-others = λ k q v e good other. insert-others k q v e.table good other;
  remove-IsGood = λ k e good. (remove-Updates k good).valid;
  remove-held = λ k q e good. (remove-Updates k good).reads q;
  get-IsGood = λ k n m e good. (get-Gets k n m good).valid;
  get-held = λ k q n m e good.
      Gets-lookup k q n m e.table (HashTable.get k n m e.table) (get-Gets k n m good);
  get-answer = λ k n m e good.
      Gets-payload k n m e.table (HashTable.get k n m e.table) (get-Gets k n m good);
}

new_lem : IsValid new.table × ((q : Bytes) → lookup q new.table ≡ none)
new_lem =
    let t = new-IsValid 16 (100 * 1024 * 1024) EvictionPolicy.lru none (omega arith) in (t.0, t.3)

-- Whatever calls of `set`, `get` and `remove` have been made on a new engine, in whatever order, a `get`
-- answers with the value and the expiry time that were last written for its key and not removed since,
-- or with nothing. If the key was never written, or was removed since, it answers with nothing.
pub get_latest :
    (calls : List Call) (k : Bytes) (n m : ℕ)
    → let r = get k n m (run mutex_map calls new) in
      (payload r.0 ≡ written k calls none) ⊎ (r.0 ≡ none)
get_latest calls k n m = get-written mutex_map calls k n m new new_lem.0 new_lem.1
