-- ===== src/MutexEngine/Exact.antt =====
-- The engine with one mutex while its memory limit is not reached (engine/include/mutex_engine.h).
use distributed_in_memory_kv.Prelude.{
  ℕ, ◌*◌, ◌≤◌, ◌≡◌, refl, ap, ◌∙◌, inl, none, List, [], ◌∷◌, Bytes, arith,
}
use distributed_in_memory_kv.Policy.Tracker.{EvictionPolicy}
use distributed_in_memory_kv.HashTable.Valid.{IsValid, lookup}
use distributed_in_memory_kv.HashTable.Fresh.{new-IsValid}
use distributed_in_memory_kv.HashTable.Methods.{get-Gets}
use distributed_in_memory_kv.HashTable.Recalls.{table_map, live, payload-answer}
use distributed_in_memory_kv.HashTable.Roomy.Runs.{volume, new-Roomy, run-Holds}
use distributed_in_memory_kv.MutexEngine.{MutexEngine, new, put, get, remove}
use distributed_in_memory_kv.MutexEngine.Recalls.{mutex_map}
use distributed_in_memory_kv.History.{payload, Call, written, run, run-Recalls}

-- The engine's run is its table's.
table-run :
    (calls : List Call) (e : MutexEngine)
    → (run mutex_map calls e).table ≡ run table_map calls e.table
unfolding run
table-run [] e = refl
table-run (Call.set k v ∷ calls) e = table-run calls (put k v e)
table-run (Call.get k n m ∷ calls) e = table-run calls (get k n m e).1
table-run (Call.remove k ∷ calls) e = table-run calls (remove k e).1

-- Whatever calls of `set`, `get` and `remove` have been made on a new engine, in whatever order, where the
-- values written are not more than its limit of 100 MiB together: a `get` answers exactly with the value and
-- the expiry time that were last written for its key and not removed since, or with nothing if there are
-- none or they have expired.
pub get_exact :
    (calls : List Call) (k : Bytes) (n m : ℕ)
    → volume calls ≤ 100 * 1024 * 1024
    → payload (get k n m (run mutex_map calls new)).0 ≡ live n (written k calls none)
get_exact calls k n m small =
    let e = run mutex_map calls new in
    let fresh = new-IsValid 16 (100 * 1024 * 1024) EvictionPolicy.lru none (omega arith) in
    let roomy =
      new-Roomy 16 (100 * 1024 * 1024) (volume calls) EvictionPolicy.lru (omega arith) (omega arith)
        small in
    let held : payload (lookup k e.table) ≡ written k calls none =
      ap (λ t. payload (lookup k t)) (table-run calls new)
      ∙ run-Holds calls new.table (λ q. none) roomy (λ q. ap payload (fresh.3 q)) k in
    let valid : IsValid e.table =
      (run-Recalls mutex_map calls new (λ q. none) fresh.0 (λ q. inl (ap payload (fresh.3 q)))).0 in
    ap payload (get-Gets k n m valid).result
    ∙ (payload-answer n m (lookup k e.table) ∙ ap (live n) held)
