-- ===== src/Tests/Caches.antt =====
-- An LRU table under memory pressure (engine/src/hash_table.cpp, engine/src/lru_policy.cpp).
use distributed_in_memory_kv.Prelude.{◌≡◌, refl, none, List, [], ◌∷◌, Bytes, arith, codes, str_eq}
use distributed_in_memory_kv.Policy.Tracker.{EvictionPolicy}
use distributed_in_memory_kv.Policy.Accounts.{memory}
use distributed_in_memory_kv.HashTable
use distributed_in_memory_kv.HashTable.{next_victim}
use distributed_in_memory_kv.HashTable.Chain.{ValueEntry}
use distributed_in_memory_kv.HashTable.Recalls.{table_map, live}
use distributed_in_memory_kv.History.{payload, Call, run}
use distributed_in_memory_kv.HashTable.LruCache.{find_item, total, keys, keep, forget, cache_run}
use distributed_in_memory_kv.HashTable.LruCache.Tracked.{last_key}
use distributed_in_memory_kv.HashTable.LruCache.Runs.{AllCacheable}
use distributed_in_memory_kv.HashTable.LruCache.Exact.{run-cache_run}

abbrev entry : Bytes → ValueEntry
entry value = record { value = value; access_count = 0; last_access_ns = 0; expiry_ns = 0 }

-- The third write finds six bytes where five are allowed; the read has put the first key in front.
abbrev pressed : List Call
pressed =
    Call.set (codes "a") (entry (codes "abc"))
    ∷ Call.set (codes "b") (entry (codes "def"))
    ∷ Call.get (codes "a") 1 2
    ∷ Call.set (codes "c") (entry (codes "x"))
    ∷ []

pressed-AllCacheable : AllCacheable 5 pressed
pressed-AllCacheable = (λ e. cc, omega arith, (λ e. cc, omega arith, (λ e. cc, omega arith, tt)))

-- The second key is the one that is given up.
pressed_leaves :
    cache_run 5 pressed []
    ≡ record { key = codes "c"; value = codes "x"; expiry_ns = 0 }
      ∷ record { key = codes "a"; value = codes "abc"; expiry_ns = 0 }
      ∷ []
unfolding cache_run keep forget find_item str_eq
pressed_leaves = refl

run-cache_run_example :
    let t = run table_map pressed (HashTable.new 4 5 EvictionPolicy.lru none) in
    let c = cache_run 5 pressed [] in
    (payload (HashTable.get (codes "b") 3 4 t).0 ≡ live 3 (find_item (codes "b") c))
    × (memory t.tracker ≡ total c)
    × ((next_victim t).0 ≡ last_key (keys c))
run-cache_run_example = run-cache_run pressed 4 5 (codes "b") 3 4 (omega arith) pressed-AllCacheable
