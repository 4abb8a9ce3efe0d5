-- ===== src/Policy/Tracker.antt =====
-- The two `unique_ptr`s of the hash table, of which the constructor makes the one that the
-- eviction policy names (engine/src/hash_table.cpp).
use distributed_in_memory_kv.Prelude.{ℕ, Bool, Bytes, length}
use distributed_in_memory_kv.Policy.Lru
use distributed_in_memory_kv.Policy.Lru.{LruPolicy}
use distributed_in_memory_kv.Policy.Lfu
use distributed_in_memory_kv.Policy.Lfu.{LfuPolicy}

pub data EvictionPolicy : Type 0 where
  lru lfu : EvictionPolicy

pub data Tracker : Type 0 where
  by_lru : LruPolicy → Tracker
  by_lfu : LfuPolicy → Tracker

unfoldable pub new : EvictionPolicy → ℕ → Tracker
new lru memory_limit = by_lru (Lru.new memory_limit)
new lfu memory_limit = by_lfu (Lfu.new memory_limit)

-- The LRU list takes the time of the last access, the LFU heap the access count.
unfoldable pub on_insert : Bytes → ℕ → ℕ → ℕ → Tracker → Tracker
on_insert key value_size last_access_ns access_count (by_lru p) =
    by_lru (Lru.on_insert key value_size last_access_ns p)
on_insert key value_size last_access_ns access_count (by_lfu p) =
    by_lfu (Lfu.on_insert key value_size access_count p)

unfoldable pub on_access : Bytes → ℕ → ℕ → Tracker → Tracker
on_access key last_access_ns access_count (by_lru p) = by_lru (Lru.on_access key last_access_ns p)
on_access key last_access_ns access_count (by_lfu p) = by_lfu (Lfu.on_access key access_count p)

unfoldable pub on_delete : Bytes → ℕ → Tracker → Tracker
on_delete key value_size (by_lru p) = by_lru (Lru.on_delete key value_size p)
on_delete key value_size (by_lfu p) = by_lfu (Lfu.on_delete key value_size p)

unfoldable pub should_evict : Tracker → Bool
should_evict (by_lru p) = Lru.should_evict p
should_evict (by_lfu p) = Lfu.should_evict p

unfoldable pub get_eviction_candidate : Tracker → Bytes × Tracker
get_eviction_candidate (by_lru p) = (Lru.get_eviction_candidate p, by_lru p)
get_eviction_candidate (by_lfu p) =
    let (candidate, p') = Lfu.get_eviction_candidate p in (candidate, by_lfu p')

-- How many candidates there can be: the length of the list or of the heap.
unfoldable pub candidates : Tracker → ℕ
candidates (by_lru p) = length p.access_list
candidates (by_lfu p) = length p.heap
