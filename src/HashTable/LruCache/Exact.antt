-- ===== src/HashTable/LruCache/Exact.antt =====
-- What a client sees of an LRU table (engine/src/hash_table.cpp, engine/src/lru_policy.cpp).
use distributed_in_memory_kv.Prelude.{ℕ, ◌≤◌, ◌^◌, ◌≡◌, refl, ap, ◌∙◌, none, List, [], Bytes}
use distributed_in_memory_kv.Policy.Lru
use distributed_in_memory_kv.Policy.Lru.Order
use distributed_in_memory_kv.Policy.Tracker
use distributed_in_memory_kv.Policy.Tracker.{EvictionPolicy}
use distributed_in_memory_kv.Policy.Accounts.{memory, limit}
use distributed_in_memory_kv.HashTable
use distributed_in_memory_kv.HashTable.{next_victim}
use distributed_in_memory_kv.HashTable.Methods.{get-Gets}
use distributed_in_memory_kv.HashTable.Fresh.{new-IsValid}
use distributed_in_memory_kv.HashTable.Recalls.{table_map, live, payload-answer}
use distributed_in_memory_kv.History.{payload, Call, run}
use distributed_in_memory_kv.HashTable.LruCache.{find_item, total, keys, cache_run}
use distributed_in_memory_kv.HashTable.LruCache.Tracked.{
  recency, use_keys, last_key, candidate_last,
}
use distributed_in_memory_kv.HashTable.LruCache.Refines.{Refines}
use distributed_in_memory_kv.HashTable.LruCache.Runs.{AllCacheable, run-Refines}

new-Refines :
    (initial bound : ℕ)
    → initial ≤ 2 ^ 63
    → Refines bound (HashTable.new initial bound EvictionPolicy.lru none) []
unfolding find_item keys total
new-Refines initial bound small =
    let (valid, _, _, empty) = new-IsValid initial bound EvictionPolicy.lru none small in
    record {
      valid = valid;
      lru = unfold HashTable.new Tracker.new in Order.new-IsValid bound;
      cache = tt;
      order = unfold HashTable.new Tracker.new Lru.new recency Order.uses_of use_keys in refl;
      bytes = unfold HashTable.new Tracker.new Lru.new memory in refl;
      limits = unfold HashTable.new Tracker.new Lru.new limit in refl;
      holds = λ q. ap payload (empty q);
    }

-- A new table with the LRU policy, an initial capacity of at most 2 ^ 63 and any memory limit, and
-- then any calls that write no empty key and no value with whose size the limit reaches 2 ^ 64: it
-- stands for the cache that the same calls leave on a list of items, where a write first keeps the
-- longest first part whose values fit into the limit and then puts its item in front, a read that
-- finds an item that has not expired moves it to the front, and a removal takes it out. A `get`
-- answers exactly with the item of that list, if it has not expired; the bytes counted are those
-- of the list's values; and the next victim is the last item's key.
pub run-cache_run :
    (calls : List Call) (initial bound : ℕ) (k : Bytes) (n m : ℕ)
    → initial ≤ 2 ^ 63
    → AllCacheable bound calls
    → let t = run table_map calls (HashTable.new initial bound EvictionPolicy.lru none) in
      let c = cache_run bound calls [] in
      (payload (HashTable.get k n m t).0 ≡ live n (find_item k c))
      × (memory t.tracker ≡ total c)
      × ((next_victim t).0 ≡ last_key (keys c))
run-cache_run calls initial bound k n m small fit =
    let t = run table_map calls (HashTable.new initial bound EvictionPolicy.lru none) in
    let r = run-Refines calls [] (new-Refines initial bound small) fit in
    (
      ap payload (get-Gets k n m r.valid).result ∙ (payload-answer n m _ ∙ ap (live n) (r.holds k)),
      r.bytes,
      unfold next_victim in (ap (λ x. x.0) (candidate_last t.tracker r.lru) ∙ ap last_key r.order),
    )
