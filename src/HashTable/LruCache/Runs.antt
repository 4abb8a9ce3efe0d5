-- ===== src/HashTable/LruCache/Runs.antt =====
-- An LRU table over any sequence of calls (engine/src/hash_table.cpp, engine/src/lru_policy.cpp).
use distributed_in_memory_kv.Prelude.{
  ℕ, ◌+◌, ◌^◌, ◌<◌, ◌≡◌, ◌≢◌, refl, sym, ap, ◌∙◌, inl, inr, true, false, none, some, List, [], ◌∷◌,
  Bytes, arith, length, str_eq_iff, Bool-cases, Option-cases,
}
use distributed_in_memory_kv.HashTable
use distributed_in_memory_kv.HashTable.{
  HashTable, chain_of, log, set_record, evict_if_needed, resize_if_needed, insert_found, place,
  get_found, is_expired, touch, next_victim,
}
use distributed_in_memory_kv.HashTable.Chain.{ValueEntry, find}
use distributed_in_memory_kv.HashTable.Methods.{get-Gets}
use distributed_in_memory_kv.HashTable.Recalls.{table_map, live, Gets-lookup}
use distributed_in_memory_kv.History.{Call, run}
use distributed_in_memory_kv.HashTable.LruCache.{
  Item, find_item, forget, total, keys, IsCache, cache_step, cache_run, use_item, find_item-forget,
  forget-IsCache, total-forget, found_named,
}
use distributed_in_memory_kv.HashTable.LruCache.Tracked.{
  recency, remove_key, has, Leaves, on_access-Leaves,
}
use distributed_in_memory_kv.HashTable.LruCache.Items.{keys-forget, has-keys}
use distributed_in_memory_kv.HashTable.LruCache.Refines.{
  Refines, found_item, absent_item, remove-Refines,
}
use distributed_in_memory_kv.HashTable.LruCache.Writes.{gone, insert-Refines}

live-none :
    (n : ℕ) (v : ValueEntry) → is_expired n v ≡ true → live n (some (v.value, v.expiry_ns)) ≡ none
unfolding is_expired
live-none n v dead = ground arith

live-some :
    (n : ℕ) (v : ValueEntry)
    → is_expired n v ≡ false
    → live n (some (v.value, v.expiry_ns)) ≡ some (v.value, v.expiry_ns)
unfolding is_expired
live-some n v alive = ground arith

-- The tracker of a read.
read_tracker :
    (k : Bytes) (n m : ℕ) {bound : ℕ} {t : HashTable} {c : List Item}
    → Refines bound t c
    → let c' = use_item k (live n (find_item k c)) c in
      IsCache c'
      × Leaves (keys c') (total c') t.tracker (HashTable.get k n m t).1.tracker
      × ((q : Bytes) → find_item q c' ≡ find_item q c)
unfolding HashTable.get get_found keys total find_item
read_tracker k n m {t = t} {c} r = elim (Option-cases (find k (chain_of k t.buckets))) [
  | inl e ↦
      rw (e, absent_item k r e)
        (
          r.cache,
          record { lru = r.lru; order = r.order; bytes_used = r.bytes; limits = refl },
          λ q. refl,
        )
  | inr (kv, e) ↦ elim (Bool-cases (is_expired n kv.value)) [
    | inl dead ↦
        rw (e, dead, found_item k kv r e, live-none n kv.value dead)
          (
            r.cache,
            record { lru = r.lru; order = r.order; bytes_used = r.bytes; limits = refl },
            λ q. refl,
          )
    | inr alive ↦
        let item = found_item k kv r e in
        let v = touch m kv.value in
        let here : has k (recency t.tracker) ≡ true = ap (has k) r.order ∙ has-keys k c _ item in
        let used = on_access-Leaves k v.last_access_ns v.access_count t.tracker r.lru here in
        let sum = total-forget k kv.value.value kv.value.expiry_ns c r.cache item in
        rw (e, alive, item, live-some n kv.value alive)
          (
            (gone k c, found_named k c _ r.cache item, forget-IsCache k c r.cache),
            record {
              lru = used.lru;
              order =
                  used.order
                  ∙ ap (λ ks. k ∷ ks) (ap (remove_key k) r.order ∙ sym (keys-forget k c));
              bytes_used = used.bytes_used ∙ omega (arith, r.bytes, sum);
              limits = used.limits;
            },
            λ q. ground (arith, find_item-forget k q c, str_eq_iff k q, item),
          )
  ]
]

get-Refines :
    (k : Bytes) (n m : ℕ) {bound : ℕ} {t : HashTable} (c : List Item)
    → Refines bound t c
    → Refines bound (HashTable.get k n m t).1 (use_item k (live n (find_item k c)) c)
get-Refines k n m {t = t} c r =
    let gets = get-Gets k n m r.valid in
    let (cache, tr, same) = read_tracker k n m r in
    record {
      valid = gets.valid;
      lru = tr.lru;
      cache = cache;
      order = tr.order;
      bytes = tr.bytes_used;
      limits = tr.limits ∙ r.limits;
      holds = λ q. Gets-lookup k q n m t (HashTable.get k n m t) gets ∙ (r.holds q ∙ sym (same q));
    }

-- The keys that are written are not empty, and no value makes the count of the bytes wrap.
abbrev pub AllCacheable : ℕ → List Call → Type 0
AllCacheable bound [] = Unit
AllCacheable bound (Call.set k v ∷ calls) =
    (k ≢ []) × (bound + length v.value < 2 ^ 64) × AllCacheable bound calls
AllCacheable bound (Call.get k n m ∷ calls) = AllCacheable bound calls
AllCacheable bound (Call.remove k ∷ calls) = AllCacheable bound calls

pub run-Refines :
    (calls : List Call) {bound : ℕ} {t : HashTable} (c : List Item)
    → Refines bound t c
    → AllCacheable bound calls
    → Refines bound (run table_map calls t) (cache_run bound calls c)
unfolding run cache_run
run-Refines [] c r fit = r
run-Refines (Call.set k v ∷ calls) {bound} c r (named, room, fit) =
    run-Refines calls (cache_step bound (Call.set k v) c) (insert-Refines k v c r named room) fit
run-Refines (Call.get k n m ∷ calls) {bound} c r fit =
    run-Refines calls (cache_step bound (Call.get k n m) c) (get-Refines k n m c r) fit
run-Refines (Call.remove k ∷ calls) {bound} c r fit =
    run-Refines calls (forget k c) (remove-Refines k r) fit
