-- ===== src/HashTable/LruCache/Writes.antt =====
-- What a write does to the cache that an LRU table stands for (`insert` of engine/src/hash_table.cpp).
use distributed_in_memory_kv.Prelude.{
  ℕ, ◌+◌, ◌%◌, ◌^◌, ◌≤◌, ◌<◌, ◌≡◌, ◌≢◌, refl, sym, ap, ◌∙◌, inl, inr, Bool, true, false, Option,
  none, some, List, [], ◌∷◌, Bytes, arith, length, str_eq, str_eq_iff, if◌then◌else◌, Option-cases,
}
use mathlib.Core.Path.{subst}
use distributed_in_memory_kv.Wal.{WalRecord}
use distributed_in_memory_kv.Policy.Tracker
use distributed_in_memory_kv.Policy.Tracker.{Tracker, EvictionPolicy}
use distributed_in_memory_kv.Policy.Accounts.{memory, limit}
use distributed_in_memory_kv.HashTable
use distributed_in_memory_kv.HashTable.{
  HashTable, chain_of, log, set_record, evict_if_needed, resize_if_needed, insert_found, place,
  get_found, is_expired, touch, next_victim,
}
use distributed_in_memory_kv.HashTable.Chain.{ValueEntry, find}
use distributed_in_memory_kv.HashTable.Valid.{
  lookup, place-Updates, log-IsValid, lookup-log, resize_if_needed-SameMap,
}
use distributed_in_memory_kv.HashTable.ReadMemory.{tracker-resize_if_needed}
use distributed_in_memory_kv.History.{payload}
use distributed_in_memory_kv.HashTable.LruCache.{
  Item, find_item, forget, total, keep, keys, find_item-forget, forget_absent, forget-IsCache,
  total-keep, total-forget_le,
}
use distributed_in_memory_kv.HashTable.LruCache.Tracked.{
  IsLru, recency, has, Leaves, on_insert-Leaves,
}
use distributed_in_memory_kv.HashTable.LruCache.Items.{has-keys_absent}
use distributed_in_memory_kv.HashTable.LruCache.Refines.{
  Refines, absent_item, delete_found, evict_if_needed-Refines,
}

log-Refines :
    (r : WalRecord) {bound : ℕ} {t : HashTable} {c : List Item}
    → Refines bound t c
    → Refines bound (log r t) c
log-Refines r {t = t} f = record {
  valid = log-IsValid r f.valid;
  lru = unfold log in f.lru;
  cache = f.cache;
  order = unfold log in f.order;
  bytes = unfold log in f.bytes;
  limits = unfold log in f.limits;
  holds = λ q. ap payload (lookup-log r q t) ∙ f.holds q;
}

resize-Refines :
    {bound : ℕ} {t : HashTable} {c : List Item}
    → Refines bound t c
    → Refines bound (resize_if_needed t) c
resize-Refines {t = t} f =
    let same = resize_if_needed-SameMap f.valid in
    let e = tracker-resize_if_needed t in
    record {
      valid = same.valid;
      lru = subst IsLru (sym e) f.lru;
      cache = f.cache;
      order = ap recency e ∙ f.order;
      bytes = ap memory e ∙ f.bytes;
      limits = ap limit e ∙ f.limits;
      holds = λ q. ap payload (same.reads q) ∙ f.holds q;
    }

pub gone : (k : Bytes) (c : List Item) → find_item k (forget k c) ≡ none
gone k c = find_item-forget k k c ∙ ground (arith, str_eq_iff k k)

-- The tracker of a write.
write_tracker :
    (k : Bytes) (v : ValueEntry) {bound : ℕ} {t : HashTable} {c : List Item}
    → Refines bound t c
    → Leaves
        (k ∷ keys (forget k c))
        ((total (forget k c) + length v.value) % 2 ^ 64)
        t.tracker
        (place k v t).tracker
unfolding place insert_found
write_tracker k v {t = t} {c} r = elim (Option-cases (find k (chain_of k t.buckets))) [
  | inl e ↦
      let absent = absent_item k r e in
      let fresh : has k (recency t.tracker) ≡ false =
        ap (has k) r.order ∙ has-keys_absent k c absent in
      let put =
        on_insert-Leaves k (length v.value) v.last_access_ns v.access_count t.tracker r.lru fresh in
      rw (e, forget_absent k c absent)
        (record {
          lru = put.lru;
          order = put.order ∙ ap (λ ks. k ∷ ks) r.order;
          bytes_used = put.bytes_used ∙ ap (λ n. (n + length v.value) % 2 ^ 64) r.bytes;
          limits = put.limits;
        })
  | inr (kv, e) ↦
      let del = delete_found k kv r e in
      let tr = Tracker.on_delete k (length kv.value.value) t.tracker in
      let fresh : has k (recency tr) ≡ false =
        ap (has k) del.order ∙ has-keys_absent k (forget k c) (gone k c) in
      let put =
        on_insert-Leaves k (length v.value) v.last_access_ns v.access_count tr del.lru fresh in
      rw e (record {
        lru = put.lru;
        order = put.order ∙ ap (λ ks. k ∷ ks) del.order;
        bytes_used = put.bytes_used ∙ ap (λ n. (n + length v.value) % 2 ^ 64) del.bytes_used;
        limits = put.limits ∙ del.limits;
      })
]

payload-if :
    (b : Bool) (v : ValueEntry) (held : Option ValueEntry) (item : Option (Bytes × ℕ))
    → payload held ≡ item
    → payload (if b then some v else held)
      ≡ (if b then some (v.value, v.expiry_ns) else if b then none else item)
payload-if true v held item e = refl
payload-if false v held item e = e

place-Refines :
    (k : Bytes) (v : ValueEntry) {bound : ℕ} {t : HashTable} {c : List Item}
    → Refines bound t c
    → k ≢ []
    → total c ≤ bound
    → bound + length v.value < 2 ^ 64
    → Refines bound
        (place k v t)
        (record { key = k; value = v.value; expiry_ns = v.expiry_ns } ∷ forget k c)
unfolding keys total find_item
place-Refines k v {bound} {t} {c} r named small room =
    let tr = write_tracker k v r in
    let u = place-Updates k v r.valid in
    record {
      valid = u.valid;
      lru = tr.lru;
      cache = (gone k c, named, forget-IsCache k c r.cache);
      order = tr.order;
      bytes = tr.bytes_used ∙ omega (arith, total-forget_le k c);
      limits = tr.limits ∙ r.limits;
      holds = λ q.
          ap payload (u.reads q)
          ∙ (payload-if (str_eq k q) v (lookup q t) (find_item q c) (r.holds q)
              ∙ ap (λ x. if str_eq k q then some (v.value, v.expiry_ns) else x)
                  (sym (find_item-forget k q c)));
    }

pub insert-Refines :
    (k : Bytes) (v : ValueEntry) {bound : ℕ} {t : HashTable} (c : List Item)
    → Refines bound t c
    → k ≢ []
    → bound + length v.value < 2 ^ 64
    → Refines bound
        (HashTable.insert k v t)
        (record { key = k; value = v.value; expiry_ns = v.expiry_ns } ∷ forget k (keep bound c))
unfolding HashTable.insert
insert-Refines k v {bound} c r named room =
    place-Refines k v (resize-Refines (evict_if_needed-Refines c (log-Refines (set_record k v) r)))
      named (total-keep bound c) room
