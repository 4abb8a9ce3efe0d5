-- ===== src/HashTable/Roomy.antt =====
-- A table whose memory limit is never reached: what `insert`, `get` and `remove` of engine/src/hash_table.cpp
-- then do to the map and to the count of bytes.
pub mod Runs
use distributed_in_memory_kv.Prelude.{
  ℕ, ◌+◌, ◌*◌, ◌≤◌, ◌<◌, ◌^◌, ◌≡◌, refl, ap, sym, ◌∙◌, inl, inr, Bool, true, false, Option, none,
  some, List, [], ◌∷◌, Bytes, arith, length, ltb, le→leb, Bool-cases, Option-cases, str_eq,
  str_eq_iff, if◌then◌else◌,
}
use mathlib.Core.Path.{subst}
use distributed_in_memory_kv.Wal.{WalRecord}
use distributed_in_memory_kv.Policy.Lru
use distributed_in_memory_kv.Policy.Lru.{release}
use distributed_in_memory_kv.Policy.Lru.Order
use distributed_in_memory_kv.Policy.Lfu
use distributed_in_memory_kv.Policy.Tracker
use distributed_in_memory_kv.Policy.Tracker.{Tracker, EvictionPolicy, by_lru, by_lfu}
use distributed_in_memory_kv.Policy.Accounts.{
  memory, limit, should_evict_lem, on_access-After, memory-new,
}
use distributed_in_memory_kv.HashTable
use distributed_in_memory_kv.HashTable.Chain.{ValueEntry, KeyValuePair, find}
use distributed_in_memory_kv.HashTable.{
  HashTable, chain_of, log, set_record, delete_record, remove_found, insert_found, place,
  resize_if_needed, get_found, is_expired, touch,
}
use distributed_in_memory_kv.HashTable.Valid.{
  IsValid, lookup, log-IsValid, Updates, remove-Updates, resize_if_needed-SameMap,
}
use distributed_in_memory_kv.HashTable.Evict.{evict_none}
use distributed_in_memory_kv.HashTable.StoredBytes.{table_bytes}
use distributed_in_memory_kv.HashTable.Memory.{
  IsAccounted, log-IsAccounted, remove-IsAccounted, place-IsAccounted, table_bytes-place-le,
}
use distributed_in_memory_kv.HashTable.ReadMemory.{
  tracker-resize_if_needed, resize_if_needed-IsAccounted, get-IsAccounted,
}
use distributed_in_memory_kv.HashTable.Methods.{insert-Updates, get-Gets}
use distributed_in_memory_kv.HashTable.Fresh.{new-IsValid, new-IsAccounted}
use distributed_in_memory_kv.HashTable.Recalls.{table_map, Gets-lookup}
use distributed_in_memory_kv.History.{Call, written, run, payload}

-- The limit stays, and the count of bytes does not grow.
record Settles (tr tr' : Tracker) : Type 0 where
  limits : limit tr' ≡ limit tr
  bytes : memory tr' ≤ memory tr

release-le : (m n : ℕ) → release m n ≤ m
unfolding release
release-le m n = ground arith

on_delete-Settles : (k : Bytes) (n : ℕ) (tr : Tracker) → Settles tr (Tracker.on_delete k n tr)
unfolding Tracker.on_delete limit memory
on_delete-Settles k n (by_lru p) = record {
  limits = unfold Lru.on_delete in ground arith;
  bytes = unfold Lru.on_delete in ground (arith, release-le p.current_memory n);
}
on_delete-Settles k n (by_lfu p) = record {
  limits = unfold Lfu.on_delete in ground arith;
  bytes = unfold Lfu.on_delete in ground (arith, release-le p.current_memory n);
}

limit-on_insert :
    (k : Bytes) (n t c : ℕ) (tr : Tracker) → limit (Tracker.on_insert k n t c tr) ≡ limit tr
unfolding Tracker.on_insert limit
limit-on_insert k n t c (by_lru p) = unfold Lru.on_insert in refl
limit-on_insert k n t c (by_lfu p) = unfold Lfu.on_insert in refl

limit-insert_found :
    (k : Bytes) (v : ValueEntry) (found : Option KeyValuePair) (t : HashTable)
    → limit (insert_found k v found t).tracker ≡ limit t.tracker
unfolding insert_found
limit-insert_found k v none t = limit-on_insert k _ _ _ t.tracker
limit-insert_found k v (some kv) t =
    limit-on_insert k _ _ _ _ ∙ (on_delete-Settles k (length kv.value.value) t.tracker).limits

remove-Settles : (k : Bytes) (t : HashTable) → Settles t.tracker (HashTable.remove k t).1.tracker
unfolding HashTable.remove log remove_found
remove-Settles k t = elim (Option-cases (find k (chain_of k t.buckets))) [
  | inl e ↦ rw e (record { limits = refl; bytes = omega arith })
  | inr (kv, e) ↦ rw e (on_delete-Settles k (length kv.value.value) t.tracker)
]

get-Settles :
    (k : Bytes) (n m : ℕ) (t : HashTable)
    → IsAccounted t
    → Settles t.tracker (HashTable.get k n m t).1.tracker
unfolding HashTable.get get_found
get-Settles k n m t a = elim (Option-cases (find k (chain_of k t.buckets))) [
  | inl e ↦ rw e (record { limits = refl; bytes = omega arith })
  | inr (kv, e) ↦ elim (Bool-cases (is_expired n kv.value)) [
    | inl dead ↦ rw (e, dead) (record { limits = refl; bytes = omega arith })
    | inr live ↦
        let v = touch m kv.value in
        let after = on_access-After k v.last_access_ns v.access_count a.sound in
        rw (e, live)
          (record { limits = after.same_limit; bytes = omega (arith, after.memory_used) })
  ]
]

-- The table is valid, its policy agrees with it, and `n` more bytes fit into its limit.
pub record Roomy (n : ℕ) (t : HashTable) : Type 0 where
  pub valid : IsValid t
  pub accounted : IsAccounted t
  pub room : memory t.tracker + n ≤ limit t.tracker
  pub countable : limit t.tracker < 2 ^ 64

pub fits : {n : ℕ} {t : HashTable} → Roomy n t → Tracker.should_evict t.tracker ≡ false
fits {t = t} r = should_evict_lem t.tracker ∙ ground (arith, r.room)

settled :
    {n : ℕ} {t t' : HashTable}
    → Roomy n t
    → IsValid t'
    → IsAccounted t'
    → Settles t.tracker t'.tracker
    → Roomy n t'
settled r valid accounted s = record {
  valid = valid;
  accounted = accounted;
  room = omega (arith, r.room, s.limits, s.bytes);
  countable = omega (arith, r.countable, s.limits);
}

pub remove-Roomy :
    (k : Bytes) {n : ℕ} {t : HashTable} → Roomy n t → Roomy n (HashTable.remove k t).1
remove-Roomy k {t = t} r =
    settled r (remove-Updates k r.valid).valid (remove-IsAccounted k r.valid r.accounted)
      (remove-Settles k t)

place-Roomy :
    (k : Bytes) (v : ValueEntry) {n : ℕ} {t : HashTable}
    → Roomy (length v.value + n) t
    → IsValid (place k v t)
    → Roomy n (place k v t)
place-Roomy k v {n} {t} r valid =
    let fewer = table_bytes-place-le k v r.valid in
    let a =
      place-IsAccounted k v r.valid r.accounted
        (omega (arith, r.accounted.agrees.counted, r.room, r.countable)) in
    let same : limit (place k v t).tracker ≡ limit t.tracker =
      unfold place in limit-insert_found k v (find k (chain_of k t.buckets)) t in
    record {
      valid = valid;
      accounted = a;
      room = omega (arith, fewer, a.agrees.counted, r.accounted.agrees.counted, r.room, same);
      countable = omega (arith, r.countable, same);
    }

-- An insertion uses up the size of its value at most, and evicts nothing.
pub insert-Roomy :
    (k : Bytes) (v : ValueEntry) {n : ℕ} {t : HashTable}
    → Roomy (length v.value + n) t
    → Roomy n (HashTable.insert k v t)
insert-Roomy k v {n} {t} r =
    let t₁ = log (set_record k v) t in
    let valid = log-IsValid (set_record k v) r.valid in
    let tracker : (resize_if_needed t₁).tracker ≡ t.tracker =
      tracker-resize_if_needed t₁ ∙ (unfold log in refl) in
    let resized : Roomy (length v.value + n) (resize_if_needed t₁) = record {
      valid = (resize_if_needed-SameMap valid).valid;
      accounted = resize_if_needed-IsAccounted valid (log-IsAccounted (set_record k v) r.accounted);
      room = rw tracker r.room;
      countable = rw tracker r.countable;
    } in
    let e : HashTable.insert k v t ≡ place k v (resize_if_needed t₁) =
      unfold HashTable.insert in
      ap (λ x. place k v (resize_if_needed x)) (evict_none t₁ (unfold log in fits r)) in
    subst (Roomy n) (sym e)
      (place-Roomy k v resized (subst IsValid e (insert-Updates k v r.valid (fits r)).valid))

pub get-Roomy :
    (k : Bytes) (now_check now_access : ℕ) {n : ℕ} {t : HashTable}
    → Roomy n t
    → Roomy n (HashTable.get k now_check now_access t).1
get-Roomy k i j {t = t} r =
    settled r (get-Gets k i j r.valid).valid (get-IsAccounted k i j r.valid r.accounted)
      (get-Settles k i j t r.accounted)
