-- ===== src/HashTable/Roomy/Runs.antt =====
-- A run of calls on a table whose memory limit is never reached (engine/src/hash_table.cpp).
use distributed_in_memory_kv.Prelude.{
  ℕ, ◌+◌, ◌≤◌, ◌<◌, ◌^◌, ◌≡◌, refl, ◌∙◌, inl, inr, false, Option, none, some, List, [], ◌∷◌, Bytes,
  arith, length, Bool-cases, str_eq, if◌then◌else◌,
}
use distributed_in_memory_kv.Policy.Lru
use distributed_in_memory_kv.Policy.Lru.{release}
use distributed_in_memory_kv.Policy.Lfu
use distributed_in_memory_kv.Policy.Tracker
use distributed_in_memory_kv.Policy.Tracker.{Tracker, EvictionPolicy, by_lru, by_lfu}
use distributed_in_memory_kv.Policy.Accounts.{memory, limit, memory-new}
use distributed_in_memory_kv.HashTable
use distributed_in_memory_kv.HashTable.Chain.{ValueEntry}
use distributed_in_memory_kv.HashTable.{
  HashTable, enable_wal, chain_of, log, set_record, delete_record, remove_found, insert_found,
  place, resize_if_needed, get_found, is_expired, touch,
}
use distributed_in_memory_kv.HashTable.Valid.{IsValid, lookup, remove-Updates}
use distributed_in_memory_kv.HashTable.Methods.{insert-Updates, get-Gets}
use distributed_in_memory_kv.HashTable.Fresh.{new-IsValid, new-IsAccounted}
use distributed_in_memory_kv.HashTable.Recalls.{table_map, Gets-lookup}
use distributed_in_memory_kv.History.{Call, written, run, payload}
use distributed_in_memory_kv.HashTable.Roomy.{Roomy, fits, insert-Roomy, get-Roomy, remove-Roomy}

-- How many bytes the calls write.
unfoldable pub volume : List Call → ℕ
volume [] = 0
volume (Call.set k v ∷ calls) = length v.value + volume calls
volume (Call.get k n m ∷ calls) = volume calls
volume (Call.remove k ∷ calls) = volume calls

abbrev pub Holds : HashTable → (Bytes → Option (Bytes × ℕ)) → Type 0
Holds t spec = (q : Bytes) → payload (lookup q t) ≡ spec q

insert-Holds :
    (k : Bytes) (v : ValueEntry) {t : HashTable} {spec : Bytes → Option (Bytes × ℕ)}
    → IsValid t
    → Tracker.should_evict t.tracker ≡ false
    → Holds t spec
    → Holds
        (HashTable.insert k v t)
        (λ q. if str_eq k q then some (v.value, v.expiry_ns) else spec q)
insert-Holds k v {t} {spec} valid fits holds q = elim (Bool-cases (str_eq k q)) [
  | inl same ↦ rw ((insert-Updates k v valid fits).reads q, same) refl
  | inr other ↦ rw ((insert-Updates k v valid fits).reads q, other) (holds q)
]

remove-Holds :
    (k : Bytes) {t : HashTable} {spec : Bytes → Option (Bytes × ℕ)}
    → IsValid t
    → Holds t spec
    → Holds (HashTable.remove k t).1 (λ q. if str_eq k q then none else spec q)
remove-Holds k {t} {spec} valid holds q = elim (Bool-cases (str_eq k q)) [
  | inl same ↦ rw ((remove-Updates k valid).reads q, same) refl
  | inr other ↦ rw ((remove-Updates k valid).reads q, other) (holds q)
]

-- Where all that the calls write fits into the limit, the table holds for each key exactly what they
-- wrote last.
pub run-Holds :
    (calls : List Call) (t : HashTable) (spec : Bytes → Option (Bytes × ℕ))
    → Roomy (volume calls) t
    → Holds t spec
    → Holds (run table_map calls t) (λ q. written q calls (spec q))
unfolding run volume
run-Holds [] t spec r holds = holds
run-Holds (Call.set k v ∷ calls) t spec r holds =
    run-Holds calls (HashTable.insert k v t) _ (insert-Roomy k v r)
      (insert-Holds k v r.valid (fits r) holds)
run-Holds (Call.get k n m ∷ calls) t spec r holds =
    run-Holds calls (HashTable.get k n m t).1 spec (get-Roomy k n m r)
      (λ q. Gets-lookup k q n m t (HashTable.get k n m t) (get-Gets k n m r.valid) ∙ holds q)
run-Holds (Call.remove k ∷ calls) t spec r holds =
    run-Holds calls (HashTable.remove k t).1 _ (remove-Roomy k r) (remove-Holds k r.valid holds)

limit-new : (policy : EvictionPolicy) (n : ℕ) → limit (Tracker.new policy n) ≡ n
unfolding limit Tracker.new Lru.new Lfu.new
limit-new EvictionPolicy.lru n = refl
limit-new EvictionPolicy.lfu n = refl

pub new-Roomy :
    (initial memory_limit n : ℕ) (policy : EvictionPolicy)
    → initial ≤ 2 ^ 63
    → memory_limit < 2 ^ 64
    → n ≤ memory_limit
    → Roomy n (HashTable.new initial memory_limit policy none)
new-Roomy initial memory_limit n policy small countable enough =
    let t = HashTable.new initial memory_limit policy none in
    let used : memory t.tracker ≡ 0 = unfold HashTable.new in memory-new policy memory_limit in
    let allowed : limit t.tracker ≡ memory_limit =
      unfold HashTable.new in limit-new policy memory_limit in
    record {
      valid = (new-IsValid initial memory_limit policy none small).0;
      accounted = new-IsAccounted initial memory_limit policy none small;
      room = omega (arith, used, allowed, enough);
      countable = omega (arith, allowed, countable);
    }

pub less_room : {n m : ℕ} {t : HashTable} → m ≤ n → Roomy n t → Roomy m t
less_room h r = record {
  valid = r.valid;
  accounted = r.accounted;
  room = omega (arith, r.room);
  countable = r.countable;
}

-- A log is no matter.
pub enable_wal-Roomy :
    (batch_size : ℕ) {n : ℕ} {t : HashTable} → Roomy n t → Roomy n (enable_wal [] batch_size t)
unfolding enable_wal lookup
enable_wal-Roomy batch_size r = record {
  valid = record { placed = r.valid.placed; counted = r.valid.counted };
  accounted = record {
    sound = r.accounted.sound;
    agrees = record { tracked = r.accounted.agrees.tracked; counted = r.accounted.agrees.counted };
  };
  room = r.room;
  countable = r.countable;
}
