-- ===== src/Tests/Snapshots.antt =====
-- A snapshot of a table with one entry (engine/src/snapshot.cpp).
use distributed_in_memory_kv.Prelude.{
  refl, [], ◌∷◌, ◌++◌, ◌^◌, ◌<◌, ◌≤◌, false, length, take, le_bytes, Bytes, ◌≡◌, true, none, arith,
  flatten, codes,
}
use distributed_in_memory_kv.Hash.{hash}
use distributed_in_memory_kv.Policy.Lru
use distributed_in_memory_kv.Policy.Tracker
use distributed_in_memory_kv.Policy.Tracker.{EvictionPolicy}
use distributed_in_memory_kv.HashTable.Chain.{KeyValuePair, find, new_entry}
use distributed_in_memory_kv.HashTable.{HashTable, new, insert, home}
use distributed_in_memory_kv.HashTable.Methods.{insert-Inserts}
use distributed_in_memory_kv.HashTable.Valid.{IsValid, lookup}
use distributed_in_memory_kv.HashTable.StoredBytes.{table_bytes, stored_bytes}
use distributed_in_memory_kv.Snapshot.Altered.{load_snapshot-altered}
use distributed_in_memory_kv.Snapshot.Truncated.{whole_entries, load_snapshot-cut}
use distributed_in_memory_kv.Snapshot.Restored.{load_snapshot-restores}
use distributed_in_memory_kv.HashTable.Fresh.{new-IsValid}
use distributed_in_memory_kv.Snapshot.{write, emit, write_entries, write_entry, load_snapshot}
use distributed_in_memory_kv.Snapshot.RoundTrip.{
  entry_bytes, entries_bytes, AllFitEntries, insert_all, load_snapshot-write,
}

abbrev target : HashTable
target = new 1 10 EvictionPolicy.lru none

abbrev saved : HashTable
saved = insert (codes "a") (new_entry (codes "value") 7) target

saved-IsValid : IsValid saved
saved-IsValid =
    (insert-Inserts (codes "a") (new_entry (codes "value") 7)
      (new-IsValid 1 10 EvictionPolicy.lru none (omega arith)).0).valid

saved_small : saved.num_entries < 2 ^ 64
unfolding new insert Tracker.new Lru.new new_entry Tracker.on_insert find Tracker.should_evict
    Lru.should_evict home Lru.on_insert hash
saved_small = omega arith

saved-fits : AllFitEntries (flatten saved.buckets)
unfolding new insert Tracker.new Lru.new new_entry Tracker.on_insert find Tracker.should_evict
    Lru.should_evict home Lru.on_insert flatten hash
saved-fits = (
  record {
    key = omega arith;
    value = omega arith;
    ttl = omega arith;
    count = omega arith;
    last = omega arith;
  },
  tt,
)

load_snapshot-write_example :
    load_snapshot (write saved) target ≡ (true, insert_all (flatten saved.buckets) target)
load_snapshot-write_example = load_snapshot-write saved target saved-IsValid saved_small saved-fits

saved_long : 30 < length (write saved)
unfolding write emit write_entries write_entry new insert Tracker.new Lru.new new_entry
    Tracker.on_insert find Tracker.should_evict Lru.should_evict home Lru.on_insert flatten hash
    le_bytes
saved_long = omega arith

saved_bytes : table_bytes saved.buckets ≤ 5
unfolding table_bytes stored_bytes new insert Tracker.new Lru.new new_entry Tracker.on_insert find
    Tracker.should_evict Lru.should_evict home Lru.on_insert flatten hash
saved_bytes = omega arith

-- The header takes 24 bytes, the entry 38.
load_snapshot-cut_example :
    load_snapshot (take 30 (write saved)) target
    ≡ (false, insert_all (whole_entries 6 (flatten saved.buckets)) target)
load_snapshot-cut_example =
    load_snapshot-cut saved target 30 saved-IsValid saved_small saved-fits (omega arith) saved_long

load_snapshot-restores_example :
    let r = load_snapshot (write saved) (new 8 5 EvictionPolicy.lfu none) in
    (r.0 ≡ true) × IsValid r.1 × ((q : Bytes) → lookup q r.1 ≡ lookup q saved)
load_snapshot-restores_example =
    load_snapshot-restores saved 8 5 EvictionPolicy.lfu saved-IsValid saved_small saved-fits
      (omega arith) (omega arith) saved_bytes

-- The value reads "valve" in the altered file.
abbrev altered_entry : KeyValuePair
altered_entry = record { key = codes "a"; value = new_entry (codes "valve") 7; hash = 0 }

abbrev front : Bytes
front = le_bytes 4 1 ++ (codes "a" ++ (le_bytes 4 5 ++ codes "val"))

abbrev back : Bytes
back = codes "e" ++ (le_bytes 8 7 ++ (le_bytes 8 0 ++ le_bytes 8 0))

saved_entry : entries_bytes (flatten saved.buckets) ≡ front ++ 117 ∷ back
unfolding entries_bytes entry_bytes new insert Tracker.new Lru.new new_entry Tracker.on_insert find
    Tracker.should_evict Lru.should_evict home Lru.on_insert flatten hash le_bytes
saved_entry = refl

altered_bytes : entries_bytes (altered_entry ∷ []) ≡ front ++ 118 ∷ back
unfolding entries_bytes entry_bytes new_entry le_bytes
altered_bytes = refl

altered-fits : AllFitEntries (altered_entry ∷ [])
unfolding new_entry
altered-fits = (
  record {
    key = omega arith;
    value = omega arith;
    ttl = omega arith;
    count = omega arith;
    last = omega arith;
  },
  tt,
)

one_entry : length (altered_entry ∷ []) ≡ saved.num_entries
unfolding new insert Tracker.new Lru.new new_entry Tracker.on_insert find Tracker.should_evict
    Lru.should_evict home Lru.on_insert hash
one_entry = refl

load_snapshot-altered_example :
    load_snapshot (take 24 (write saved) ++ (front ++ 118 ∷ back)) target
    ≡ (false, insert_all (altered_entry ∷ []) target)
load_snapshot-altered_example =
    load_snapshot-altered saved target (altered_entry ∷ []) front back 117 118 saved-IsValid
      saved_small saved-fits altered-fits one_entry saved_entry altered_bytes (omega arith)
      (omega arith) (λ e. omega arith)
