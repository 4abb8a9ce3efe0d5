-- ===== src/Tests/Tables.antt =====
-- A small hash table, of engine/src/hash_table.cpp.
use distributed_in_memory_kv.Prelude.{
  get_or, ℕ, ◌+◌, ◌^◌, ◌≤◌, ◌<◌, ◌≡◌, ◌≢◌, refl, true, false, none, some, [], ◌∷◌, Bytes, arith,
  length, flatten, codes,
}
use distributed_in_memory_kv.Policy.Lru
use distributed_in_memory_kv.Policy.Tracker
use distributed_in_memory_kv.Policy.Tracker.{EvictionPolicy}
use distributed_in_memory_kv.Policy.Accounts.{limit}
use distributed_in_memory_kv.HashTable.Chain.{ValueEntry, new_entry, find}
use distributed_in_memory_kv.Hash.{hash}
use distributed_in_memory_kv.HashTable.{
  HashTable, home, new, insert, remove, get, rehash, evict_if_needed,
}
use distributed_in_memory_kv.HashTable.Buckets.{IsPlaced, view}
use distributed_in_memory_kv.HashTable.Valid.{IsValid, lookup, Updates, remove-Updates}
use distributed_in_memory_kv.HashTable.Methods.{
  Inserts, insert-Inserts, insert-Updates, Gets, get-Gets,
}
use distributed_in_memory_kv.HashTable.Rehash.{rehash-Moved}
use distributed_in_memory_kv.HashTable.Memory.{IsAccounted, remove-IsAccounted}
use distributed_in_memory_kv.HashTable.ReadMemory.{get-IsAccounted}
use distributed_in_memory_kv.HashTable.StoredBytes.{table_bytes}
use distributed_in_memory_kv.HashTable.Pressure.{Fits, evict_if_needed-Fits, insert-bounded}
use distributed_in_memory_kv.HashTable.Fresh.{new-IsValid, new-IsAccounted}
use distributed_in_memory_kv.HashTable.Stats.{get_stats, occupied, get_stats-counts}
use distributed_in_memory_kv.HashTable.Upkeep.{scan_expired_keys}
use distributed_in_memory_kv.HashTable.Expired.{Expires, scan_expired_keys-Expires}

-- A limit of ten bytes, with a log.
abbrev empty_table : HashTable
empty_table = new 4 10 EvictionPolicy.lru (some [])

abbrev entry_a : ValueEntry
entry_a = new_entry (codes "eight by") 0

abbrev entry_b : ValueEntry
entry_b = new_entry (codes "seven b") 50

-- Fifteen bytes: more than the limit.
abbrev one_key : HashTable
one_key = insert (codes "a") entry_a empty_table

abbrev two_keys : HashTable
two_keys = insert (codes "b") entry_b one_key

empty_IsValid : IsValid empty_table
empty_IsValid = (new-IsValid 4 10 EvictionPolicy.lru (some []) (omega arith)).0

empty_IsAccounted : IsAccounted empty_table
empty_IsAccounted = new-IsAccounted 4 10 EvictionPolicy.lru (some []) (omega arith)

empty_clean : lookup [] empty_table ≡ none
empty_clean = (new-IsValid 4 10 EvictionPolicy.lru (some []) (omega arith)).3 []

not_empty_a : codes "a" ≢ []
not_empty_a = λ e. cc

not_empty_b : codes "b" ≢ []
not_empty_b = λ e. cc

empty_room : limit empty_table.tracker + length entry_a.value < 2 ^ 64
unfolding new Tracker.new Lru.new limit new_entry
empty_room = omega arith

one_key_bounded :
    IsValid one_key
    × IsAccounted one_key
    × (lookup [] one_key ≡ none)
    × (table_bytes one_key.buckets ≤ limit empty_table.tracker + length entry_a.value)
one_key_bounded =
    insert-bounded (codes "a") entry_a empty_IsValid empty_IsAccounted empty_clean not_empty_a
      empty_room

one_key_room : limit one_key.tracker + length entry_b.value < 2 ^ 64
unfolding limit new insert Tracker.new Lru.new new_entry Tracker.on_insert find Tracker.should_evict
    Lru.should_evict home hash Lru.on_insert
one_key_room = omega arith

two_keys_bounded :
    IsValid two_keys
    × IsAccounted two_keys
    × (lookup [] two_keys ≡ none)
    × (table_bytes two_keys.buckets ≤ limit one_key.tracker + length entry_b.value)
two_keys_bounded =
    insert-bounded (codes "b") entry_b one_key_bounded.0 one_key_bounded.1 one_key_bounded.2
      not_empty_b one_key_room

-- The two entries have fifteen bytes: the policy is above its limit.
over_limit : Tracker.should_evict two_keys.tracker ≡ true
unfolding limit new insert Tracker.new Lru.new new_entry Tracker.on_insert find Tracker.should_evict
    Lru.should_evict home hash Lru.on_insert
over_limit = refl

one_key_fits : Tracker.should_evict one_key.tracker ≡ false
unfolding limit new insert Tracker.new Lru.new new_entry Tracker.on_insert find Tracker.should_evict
    Lru.should_evict home hash Lru.on_insert
one_key_fits = refl

insert-Inserts_example : Inserts (codes "b") entry_b two_keys (insert (codes "b") entry_b two_keys)
insert-Inserts_example = insert-Inserts (codes "b") entry_b two_keys_bounded.0

insert-Updates_example :
    Updates (codes "b") (some entry_b) one_key (insert (codes "b") entry_b one_key)
insert-Updates_example = insert-Updates (codes "b") entry_b one_key_bounded.0 one_key_fits

insert-bounded_example :
    IsValid two_keys
    × IsAccounted two_keys
    × (lookup [] two_keys ≡ none)
    × (table_bytes two_keys.buckets ≤ limit one_key.tracker + length entry_b.value)
insert-bounded_example =
    insert-bounded (codes "b") entry_b one_key_bounded.0 one_key_bounded.1 one_key_bounded.2
      not_empty_b one_key_room

evict_if_needed-Fits_example : Fits two_keys (evict_if_needed two_keys)
evict_if_needed-Fits_example =
    evict_if_needed-Fits two_keys_bounded.0 two_keys_bounded.1 two_keys_bounded.2

get-Gets_example : Gets (codes "b") 49 51 two_keys (get (codes "b") 49 51 two_keys)
get-Gets_example = get-Gets (codes "b") 49 51 two_keys_bounded.0

remove-Updates_example : Updates (codes "a") none two_keys (remove (codes "a") two_keys).1
remove-Updates_example = remove-Updates (codes "a") two_keys_bounded.0

rehash-Moved_example :
    IsPlaced (rehash 8 two_keys).buckets
    × (length (rehash 8 two_keys).buckets ≡ 8)
    × (length (flatten (rehash 8 two_keys).buckets) ≡ length (flatten two_keys.buckets))
    × ((q : Bytes) → view q (rehash 8 two_keys).buckets ≡ view q two_keys.buckets)
rehash-Moved_example = rehash-Moved 8 two_keys (omega arith) two_keys_bounded.0.placed

get-IsAccounted_example : IsAccounted (get (codes "b") 49 51 two_keys).1
get-IsAccounted_example = get-IsAccounted (codes "b") 49 51 two_keys_bounded.0 two_keys_bounded.1

remove-IsAccounted_example : IsAccounted (remove (codes "a") two_keys).1
remove-IsAccounted_example = remove-IsAccounted (codes "a") two_keys_bounded.0 two_keys_bounded.1

-- At 60 the entry of "b" has expired; the third sample is outside the table.
scan_expired_keys-Expires_example :
    Expires
      (λ _ _. 60)
      (0 ∷ 1 ∷ 4 ∷ [])
      two_keys
      (scan_expired_keys (λ _ _. 60) (0 ∷ 1 ∷ 4 ∷ []) two_keys)
scan_expired_keys-Expires_example =
    scan_expired_keys-Expires (λ _ _. 60) (0 ∷ 1 ∷ 4 ∷ []) two_keys_bounded.0

get_stats-counts_example :
    ((get_stats two_keys).num_collisions + occupied two_keys.buckets
      ≡ (get_stats two_keys).num_entries)
    × ((i : ℕ) → length (get_or two_keys.buckets i []) ≤ (get_stats two_keys).max_chain_length)
get_stats-counts_example = get_stats-counts two_keys two_keys_bounded.0
