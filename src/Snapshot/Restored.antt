-- ===== src/Snapshot/Restored.antt =====
-- The table that a snapshot restores (engine/src/snapshot.cpp, engine/src/hash_table.cpp).
use distributed_in_memory_kv.Prelude.{
  ℕ, ◌<◌, ◌≤◌, ◌^◌, ◌≡◌, refl, sym, ap, ◌∙◌, inl, inr, true, Option, none, some, List, [], ◌∷◌,
  Bytes, arith, flatten, str_eq, if◌then◌else◌, Bool-cases,
}
use mathlib.Core.Option
use mathlib.Core.Path.{subst}
use distributed_in_memory_kv.Policy.Tracker.{EvictionPolicy}
use distributed_in_memory_kv.HashTable
use distributed_in_memory_kv.HashTable.{HashTable}
use distributed_in_memory_kv.HashTable.Chain.{KeyValuePair, ValueEntry, find, find_of_count, count}
use distributed_in_memory_kv.HashTable.Rehash.{flatten-view}
use distributed_in_memory_kv.HashTable.Valid.{IsValid, lookup}
use distributed_in_memory_kv.HashTable.StoredBytes.{stored_bytes, table_bytes, table_bytes-flatten}
use distributed_in_memory_kv.HashTable.Methods.{insert-Updates}
use distributed_in_memory_kv.HashTable.Fresh.{new-IsValid}
use distributed_in_memory_kv.HashTable.Roomy.{Roomy, fits, insert-Roomy}
use distributed_in_memory_kv.HashTable.Roomy.Runs.{new-Roomy}
use distributed_in_memory_kv.Snapshot.{write, load_snapshot}
use distributed_in_memory_kv.Snapshot.RoundTrip.{AllFitEntries, insert_all, load_snapshot-write}

-- The entry that the pair found has, or the one that was there.
abbrev pick : Option KeyValuePair → Option ValueEntry → Option ValueEntry
pick none old = old
pick (some kv) old = some kv.value

pick-cons :
    (kv : KeyValuePair) (kvs : List KeyValuePair) (q : Bytes) (old : Option ValueEntry)
    → count q (kv ∷ kvs) ≤ 1
    → pick (find q kvs) (if str_eq kv.key q then some kv.value else old)
      ≡ pick (find q (kv ∷ kvs)) old
unfolding find count
pick-cons kv kvs q old once = elim (Bool-cases (str_eq kv.key q)) [
  | inl same ↦
      let gone : find q kvs ≡ none = find_of_count q kvs (ground arith) in rw (same, gone) refl
  | inr other ↦ rw other refl
]

count-tail :
    (kv : KeyValuePair) (kvs : List KeyValuePair) (q : Bytes)
    → count q (kv ∷ kvs) ≤ 1
    → count q kvs ≤ 1
unfolding count
count-tail kv kvs q once = ground arith

-- The insertion of pairs with different keys that fit into the limit.
insert_all-reads :
    (kvs : List KeyValuePair) (t : HashTable)
    → Roomy (stored_bytes kvs) t
    → ((q : Bytes) → count q kvs ≤ 1)
    → IsValid (insert_all kvs t)
      × ((q : Bytes) → lookup q (insert_all kvs t) ≡ pick (find q kvs) (lookup q t))
unfolding insert_all stored_bytes find
insert_all-reads [] t r once = (r.valid, λ q. refl)
insert_all-reads (kv ∷ kvs) t r once =
    let u = insert-Updates kv.key kv.value r.valid (fits r) in
    let (valid, reads) =
      insert_all-reads kvs (HashTable.insert kv.key kv.value t) (insert-Roomy kv.key kv.value r)
        (λ q. count-tail kv kvs q (once q)) in
    (
      valid,
      λ q.
          reads q ∙ (ap (pick (find q kvs)) (u.reads q) ∙ pick-cons kv kvs q (lookup q t) (once q)),
    )

pick-none : (found : Option KeyValuePair) → pick found none ≡ Option.map (λ kv. kv.value) found
pick-none none = refl
pick-none (some kv) = refl

-- The snapshot of a valid table with fewer than 2 ^ 64 entries, each of which fits the format, is
-- loaded with success into a new table of any policy, with an initial capacity of at most 2 ^ 63
-- and a memory limit below 2 ^ 64 that the values fit into; that table is then valid, and holds
-- for every key the entry that the first one held, metadata included.
pub load_snapshot-restores :
    (t : HashTable) (initial memory_limit : ℕ) (policy : EvictionPolicy)
    → IsValid t
    → t.num_entries < 2 ^ 64
    → AllFitEntries (flatten t.buckets)
    → initial ≤ 2 ^ 63
    → memory_limit < 2 ^ 64
    → table_bytes t.buckets ≤ memory_limit
    → let r = load_snapshot (write t) (HashTable.new initial memory_limit policy none) in
      (r.0 ≡ true) × IsValid r.1 × ((q : Bytes) → lookup q r.1 ≡ lookup q t)
load_snapshot-restores t initial memory_limit policy v small fits narrow countable room =
    let u = HashTable.new initial memory_limit policy none in
    let kvs = flatten t.buckets in
    let loaded = load_snapshot-write t u v small fits in
    let roomy =
      new-Roomy initial memory_limit (stored_bytes kvs) policy narrow countable
        (rw (sym (table_bytes-flatten t.buckets)) room) in
    let (valid, reads) = insert_all-reads kvs u roomy (λ q. (flatten-view q v.placed).1) in
    let empty = (new-IsValid initial memory_limit policy none narrow).3 in
    (
      ap (λ x. x.0) loaded,
      subst IsValid (sym (ap (λ x. x.1) loaded)) valid,
      λ q.
          ap (λ x. lookup q x.1) loaded
          ∙ (reads q ∙ (ap (pick (find q kvs)) (empty q) ∙ (pick-none (find q kvs) ∙ there q))),
    )
  where
    there :
        (q : Bytes)
        → Option.map (λ (kv : KeyValuePair). kv.value) (find q (flatten t.buckets)) ≡ lookup q t
    there q =
        unfold lookup in
        ap (λ o. Option.map (λ (kv : KeyValuePair). kv.value) o) (flatten-view q v.placed).0
