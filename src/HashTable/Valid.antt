-- ===== src/HashTable/Valid.antt =====
-- The invariant of the table, and what removing, placing and rehashing do to the map that can be
-- read from it (`remove`, the second half of `insert`, `rehash` of engine/src/hash_table.cpp).
use distributed_in_memory_kv.Prelude.{
  ℕ, ◌*◌, ◌<◌, ◌≡◌, refl, sym, ap, ◌∙◌, inl, inr, Bool, true, false, Option, none, some, List, [],
  ◌∷◌, ◌++◌, Bytes, arith, flatten, length, length-append, str_eq, str_eq_iff, ltb, if◌then◌else◌,
  Bool-cases, Option-cases,
}
use mathlib.Core.Option
use distributed_in_memory_kv.Hash.{hash}
use distributed_in_memory_kv.Wal.{WalRecord}
use distributed_in_memory_kv.Policy.Tracker.{Tracker}
use distributed_in_memory_kv.HashTable.Chain
use distributed_in_memory_kv.HashTable.Chain.{
  KeyValuePair, ValueEntry, find, find-key, length-replace, length-erase,
}
use distributed_in_memory_kv.HashTable.{
  HashTable, chain_of, log, remove_found, remove, delete_record, rehash, resize_if_needed,
  insert_found, place,
}
use distributed_in_memory_kv.HashTable.Buckets.{
  IsPlaced, view, Wrote, replace-Wrote, erase-Wrote, append-Wrote, length_write,
}
use distributed_in_memory_kv.HashTable.Rehash.{rehash-Moved}

pub record IsValid (t : HashTable) : Type 0 where
  pub placed : IsPlaced t.buckets
  pub counted : t.num_entries ≡ length (flatten t.buckets)

-- The abstract map: the entry that the table holds for a key.
unfoldable pub lookup : Bytes → HashTable → Option ValueEntry
lookup q t = Option.map (λ kv. kv.value) (view q t.buckets)

-- `t'` is valid and holds `found` for `k` and what `t` holds for all other keys.
pub record Updates (k : Bytes) (found : Option ValueEntry) (t t' : HashTable) : Type 0 where
  pub valid : IsValid t'
  pub reads : (q : Bytes) → lookup q t' ≡ (if str_eq k q then found else lookup q t)

pub Updates-of :
    {k : Bytes} {found : Option KeyValuePair} {t t' : HashTable}
    → Wrote k found t.buckets t'.buckets
    → t'.num_entries ≡ length (flatten t'.buckets)
    → Updates k (Option.map (λ kv. kv.value) found) t t'
unfolding lookup
Updates-of {k} {found} w counted = record {
  valid = record { placed = w.placed; counted = counted };
  reads = λ q. rw (w.reads q) (ground arith);
}

some-length :
    (k : Bytes) (c : List KeyValuePair) (kv : KeyValuePair) → find k c ≡ some kv → 0 < length c
unfolding find
some-length k [] kv e = cc
some-length k (x ∷ c) kv e = omega arith

pub log-IsValid : (r : WalRecord) {t : HashTable} → IsValid t → IsValid (log r t)
unfolding log
log-IsValid r v = record { placed = v.placed; counted = v.counted }

pub retrack-IsValid :
    (tracker : Tracker) {t : HashTable} → IsValid t → IsValid (record t { tracker = tracker })
retrack-IsValid tracker v = record { placed = v.placed; counted = v.counted }

pub lookup-log : (r : WalRecord) (q : Bytes) (t : HashTable) → lookup q (log r t) ≡ lookup q t
unfolding log lookup
lookup-log r q t = refl

abbrev pub found? : Option ValueEntry → Bool
found? none = false
found? (some v) = true

pub lookup_of_find :
    (k : Bytes) (found : Option KeyValuePair) (t : HashTable)
    → find k (chain_of k t.buckets) ≡ found
    → lookup k t ≡ Option.map (λ kv. kv.value) found
unfolding lookup view
lookup_of_find k found t e = rw e

pub remove_found-Updates :
    (k : Bytes) (found : Option KeyValuePair) {t : HashTable}
    → IsValid t
    → find k (chain_of k t.buckets) ≡ found
    → Updates k none t (remove_found k found t).1
unfolding remove_found
remove_found-Updates k none {t} v e = record {
  valid = v;
  reads = λ q. ground (arith, lookup_of_find k none t e, str_eq_iff k q);
}
remove_found-Updates k (some kv) {t} v e =
    let c = chain_of k t.buckets in
    Updates-of (erase-Wrote k v.placed) (
      omega (
        arith,
        v.counted,
        length_write k (Chain.erase k c) t.buckets v.placed.wide,
        length-erase k c kv e,
      ))

-- `remove` on a valid table keeps it valid, takes the key out of the map and leaves every other key
-- as it was.
pub remove-Updates : (k : Bytes) {t : HashTable} → IsValid t → Updates k none t (remove k t).1
unfolding remove
remove-Updates k {t} v =
    let t' = log (delete_record k) t in
    let u = remove_found-Updates k _ (log-IsValid (delete_record k) v) refl in
    record { valid = u.valid; reads = λ q. u.reads q ∙ rw (lookup-log (delete_record k) q t) }

-- `remove` returns whether the key was there.
pub remove-found : (k : Bytes) (t : HashTable) → (remove k t).0 ≡ found? (lookup k t)
unfolding remove remove_found log lookup view
remove-found k t = ground arith

keyed_pair :
    (k : Bytes) (v : ValueEntry) (kv : KeyValuePair)
    → kv.key ≡ k
    → hash k ≡ hash (record kv { value = v; hash = hash k }).key
keyed_pair k v kv e = ap hash (sym e)

-- `insert` after its eviction and its resizing writes the entry to the map.
pub place-Updates :
    (k : Bytes) (v : ValueEntry) {t : HashTable} → IsValid t → Updates k (some v) t (place k v t)
unfolding place insert_found view
place-Updates k v {t} valid =
    let c = chain_of k t.buckets in
    let p = valid.placed in
    elim (Option-cases (find k c)) [
      | inl e ↦
          let kv : KeyValuePair = record { key = k; value = v; hash = hash k } in
          rw e (
            Updates-of (append-Wrote kv p refl e) (
              omega (
                arith,
                valid.counted,
                length_write k (c ++ kv ∷ []) t.buckets p.wide,
                length-append c (kv ∷ []),
              )))
      | inr (old, e) ↦
          let f : KeyValuePair → KeyValuePair = λ kv. record kv { value = v; hash = hash k } in
          rw e (
            Updates-of (replace-Wrote k f p (λ kv. refl) (λ kv same _. keyed_pair k v kv same) e) (
              omega (
                arith,
                valid.counted,
                length_write k (Chain.replace k f c) t.buckets p.wide,
                length-replace k f c,
              )))
    ]

-- The table is valid and reads as before.
pub record SameMap (t t' : HashTable) : Type 0 where
  pub valid : IsValid t'
  pub reads : (q : Bytes) → lookup q t' ≡ lookup q t

pub rehash-SameMap : (n : ℕ) {t : HashTable} → 0 < n → IsValid t → SameMap t (rehash n t)
unfolding lookup rehash
rehash-SameMap n {t} pos v =
    let (placed, width, entries, reads) = rehash-Moved n t pos v.placed in
    record {
      valid = record { placed = placed; counted = v.counted ∙ sym entries };
      reads = λ q. rw (reads q);
    }

pub resize_if_needed-SameMap : {t : HashTable} → IsValid t → SameMap t (resize_if_needed t)
unfolding resize_if_needed
resize_if_needed-SameMap {t} v =
    elim (Bool-cases (ltb (3 * length t.buckets) (4 * t.num_entries))) [
      | inl full ↦ rw full (rehash-SameMap _ (omega (arith, v.placed.wide)) v)
      | inr roomy ↦ rw roomy (record { valid = v; reads = λ q. refl })
    ]
