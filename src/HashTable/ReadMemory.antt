-- ===== src/HashTable/ReadMemory.antt =====
-- Resizing and looking up keep the policy in agreement with the table (`resize_if_needed` and `get` of
-- engine/src/hash_table.cpp).
use distributed_in_memory_kv.Prelude.{
  ℕ, ◌*◌, ◌<◌, ◌≡◌, sym, ap, ◌∙◌, inl, inr, false, some, Bytes, arith, length, ltb, Bool-cases,
  Option-cases,
}
use distributed_in_memory_kv.Policy.Accounts.{on_access-After}
use distributed_in_memory_kv.HashTable.Chain
use distributed_in_memory_kv.HashTable.Chain.{KeyValuePair, ValueEntry, find}
use distributed_in_memory_kv.HashTable.{
  HashTable, chain_of, rehash, resize_if_needed, is_expired, touch, get_found, get,
}
use distributed_in_memory_kv.HashTable.Valid.{IsValid, found?, rehash-SameMap}
use distributed_in_memory_kv.HashTable.Methods.{get-found}
use distributed_in_memory_kv.HashTable.StoredBytes.{
  stored_bytes-replace, table_bytes-write, table_bytes-rehash,
}
use distributed_in_memory_kv.HashTable.Memory.{IsAccounted}

pub tracker-resize_if_needed : (t : HashTable) → (resize_if_needed t).tracker ≡ t.tracker
unfolding resize_if_needed
tracker-resize_if_needed t = elim (Bool-cases (ltb (3 * length t.buckets) (4 * t.num_entries))) [
  | inl full ↦ rw full
  | inr roomy ↦ rw roomy
]

pub resize_if_needed-IsAccounted :
    {t : HashTable} → IsValid t → IsAccounted t → IsAccounted (resize_if_needed t)
unfolding resize_if_needed
resize_if_needed-IsAccounted {t} v a =
    elim (Bool-cases (ltb (3 * length t.buckets) (4 * t.num_entries))) [
      | inl full ↦
          let n = length t.buckets * 2 in
          let pos : 0 < n = omega (arith, v.placed.wide) in
          let same = rehash-SameMap n pos v in
          rw full (record {
            sound = unfold rehash in a.sound;
            agrees = record {
              tracked = λ q. unfold rehash in (a.agrees.tracked q ∙ ap found? (sym (same.reads q)));
              counted = unfold rehash in (a.agrees.counted ∙ sym (table_bytes-rehash n t pos));
            };
          })
      | inr roomy ↦ rw roomy a
    ]

get_live :
    (k : Bytes) (n m : ℕ) (kv : KeyValuePair) {t : HashTable}
    → IsValid t
    → IsAccounted t
    → find k (chain_of k t.buckets) ≡ some kv
    → is_expired n kv.value ≡ false
    → IsAccounted (get k n m t).1
unfolding get get_found
get_live k n m kv {t} valid a e live =
    let c = chain_of k t.buckets in
    let f : KeyValuePair → KeyValuePair = λ kv. record kv { value = touch m kv.value } in
    let v = touch m kv.value in
    let after = on_access-After k v.last_access_ns v.access_count a.sound in
    let same = λ (q : Bytes). get-found k q n m valid in
    rw (e, get_found, live)
      (record {
        sound = after.sound;
        agrees = record {
          tracked = λ q.
              after.tracked_keys q
              ∙ (a.agrees.tracked q ∙ sym (rw (e, get_found, live) at (same q)));
          counted = omega (
            arith,
            after.memory_used,
            a.agrees.counted,
            table_bytes-write k (Chain.replace k f c) t.buckets valid.placed.wide,
            stored_bytes-replace k f c kv e,
          );
        };
      })

-- After `get` on a valid table whose policy agrees with it, the policy still tracks exactly the keys
-- of the table and counts exactly the bytes of its values.
pub get-IsAccounted :
    (k : Bytes) (now_check now_access : ℕ) {t : HashTable}
    → IsValid t
    → IsAccounted t
    → IsAccounted (get k now_check now_access t).1
get-IsAccounted k n m {t} valid a = elim (Option-cases (find k (chain_of k t.buckets))) [
  | inl absent ↦ unfold get get_found in rw absent a
  | inr (kv, e) ↦ elim (Bool-cases (is_expired n kv.value)) [
    | inl dead ↦ unfold get get_found in rw (e, get_found, dead) a
    | inr live ↦ get_live k n m kv valid a e live
  ]
]
