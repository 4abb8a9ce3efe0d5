-- ===== src/HashTable/Memory.antt =====
-- The memory accounting: the policy tracks exactly the keys of the table, and counts exactly the
-- bytes of the values that it stores.
use distributed_in_memory_kv.Prelude.{
  ◌+◌, ◌^◌, ◌≤◌, ◌<◌, ◌≡◌, ap, ◌∙◌, inl, inr, true, false, none, some, [], ◌∷◌, ◌++◌, Bytes, arith,
  length, str_eq_iff, Option-cases,
}
use distributed_in_memory_kv.Hash.{hash}
use distributed_in_memory_kv.Wal.{WalRecord}
use distributed_in_memory_kv.Policy.Lru.{release}
use distributed_in_memory_kv.Policy.Tracker
use distributed_in_memory_kv.Policy.Tracker.{Tracker}
use distributed_in_memory_kv.Policy.Accounts.{
  tracks, memory, IsSound, IsSoundBut, IsSound-IsSoundBut, on_insert-After, on_delete-After,
}
use distributed_in_memory_kv.HashTable.Chain
use distributed_in_memory_kv.HashTable.Chain.{KeyValuePair, ValueEntry, find}
use distributed_in_memory_kv.HashTable.{
  HashTable, chain_of, log, remove_found, remove, delete_record, insert_found, place,
}
use distributed_in_memory_kv.HashTable.Buckets.{view}
use distributed_in_memory_kv.HashTable.Valid.{
  IsValid, lookup, found?, lookup_of_find, log-IsValid, remove_found-Updates, place-Updates,
}
use distributed_in_memory_kv.HashTable.StoredBytes.{
  value_size, table_bytes, stored_bytes-add, stored_bytes-erase, stored_bytes-replace,
  table_bytes-write,
}

-- The policy and the table agree.
pub record Agrees (t : HashTable) : Type 0 where
  pub tracked : (q : Bytes) → tracks q t.tracker ≡ found? (lookup q t)
  pub counted : memory t.tracker ≡ table_bytes t.buckets

pub record IsAccounted (t : HashTable) : Type 0 where
  pub sound : IsSound t.tracker
  pub agrees : Agrees t

pub log-IsAccounted : (r : WalRecord) {t : HashTable} → IsAccounted t → IsAccounted (log r t)
unfolding log lookup
log-IsAccounted r a = record {
  sound = a.sound;
  agrees = record { tracked = a.agrees.tracked; counted = a.agrees.counted };
}

-- The removal of a key that is there, where the policy may lack what concerns that key.
remove_found-IsAccounted :
    (k : Bytes) (kv : KeyValuePair) {t : HashTable}
    → IsValid t
    → IsSoundBut k t.tracker
    → Agrees t
    → find k (chain_of k t.buckets) ≡ some kv
    → IsAccounted (remove_found k (some kv) t).1
unfolding remove_found release
remove_found-IsAccounted k kv {t} valid sound a e =
    let c = chain_of k t.buckets in
    let after = on_delete-After k (value_size kv) t.tracker sound in
    let u = remove_found-Updates k (some kv) valid e in
    let there : tracks k t.tracker ≡ true =
      a.tracked k ∙ ap found? (lookup_of_find k (some kv) t e) in
    let used : memory (Tracker.on_delete k (value_size kv) t.tracker)
        ≡ release (memory t.tracker) (value_size kv) =
      after.memory_used ∙ rw there in
    record {
      sound = after.sound;
      agrees = record {
        tracked = λ q. ground (arith, after.tracked_keys q, u.reads q, a.tracked q);
        counted = ground (
          arith,
          used,
          a.counted,
          table_bytes-write k (Chain.erase k c) t.buckets valid.placed.wide,
          stored_bytes-erase k c kv e,
        );
      };
    }

pub remove_there :
    (k : Bytes) {t : HashTable} {v : ValueEntry}
    → IsValid t
    → IsSoundBut k t.tracker
    → Agrees t
    → lookup k t ≡ some v
    → IsAccounted (remove k t).1
unfolding remove log lookup view
remove_there k {t} {v} valid sound a e = elim (Option-cases (find k (chain_of k t.buckets))) [
  | inl absent ↦ absurd_lookup (rw absent at e)
  | inr (kv, f) ↦
      let t' = log (delete_record k) t in
      rw f (
        remove_found-IsAccounted k kv {t = t'} (log-IsValid (delete_record k) valid) sound
          (record { tracked = a.tracked; counted = a.counted }) f)
]
  where
    absurd_lookup : {B : Type 0} → none ≡ some v → B
    absurd_lookup h = cc

remove_absent :
    (k : Bytes) {t : HashTable} → lookup k t ≡ none → IsAccounted t → IsAccounted (remove k t).1
unfolding remove remove_found lookup view log
remove_absent k {t} e a = elim (Option-cases (find k (chain_of k t.buckets))) [
  | inl absent ↦ rw absent (record {
    sound = a.sound;
    agrees = record { tracked = a.agrees.tracked; counted = a.agrees.counted };
  })
  | inr (kv, f) ↦ absurd_lookup (rw f at e)
]
  where
    absurd_lookup : {A B : Type 0} {x : A} → some x ≡ none → B
    absurd_lookup h = cc

-- After `remove` on a valid table whose policy agrees with it, the policy still tracks exactly the
-- keys of the table and counts exactly the bytes of its values.
pub remove-IsAccounted :
    (k : Bytes) {t : HashTable} → IsValid t → IsAccounted t → IsAccounted (remove k t).1
remove-IsAccounted k {t} v a = elim (Option-cases (lookup k t)) [
  | inl absent ↦ remove_absent k absent a
  | inr (x, e) ↦ remove_there k v (IsSound-IsSoundBut k t.tracker a.sound) a.agrees e
]

place_new :
    (k : Bytes) (v : ValueEntry) {t : HashTable}
    → IsValid t
    → IsAccounted t
    → table_bytes t.buckets + length v.value < 2 ^ 64
    → find k (chain_of k t.buckets) ≡ none
    → IsAccounted (place k v t)
unfolding place insert_found
place_new k v {t} valid a room e =
    let c = chain_of k t.buckets in
    let kv : KeyValuePair = record { key = k; value = v; hash = hash k } in
    let u = place-Updates k v valid in
    let fresh : tracks k t.tracker ≡ false =
      a.agrees.tracked k ∙ ap found? (lookup_of_find k none t e) in
    let after = on_insert-After k (length v.value) v.last_access_ns v.access_count a.sound fresh in
    rw e (record {
      sound = after.sound;
      agrees = record {
        tracked =
            λ q. ground (arith, after.tracked_keys q, (rw e at (u.reads q)), a.agrees.tracked q);
        counted = omega (
          arith,
          after.memory_used,
          a.agrees.counted,
          table_bytes-write k (c ++ kv ∷ []) t.buckets valid.placed.wide,
          stored_bytes-add kv c,
        );
      };
    })

place_old :
    (k : Bytes) (v : ValueEntry) (kv : KeyValuePair) {t : HashTable}
    → IsValid t
    → IsAccounted t
    → table_bytes t.buckets + length v.value < 2 ^ 64
    → find k (chain_of k t.buckets) ≡ some kv
    → IsAccounted (place k v t)
unfolding place insert_found release
place_old k v kv {t} valid a room e =
    let c = chain_of k t.buckets in
    let f : KeyValuePair → KeyValuePair = λ kv. record kv { value = v; hash = hash k } in
    let u = place-Updates k v valid in
    let there : tracks k t.tracker ≡ true =
      a.agrees.tracked k ∙ ap found? (lookup_of_find k (some kv) t e) in
    let gone =
      on_delete-After k (value_size kv) t.tracker (IsSound-IsSoundBut k t.tracker a.sound) in
    let fresh : tracks k (Tracker.on_delete k (value_size kv) t.tracker) ≡ false =
      gone.tracked_keys k ∙ ground (arith, str_eq_iff k k) in
    let after =
      on_insert-After k (length v.value) v.last_access_ns v.access_count gone.sound fresh in
    let used : memory (Tracker.on_delete k (value_size kv) t.tracker)
        ≡ release (memory t.tracker) (value_size kv) =
      gone.memory_used ∙ rw there in
    rw e (record {
      sound = after.sound;
      agrees = record {
        tracked = λ q. ground (
          arith,
          after.tracked_keys q,
          gone.tracked_keys q,
          (rw e at (u.reads q)),
          a.agrees.tracked q,
        );
        counted = ground (
          arith,
          used,
          after.memory_used,
          a.agrees.counted,
          table_bytes-write k (Chain.replace k f c) t.buckets valid.placed.wide,
          stored_bytes-replace k f c kv e,
          table_bytes-write k (Chain.erase k c) t.buckets valid.placed.wide,
          stored_bytes-erase k c kv e,
        );
      };
    })

-- Placing an entry keeps the account, if the count of the bytes cannot wrap.
pub place-IsAccounted :
    (k : Bytes) (v : ValueEntry) {t : HashTable}
    → IsValid t
    → IsAccounted t
    → table_bytes t.buckets + length v.value < 2 ^ 64
    → IsAccounted (place k v t)
place-IsAccounted k v {t} valid a room =
    let c = chain_of k t.buckets in
    elim (Option-cases (find k c)) [
      | inl e ↦ place_new k v valid a room e
      | inr (kv, e) ↦ place_old k v kv valid a room e
    ]

pub table_bytes-place-le :
    (k : Bytes) (v : ValueEntry) {t : HashTable}
    → IsValid t
    → table_bytes (place k v t).buckets ≤ table_bytes t.buckets + length v.value
unfolding place insert_found
table_bytes-place-le k v {t} valid =
    let c = chain_of k t.buckets in
    elim (Option-cases (find k c)) [
      | inl e ↦
          let kv : KeyValuePair = record { key = k; value = v; hash = hash k } in
          rw e (
            omega (
              arith,
              table_bytes-write k (c ++ kv ∷ []) t.buckets valid.placed.wide,
              stored_bytes-add kv c,
            ))
      | inr (kv, e) ↦
          let f : KeyValuePair → KeyValuePair = λ kv. record kv { value = v; hash = hash k } in
          rw e (
            omega (
              arith,
              table_bytes-write k (Chain.replace k f c) t.buckets valid.placed.wide,
              stored_bytes-replace k f c kv e,
            ))
    ]
