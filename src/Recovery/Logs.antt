-- ===== src/Recovery/Logs.antt =====
-- The records that each operation of the table hands to its log: `insert`, `remove`, `get` and the eviction
-- loop of engine/src/hash_table.cpp.
use distributed_in_memory_kv.Prelude.{
  ℕ, zero, suc, false, ◌<◌, ◌^◌, ◌*◌, ◌≡◌, refl, inl, inr, sym, ◌∙◌, ap, Option, none, some, List,
  [], ◌∷◌, ◌++◌, Bytes, arith, append-nil, length, Bool-cases, ltb,
}
use mathlib.Core.Path.{subst}
use mathlib.Core.Option
use distributed_in_memory_kv.Wal
use distributed_in_memory_kv.Wal.{WalRecord, WalWriter}
use distributed_in_memory_kv.Wal.Durable.{append_all}
use distributed_in_memory_kv.Policy.Tracker
use distributed_in_memory_kv.Policy.Keys.{
  Keys, on_insert-Keys, on_access-Keys, on_delete-Keys, get_eviction_candidate-Keys,
}
use distributed_in_memory_kv.HashTable
use distributed_in_memory_kv.HashTable.Chain.{ValueEntry, KeyValuePair, find}
use distributed_in_memory_kv.HashTable.{
  HashTable, log, chain_of, delete_record, set_record, remove_found, is_empty, next_victim,
  evict_loop, evict_if_needed, resize_if_needed, rehash, insert_found, place, get_found, touch,
  is_expired,
}
use distributed_in_memory_kv.HashTable.Evict.{evict_none}

-- The format has 32 bits for a length.
abbrev pub Short : Bytes → Type 0
Short k = length k < 2 ^ 32

abbrev pub AllShort : List Bytes → Type 0
AllShort [] = Unit
AllShort (k ∷ ks) = Short k × AllShort ks

unfoldable pub deletes : List Bytes → List WalRecord
deletes [] = []
deletes (k ∷ ks) = delete_record k ∷ deletes ks

-- The table's log, if it has one, after the records.
unfoldable pub extend : List WalRecord → Option WalWriter → Option WalWriter
extend rs w = Option.map (λ w. append_all w rs) w

append_all-append :
    (w : WalWriter) (xs ys : List WalRecord)
    → append_all w (xs ++ ys) ≡ append_all (append_all w xs) ys
unfolding append_all
append_all-append w [] ys = refl
append_all-append w (x ∷ xs) ys = append_all-append (Wal.append w x) xs ys

pub extend-append :
    (xs ys : List WalRecord) (w : Option WalWriter) → extend (xs ++ ys) w ≡ extend ys (extend xs w)
unfolding extend
extend-append xs ys none = refl
extend-append xs ys (some w) = ap some (append_all-append w xs ys)

pub extend-nil : (w : Option WalWriter) → extend [] w ≡ w
unfolding extend append_all
extend-nil none = refl
extend-nil (some w) = refl

-- The table has handed `rs` to its log on the way from `t` to `t'`, and its policy keeps short keys only.
pub record Hands (rs : List WalRecord) (t t' : HashTable) : Type 0 where
  pub writer : t'.wal_writer ≡ extend rs t.wal_writer
  pub keys : Keys Short t'.tracker

pub and_then :
    {rs rs' : List WalRecord} {t t' t'' : HashTable}
    → Hands rs t t'
    → Hands rs' t' t''
    → Hands (rs ++ rs') t t''
and_then {rs} {rs'} {t} h h' = record {
  writer = h'.writer ∙ (ap (extend rs') h.writer ∙ sym (extend-append rs rs' t.wal_writer));
  keys = h'.keys;
}

-- A step that leaves the log alone.
silent : {t t' : HashTable} → t'.wal_writer ≡ t.wal_writer → Keys Short t'.tracker → Hands [] t t'
silent {t} e keys = record { writer = e ∙ sym (extend-nil t.wal_writer); keys = keys }

log-Hands : (r : WalRecord) (t : HashTable) → Keys Short t.tracker → Hands (r ∷ []) t (log r t)
unfolding log extend append_all
log-Hands r t keys = record { writer = refl; keys = keys }

remove_found-Hands :
    (k : Bytes) (found : Option KeyValuePair) (t : HashTable)
    → Keys Short t.tracker
    → Hands [] t (remove_found k found t).1
unfolding remove_found
remove_found-Hands k none t keys = silent refl keys
remove_found-Hands k (some kv) t keys = silent refl (on_delete-Keys Short k _ t.tracker keys)

pub remove-Hands :
    (k : Bytes) (t : HashTable)
    → Keys Short t.tracker
    → Hands (delete_record k ∷ []) t (HashTable.remove k t).1
unfolding HashTable.remove
remove-Hands k t keys = and_then (log-Hands (delete_record k) t keys) (
    remove_found-Hands k (find k (chain_of k (log (delete_record k) t).buckets)) _
      (log-Hands (delete_record k) t keys).keys)

empty_Short : Short []
empty_Short = omega arith

-- Each round of the eviction loop hands the deletion of its victim to the log.
evict_loop-Hands :
    (fuel : ℕ) (t : HashTable)
    → Keys Short t.tracker
    → (ks : List Bytes) × AllShort ks × Hands (deletes ks) t (evict_loop fuel t)
unfolding evict_loop next_victim deletes
evict_loop-Hands zero t keys = ([], tt, silent refl keys)
evict_loop-Hands (suc fuel) t keys =
    let (victim, t') = next_victim t in
    let (short, keys') = get_eviction_candidate-Keys Short t.tracker empty_Short keys in
    let gone = remove-Hands victim t' keys' in
    let (ks, all, more) = evict_loop-Hands fuel (HashTable.remove victim t').1 gone.keys in
    elim (Bool-cases (Tracker.should_evict t.tracker)) [
      | inr fits ↦ ([], tt, rw fits (silent refl keys))
      | inl over ↦ elim (Bool-cases (is_empty victim)) [
        | inl end ↦ ([], tt, rw (over, end) (silent refl keys'))
        | inr go ↦ (
          victim ∷ ks,
          (short, all),
          rw (over, go) record { writer = (and_then gone more).writer; keys = more.keys },
        )
      ]
    ]

evict_if_needed-Hands :
    (t : HashTable)
    → Keys Short t.tracker
    → (ks : List Bytes) × AllShort ks × Hands (deletes ks) t (evict_if_needed t)
unfolding evict_if_needed
evict_if_needed-Hands t keys = evict_loop-Hands (suc (Tracker.candidates t.tracker)) t keys

resize_if_needed-Hands : (t : HashTable) → Keys Short t.tracker → Hands [] t (resize_if_needed t)
unfolding resize_if_needed rehash
resize_if_needed-Hands t keys = elim (Bool-cases (ltb (3 * length t.buckets) (4 * t.num_entries))) [
  | inl full ↦ rw full (silent refl keys)
  | inr roomy ↦ rw roomy (silent refl keys)
]

insert_found-Hands :
    (k : Bytes) (v : ValueEntry) (found : Option KeyValuePair) (t : HashTable)
    → Short k
    → Keys Short t.tracker
    → Hands [] t (insert_found k v found t)
unfolding insert_found
insert_found-Hands k v none t short keys =
    silent refl (on_insert-Keys Short k _ _ _ t.tracker short keys)
insert_found-Hands k v (some kv) t short keys =
    silent refl (on_insert-Keys Short k _ _ _ _ short (on_delete-Keys Short k _ t.tracker keys))

pub place-Hands :
    (k : Bytes) (v : ValueEntry) (t : HashTable)
    → Short k
    → Keys Short t.tracker
    → Hands [] t (place k v (resize_if_needed t))
unfolding place
place-Hands k v t short keys =
    let resized = resize_if_needed-Hands t keys in
    let u = resize_if_needed t in
    and_then resized (insert_found-Hands k v (find k (chain_of k u.buckets)) u short resized.keys)

-- An insertion hands its own record to the log, and after it one deletion for each evicted key.
pub insert-Hands :
    (k : Bytes) (v : ValueEntry) (t : HashTable)
    → Short k
    → Keys Short t.tracker
    → (ks : List Bytes) × AllShort ks
      × Hands (set_record k v ∷ deletes ks) t (HashTable.insert k v t)
unfolding HashTable.insert
insert-Hands k v t short keys =
    let logged = log-Hands (set_record k v) t keys in
    let t₁ = log (set_record k v) t in
    let (ks, all, evicted) = evict_if_needed-Hands t₁ logged.keys in
    let placed = place-Hands k v (evict_if_needed t₁) short evicted.keys in
    (
      ks,
      all,
      subst (λ rs. Hands rs t (HashTable.insert k v t))
          (ap (λ rs. set_record k v ∷ rs) (append-nil (deletes ks)))
          (and_then logged (and_then evicted placed)),
    )

-- Without memory pressure there are no deletions.
pub insert_roomy :
    (k : Bytes) (v : ValueEntry) (t : HashTable)
    → Short k
    → Keys Short t.tracker
    → Tracker.should_evict t.tracker ≡ false
    → Hands (set_record k v ∷ []) t (HashTable.insert k v t)
unfolding HashTable.insert
insert_roomy k v t short keys fits =
    let t₁ = log (set_record k v) t in
    let logged = log-Hands (set_record k v) t keys in
    subst (λ x. Hands (set_record k v ∷ []) t (place k v (resize_if_needed x)))
      (sym (evict_none t₁ (unfold log in fits)))
      (and_then logged (place-Hands k v t₁ short logged.keys))

get_found-Hands :
    (k : Bytes) (n m : ℕ) (found : Option KeyValuePair) (t : HashTable)
    → Short k
    → Keys Short t.tracker
    → Hands [] t (get_found k n m found t).1
unfolding get_found
get_found-Hands k n m none t short keys = silent refl keys
get_found-Hands k n m (some kv) t short keys = elim (Bool-cases (is_expired n kv.value)) [
  | inl dead ↦ rw dead (silent refl keys)
  | inr live ↦ rw live (silent refl (on_access-Keys Short k _ _ t.tracker short keys))
]

-- A read hands nothing to the log.
pub get-Hands :
    (k : Bytes) (n m : ℕ) (t : HashTable)
    → Short k
    → Keys Short t.tracker
    → Hands [] t (HashTable.get k n m t).1
unfolding HashTable.get
get-Hands k n m t short keys = get_found-Hands k n m (find k (chain_of k t.buckets)) t short keys
