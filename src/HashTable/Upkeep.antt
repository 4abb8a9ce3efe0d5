-- ===== src/HashTable/Upkeep.antt =====
-- What runs over the table beside the clients: the scanner of expired keys and the replay of a log
-- (`scan_expired_keys` and `replay_wal` of engine/src/hash_table.cpp).
use distributed_in_memory_kv.Prelude.{
  ℕ, suc, refl, inl, Option, none, some, List, [], ◌∷◌, ◌++◌, Bytes, arith, length, get_or,
  if◌then◌else◌,
}
use distributed_in_memory_kv.Wal.{OpType, WalRecord, open_reader, read_all}
use distributed_in_memory_kv.HashTable.Chain.{KeyValuePair, ValueEntry, new_entry}
use distributed_in_memory_kv.HashTable.{HashTable, is_expired, remove, insert, get}
use distributed_in_memory_kv.HashTable.Valid.{IsValid, remove-Updates}
use distributed_in_memory_kv.HashTable.Evict.{Shrinks}

-- The expired keys of one bucket. Each test reads the clock: `clock j` is what the j-th reads.
unfoldable pub expired_keys : (ℕ → ℕ) → ℕ → List KeyValuePair → List Bytes
unfolding is_expired
expired_keys clock j [] = []
expired_keys clock j (kv ∷ c) =
    let more = expired_keys clock (suc j) c in
    if is_expired (clock j) kv.value then kv.key ∷ more else more

-- The buckets that the random numbers choose; the source draws twenty.
unfoldable pub sample_keys : (ℕ → ℕ → ℕ) → ℕ → List ℕ → HashTable → List Bytes
unfolding expired_keys
sample_keys clock i [] t = []
sample_keys clock i (b ∷ bs) t =
    expired_keys (clock i) 0 (get_or t.buckets b []) ++ sample_keys clock (suc i) bs t

unfoldable pub remove_all : List Bytes → HashTable → HashTable
remove_all [] t = t
remove_all (k ∷ ks) t = remove_all ks (remove k t).1

unfoldable pub scan_expired_keys : (ℕ → ℕ → ℕ) → List ℕ → HashTable → HashTable
unfolding sample_keys remove_all
scan_expired_keys clock buckets t = remove_all (sample_keys clock 0 buckets t) t

-- EXPIRE sets a new expiry time where `get` finds the key.
unfoldable pub expire : WalRecord → Option ValueEntry × HashTable → HashTable
expire r (none, t) = t
expire r (some v, t) = insert r.key (record v { expiry_ns = r.ttl_ns }) t

-- A record of another kind counts as replayed and does nothing.
unfoldable pub replay_record : OpType → ℕ → ℕ → WalRecord → HashTable → HashTable
unfolding expire new_entry
replay_record OpType.set n m r t = insert r.key (new_entry r.value r.ttl_ns) t
replay_record OpType.delete n m r t = (remove r.key t).1
replay_record OpType.expire n m r t = expire r (get r.key n m t)
replay_record (OpType.unknown b) n m r t = t

-- The clock is read twice for a record, at most.
unfoldable pub replay_records : (ℕ → ℕ × ℕ) → ℕ → List WalRecord → HashTable → HashTable
unfolding replay_record
replay_records clock i [] t = t
replay_records clock i (r ∷ rs) t =
    replay_records clock (suc i) rs (replay_record r.op_type (clock i).0 (clock i).1 r t)

-- The log's contents, and how many records were replayed. A record takes at least one byte.
unfoldable pub replay_wal : (ℕ → ℕ × ℕ) → Bytes → HashTable → ℕ × HashTable
unfolding replay_records read_all
replay_wal clock contents t =
    let records = read_all (suc (length contents)) (open_reader contents) in
    (length records, replay_records clock 0 records t)

remove_all-Shrinks : (ks : List Bytes) {t : HashTable} → IsValid t → Shrinks t (remove_all ks t)
unfolding remove_all
remove_all-Shrinks [] v = record { valid = v; reads = λ q. inl refl }
remove_all-Shrinks (k ∷ ks) {t} v =
    let u = remove-Updates k v in
    let s = remove_all-Shrinks ks u.valid in
    record { valid = s.valid; reads = λ q. ground (arith, s.reads q, u.reads q) }

-- The scanner keeps a valid table valid, and every key then reads as before or is gone, whatever
-- buckets are drawn.
pub scan_expired_keys-Shrinks :
    (clock : ℕ → ℕ → ℕ) (buckets : List ℕ) {t : HashTable}
    → IsValid t
    → Shrinks t (scan_expired_keys clock buckets t)
unfolding scan_expired_keys
scan_expired_keys-Shrinks clock buckets {t} v = remove_all-Shrinks (sample_keys clock 0 buckets t) v
