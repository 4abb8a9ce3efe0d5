-- ===== src/Recovery/Calls.antt =====
-- The log that a client's calls leave (engine/src/hash_table.cpp), evictions included.
use distributed_in_memory_kv.Prelude.{
  ℕ, suc, ◌<◌, ◌^◌, ◌≡◌, refl, sym, List, [], ◌∷◌, ◌++◌, Bytes, arith, length,
}
use distributed_in_memory_kv.Wal
use distributed_in_memory_kv.Wal.{OpType, WalRecord}
use distributed_in_memory_kv.Wal.Truncated.{Fits, AllFit}
use distributed_in_memory_kv.HashTable
use distributed_in_memory_kv.HashTable.Chain.{ValueEntry}
use distributed_in_memory_kv.HashTable.{HashTable, delete_record, set_record}
use distributed_in_memory_kv.HashTable.Recalls.{table_map}
use distributed_in_memory_kv.History.{Call, run}
use distributed_in_memory_kv.Policy.Keys.{Keys}
use distributed_in_memory_kv.Recovery.Logs.{
  Short, AllShort, deletes, extend-nil, Hands, and_then, insert-Hands, remove-Hands, get-Hands,
}

-- The calls that the log's format can hold.
abbrev pub AllFitting : List Call → Type 0
AllFitting [] = Unit
AllFitting (Call.set k v ∷ calls) =
    Short k × (length v.value < 2 ^ 32) × (v.expiry_ns < 2 ^ 64) × AllFitting calls
AllFitting (Call.get k n m ∷ calls) = Short k × AllFitting calls
AllFitting (Call.remove k ∷ calls) = Short k × AllFitting calls

-- `rs` is a log of the calls: a record for each change, and behind that of an insertion the deletions
-- of the keys that it evicted.
abbrev pub LogOf : List Call → List WalRecord → Type 0
LogOf [] rs = rs ≡ []
LogOf (Call.set k v ∷ calls) rs =
    (ks : List Bytes) × (more : List WalRecord) × (rs ≡ set_record k v ∷ (deletes ks ++ more))
    × LogOf calls more
LogOf (Call.get k n m ∷ calls) rs = LogOf calls rs
LogOf (Call.remove k ∷ calls) rs =
    (more : List WalRecord) × (rs ≡ delete_record k ∷ more) × LogOf calls more

-- How many of the calls change the map.
unfoldable pub changes : List Call → ℕ
changes [] = 0
changes (Call.set k v ∷ calls) = suc (changes calls)
changes (Call.get k n m ∷ calls) = changes calls
changes (Call.remove k ∷ calls) = suc (changes calls)

pub set_record-Fits :
    (k : Bytes) (v : ValueEntry)
    → Short k
    → length v.value < 2 ^ 32
    → v.expiry_ns < 2 ^ 64
    → Fits (set_record k v)
unfolding Wal.op_byte Wal.of_op_byte
set_record-Fits k v short fits ttl = record {
  op = refl;
  op_small = omega arith;
  key = short;
  value = fits;
  ttl = ttl;
}

pub delete_record-Fits : (k : Bytes) → Short k → Fits (delete_record k)
unfolding Wal.op_byte Wal.of_op_byte
delete_record-Fits k short = record {
  op = refl;
  op_small = omega arith;
  key = short;
  value = omega arith;
  ttl = omega arith;
}

deletes-AllFit :
    (ks : List Bytes) (rs : List WalRecord) → AllShort ks → AllFit rs → AllFit (deletes ks ++ rs)
unfolding deletes
deletes-AllFit [] rs all fit = fit
deletes-AllFit (k ∷ ks) rs (short, all) fit =
    (delete_record-Fits k short, deletes-AllFit ks rs all fit)

-- The calls hand a log of theirs to the writer.
pub run-LogOf :
    (calls : List Call) (t : HashTable)
    → AllFitting calls
    → Keys Short t.tracker
    → (rs : List WalRecord) × LogOf calls rs × AllFit rs × Hands rs t (run table_map calls t)
unfolding run
run-LogOf [] t fitting keys =
    ([], refl, tt, record { writer = sym (extend-nil t.wal_writer); keys = keys })
run-LogOf (Call.set k v ∷ calls) t (short, fits, ttl, fitting) keys =
    let (ks, all, inserted) = insert-Hands k v t short keys in
    let (rs, log, fit, hands) = run-LogOf calls (HashTable.insert k v t) fitting inserted.keys in
    (
      set_record k v ∷ (deletes ks ++ rs),
      (ks, rs, refl, log),
      (set_record-Fits k v short fits ttl, deletes-AllFit ks rs all fit),
      and_then inserted hands,
    )
run-LogOf (Call.get k n m ∷ calls) t (short, fitting) keys =
    let read = get-Hands k n m t short keys in
    let (rs, log, fit, hands) = run-LogOf calls (HashTable.get k n m t).1 fitting read.keys in
    (rs, log, fit, and_then read hands)
run-LogOf (Call.remove k ∷ calls) t (short, fitting) keys =
    let removed = remove-Hands k t keys in
    let (rs, log, fit, hands) = run-LogOf calls (HashTable.remove k t).1 fitting removed.keys in
    (
      delete_record k ∷ rs,
      (rs, refl, log),
      (delete_record-Fits k short, fit),
      and_then removed hands,
    )
