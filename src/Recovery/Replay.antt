-- ===== src/Recovery/Replay.antt =====
-- What `replay_wal` of engine/src/hash_table.cpp makes of a log of changes.
use distributed_in_memory_kv.Prelude.{
  ℕ, suc, ◌≡◌, refl, List, [], ◌∷◌, ◌++◌, Bytes, inl, none, sym, ap,
}
use mathlib.Core.Path.{subst}
use distributed_in_memory_kv.Wal.{OpType, WalRecord}
use distributed_in_memory_kv.HashTable.{HashTable}
use distributed_in_memory_kv.HashTable.Valid.{IsValid, lookup}
use distributed_in_memory_kv.HashTable.Upkeep.{replay_record, replay_records}
use distributed_in_memory_kv.HashTable.Recalls.{table_map}
use distributed_in_memory_kv.History.{Call, written, run, payload, run-Recalls}
use distributed_in_memory_kv.Recovery.Logs.{deletes}
use distributed_in_memory_kv.Recovery.Calls.{LogOf}
use distributed_in_memory_kv.Recovery.Prefix.{call_of, calls_of, Knows}

abbrev IsChange : OpType → Type 0
IsChange OpType.set = Unit
IsChange OpType.delete = Unit
IsChange OpType.expire = ⊥
IsChange (OpType.unknown b) = ⊥

abbrev pub AllChanges : List WalRecord → Type 0
AllChanges [] = Unit
AllChanges (r ∷ rs) = IsChange r.op_type × AllChanges rs

AllChanges-append : (xs ys : List WalRecord) → AllChanges (xs ++ ys) → AllChanges xs
AllChanges-append [] ys h = tt
AllChanges-append (x ∷ xs) ys h = (h.0, AllChanges-append xs ys h.1)

deletes-AllChanges :
    (ks : List Bytes) (rs : List WalRecord) → AllChanges rs → AllChanges (deletes ks ++ rs)
unfolding deletes
deletes-AllChanges [] rs h = h
deletes-AllChanges (k ∷ ks) rs h = (tt, deletes-AllChanges ks rs h)

LogOf-AllChanges : (calls : List Call) (rs : List WalRecord) → LogOf calls rs → AllChanges rs
LogOf-AllChanges [] rs e = subst AllChanges (sym e) tt
LogOf-AllChanges (Call.set k v ∷ calls) rs (ks, more, e, log) =
    subst AllChanges (sym e) (tt, deletes-AllChanges ks more (LogOf-AllChanges calls more log))
LogOf-AllChanges (Call.get k n m ∷ calls) rs log = LogOf-AllChanges calls rs log
LogOf-AllChanges (Call.remove k ∷ calls) rs (more, e, log) =
    subst AllChanges (sym e) (tt, LogOf-AllChanges calls more log)

-- A first part of a log of calls has set and delete records only.
pub LogOf-first :
    (calls : List Call) (done rest : List WalRecord) → LogOf calls (done ++ rest) → AllChanges done
LogOf-first calls done rest log =
    AllChanges-append done rest (LogOf-AllChanges calls (done ++ rest) log)

replay_record-calls :
    (op : OpType) (n m : ℕ) (r : WalRecord) (rs : List WalRecord) (t : HashTable)
    → IsChange op
    → (more : HashTable → HashTable) → ((t : HashTable) → more t ≡ run table_map (calls_of rs) t)
    → more (replay_record op n m r t) ≡ run table_map (call_of op r (calls_of rs)) t
unfolding replay_record run
replay_record-calls OpType.set n m r rs t change more h = h _
replay_record-calls OpType.delete n m r rs t change more h = h _
replay_record-calls OpType.expire n m r rs t change more h = absurd change
replay_record-calls (OpType.unknown b) n m r rs t change more h = absurd change

-- Replaying the records is calling the operations.
pub replay_records-calls_of :
    (clock : ℕ → ℕ × ℕ) (i : ℕ) (rs : List WalRecord) (t : HashTable)
    → AllChanges rs
    → replay_records clock i rs t ≡ run table_map (calls_of rs) t
unfolding replay_records run
replay_records-calls_of clock i [] t h = refl
replay_records-calls_of clock i (r ∷ rs) t h =
    replay_record-calls r.op_type _ _ r rs t h.0 (replay_records clock (suc i) rs)
      (λ t'. replay_records-calls_of clock (suc i) rs t' h.1)

-- From an empty table on, what is held is what the log says, or nothing.
pub replay_records-Knows :
    (clock : ℕ → ℕ × ℕ) (rs : List WalRecord) (t : HashTable) (q : Bytes)
    → IsValid t
    → ((k : Bytes) → lookup k t ≡ none)
    → AllChanges rs
    → Knows (payload (lookup q (replay_records clock 0 rs t))) (written q (calls_of rs) none)
replay_records-Knows clock rs t q valid empty changes =
    subst (λ t'. Knows (payload (lookup q t')) (written q (calls_of rs) none))
      (sym (replay_records-calls_of clock 0 rs t changes))
      ((run-Recalls table_map (calls_of rs) t (λ k. none) valid (λ k. inl (ap payload (empty k)))).1
        q)
