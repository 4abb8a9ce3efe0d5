-- ===== src/Recovery/Records.antt =====
-- The log that calls leave where nothing is evicted (`insert`, `remove` and `get` of engine/src/hash_table.cpp).
use distributed_in_memory_kv.Prelude.{
  ℕ, suc, ◌+◌, ◌≤◌, ◌≡◌, refl, ap, ◌∙◌, sym, Option, List, [], ◌∷◌, ◌++◌, Bytes, arith, length,
}
use distributed_in_memory_kv.Wal.{WalRecord}
use distributed_in_memory_kv.Wal.Truncated.{AllFit}
use distributed_in_memory_kv.Policy.Keys.{Keys}
use distributed_in_memory_kv.HashTable
use distributed_in_memory_kv.HashTable.Chain.{new_entry}
use distributed_in_memory_kv.HashTable.{HashTable, enable_wal, set_record, delete_record}
use distributed_in_memory_kv.HashTable.Roomy.{Roomy, fits, insert-Roomy, get-Roomy, remove-Roomy}
use distributed_in_memory_kv.HashTable.Roomy.Runs.{volume}
use distributed_in_memory_kv.HashTable.Recalls.{table_map}
use distributed_in_memory_kv.History.{Call, written, run}
use distributed_in_memory_kv.Recovery.Logs.{
  Short, extend-nil, Hands, and_then, insert_roomy, get-Hands, remove-Hands,
}
use distributed_in_memory_kv.Recovery.Calls.{
  AllFitting, changes, set_record-Fits, delete_record-Fits,
}
use distributed_in_memory_kv.Recovery.Prefix.{calls_of}
use distributed_in_memory_kv.Recovery.Replay.{AllChanges}

-- The log of the calls where nothing is evicted.
unfoldable pub records_of : List Call → List WalRecord
records_of [] = []
records_of (Call.set k v ∷ calls) = set_record k v ∷ records_of calls
records_of (Call.get k n m ∷ calls) = records_of calls
records_of (Call.remove k ∷ calls) = delete_record k ∷ records_of calls

pub records_of-AllFit : (calls : List Call) → AllFitting calls → AllFit (records_of calls)
unfolding records_of
records_of-AllFit [] fitting = tt
records_of-AllFit (Call.set k v ∷ calls) (short, small, ttl, fitting) =
    (set_record-Fits k v short small ttl, records_of-AllFit calls fitting)
records_of-AllFit (Call.get k n m ∷ calls) (short, fitting) = records_of-AllFit calls fitting
records_of-AllFit (Call.remove k ∷ calls) (short, fitting) =
    (delete_record-Fits k short, records_of-AllFit calls fitting)

pub run-Hands :
    (calls : List Call) (t : HashTable)
    → AllFitting calls
    → Roomy (volume calls) t
    → Keys Short t.tracker
    → Hands (records_of calls) t (run table_map calls t)
unfolding run records_of volume
run-Hands [] t fitting r keys = record { writer = sym (extend-nil t.wal_writer); keys = keys }
run-Hands (Call.set k v ∷ calls) t (short, small, ttl, fitting) r keys =
    let inserted = insert_roomy k v t short keys (fits r) in
    and_then inserted
      (run-Hands calls (HashTable.insert k v t) fitting (insert-Roomy k v r) inserted.keys)
run-Hands (Call.get k n m ∷ calls) t (short, fitting) r keys =
    let read = get-Hands k n m t short keys in
    and_then read (run-Hands calls (HashTable.get k n m t).1 fitting (get-Roomy k n m r) read.keys)
run-Hands (Call.remove k ∷ calls) t (short, fitting) r keys =
    let removed = remove-Hands k t keys in
    and_then removed
      (run-Hands calls (HashTable.remove k t).1 fitting (remove-Roomy k r) removed.keys)

-- The calls whose records are a first part of the log, and the rest of them.
pub record Parts (calls : List Call) (done rest : List WalRecord) : Type 0 where
  pub first : List Call
  pub last : List Call
  pub split : calls ≡ first ++ last
  pub logged : done ≡ records_of first
  pub lost : changes last ≡ length rest

changes-records_of : (calls : List Call) → changes calls ≡ length (records_of calls)
unfolding changes records_of
changes-records_of [] = refl
changes-records_of (Call.set k v ∷ calls) = ap suc (changes-records_of calls)
changes-records_of (Call.get k n m ∷ calls) = changes-records_of calls
changes-records_of (Call.remove k ∷ calls) = ap suc (changes-records_of calls)

pub records_of-Parts :
    (calls : List Call) (done rest : List WalRecord)
    → records_of calls ≡ done ++ rest
    → Parts calls done rest
unfolding records_of
records_of-Parts calls [] rest e = record {
  first = [];
  last = calls;
  split = refl;
  logged = refl;
  lost = changes-records_of calls ∙ ap length e;
}
records_of-Parts [] (r ∷ done) rest e = cc
records_of-Parts (Call.set k v ∷ calls) (r ∷ done) rest e =
    let head : r ≡ set_record k v = cc in
    let tail : records_of calls ≡ done ++ rest = cc in
    let p = records_of-Parts calls done rest tail in
    record {
      first = Call.set k v ∷ p.first;
      last = p.last;
      split = ap (λ l. Call.set k v ∷ l) p.split;
      logged = ap (λ x. x ∷ done) head ∙ ap (λ l. set_record k v ∷ l) p.logged;
      lost = p.lost;
    }
records_of-Parts (Call.get k n m ∷ calls) (r ∷ done) rest e =
    let p = records_of-Parts calls (r ∷ done) rest e in
    record {
      first = Call.get k n m ∷ p.first;
      last = p.last;
      split = ap (λ l. Call.get k n m ∷ l) p.split;
      logged = p.logged;
      lost = p.lost;
    }
records_of-Parts (Call.remove k ∷ calls) (r ∷ done) rest e =
    let head : r ≡ delete_record k = cc in
    let tail : records_of calls ≡ done ++ rest = cc in
    let p = records_of-Parts calls done rest tail in
    record {
      first = Call.remove k ∷ p.first;
      last = p.last;
      split = ap (λ l. Call.remove k ∷ l) p.split;
      logged = ap (λ x. x ∷ done) head ∙ ap (λ l. delete_record k ∷ l) p.logged;
      lost = p.lost;
    }

-- The records say what the calls write, in as many bytes.
pub written-records_of :
    (calls : List Call) (q : Bytes) (before : Option (Bytes × ℕ))
    → written q (calls_of (records_of calls)) before ≡ written q calls before
unfolding records_of new_entry
written-records_of [] q before = refl
written-records_of (Call.set k v ∷ calls) q before = written-records_of calls q _
written-records_of (Call.get k n m ∷ calls) q before = written-records_of calls q before
written-records_of (Call.remove k ∷ calls) q before = written-records_of calls q _

pub volume-records_of : (calls : List Call) → volume (calls_of (records_of calls)) ≡ volume calls
unfolding records_of volume new_entry
volume-records_of [] = refl
volume-records_of (Call.set k v ∷ calls) = ap (λ n. length v.value + n) (volume-records_of calls)
volume-records_of (Call.get k n m ∷ calls) = volume-records_of calls
volume-records_of (Call.remove k ∷ calls) = volume-records_of calls

pub records_of-AllChanges : (calls : List Call) → AllChanges (records_of calls)
unfolding records_of
records_of-AllChanges [] = tt
records_of-AllChanges (Call.set k v ∷ calls) = (tt, records_of-AllChanges calls)
records_of-AllChanges (Call.get k n m ∷ calls) = records_of-AllChanges calls
records_of-AllChanges (Call.remove k ∷ calls) = (tt, records_of-AllChanges calls)

pub volume-append : (xs ys : List Call) → volume xs ≤ volume (xs ++ ys)
unfolding volume
volume-append [] ys = omega arith
volume-append (Call.set k v ∷ xs) ys = omega (arith, volume-append xs ys)
volume-append (Call.get k n m ∷ xs) ys = volume-append xs ys
volume-append (Call.remove k ∷ xs) ys = volume-append xs ys
