-- ===== src/Recovery/Exact.antt =====
-- A crash of an engine whose memory limit is never reached, and the restart after it (engine/src/hash_table.cpp,
-- engine/src/wal.cpp).
use distributed_in_memory_kv.Prelude.{
  ℕ, ◌<◌, ◌≤◌, ◌^◌, ◌≡◌, refl, ap, ◌∙◌, sym, none, some, List, [], ◌++◌, Bytes, arith,
}
use mathlib.Core.Path.{subst}
use distributed_in_memory_kv.Wal
use distributed_in_memory_kv.Wal.{WalRecord}
use distributed_in_memory_kv.Wal.Durable.{append_all}
use distributed_in_memory_kv.Policy.Tracker.{EvictionPolicy}
use distributed_in_memory_kv.Policy.Keys.{Keys, new-Keys}
use distributed_in_memory_kv.HashTable
use distributed_in_memory_kv.HashTable.{HashTable, enable_wal, set_record, delete_record}
use distributed_in_memory_kv.HashTable.Valid.{lookup}
use distributed_in_memory_kv.HashTable.Fresh.{new-IsValid}
use distributed_in_memory_kv.HashTable.Roomy.{Roomy}
use distributed_in_memory_kv.HashTable.Roomy.Runs.{
  volume, run-Holds, new-Roomy, less_room, enable_wal-Roomy,
}
use distributed_in_memory_kv.HashTable.Upkeep.{replay_wal, replay_records}
use distributed_in_memory_kv.HashTable.Recalls.{table_map}
use distributed_in_memory_kv.History.{Call, written, run, payload}
use distributed_in_memory_kv.Recovery.Logs.{Short, extend}
use distributed_in_memory_kv.Recovery.Calls.{AllFitting, changes}
use distributed_in_memory_kv.Recovery.Prefix.{calls_of}
use distributed_in_memory_kv.Recovery.Replay.{replay_records-calls_of}
use distributed_in_memory_kv.Recovery.Crash.{crash_image, Left, append_all-Left}
use distributed_in_memory_kv.Recovery.Records.{
  records_of, records_of-AllFit, records_of-AllChanges, run-Hands, records_of-Parts,
  written-records_of, volume-records_of, volume-append,
}

-- `t` holds for each key exactly what the calls wrote last up to some point; fewer than `batch` changes were
-- made after that point.
pub record Restores (batch : ℕ) (calls : List Call) (t : HashTable) : Type 0 where
  pub first : List Call
  pub last : List Call
  pub split : calls ≡ first ++ last
  pub lost : changes last < batch
  pub holds : (q : Bytes) → payload (lookup q t) ≡ written q first none

-- Replaying the records of calls that fit into the limit of a new table.
pub replay-records_of :
    (clock : ℕ → ℕ × ℕ) (first : List Call) (t : HashTable)
    → Roomy (volume first) t
    → ((k : Bytes) → lookup k t ≡ none)
    → (q : Bytes)
    → payload (lookup q (replay_records clock 0 (records_of first) t)) ≡ written q first none
replay-records_of clock first t r empty q =
    let r' = subst (λ n. Roomy n t) (sym (volume-records_of first)) r in
    ap (λ x. payload (lookup q x))
      (replay_records-calls_of clock 0 (records_of first) t (records_of-AllChanges first))
    ∙ (run-Holds (calls_of (records_of first)) t (λ k. none) r' (λ k. ap payload (empty k)) q
        ∙ written-records_of first q none)

Left-Restores :
    (batch n : ℕ) (calls : List Call) (clock : ℕ → ℕ × ℕ) (t : HashTable)
    → Left batch n (records_of calls)
    → Roomy (volume calls) t
    → ((k : Bytes) → lookup k t ≡ none)
    → Restores batch calls
        (replay_wal clock
          (crash_image n (some (append_all (Wal.new [] batch) (records_of calls))))
          t).1
unfolding replay_wal
Left-Restores batch n calls clock t left r empty =
    let p = records_of-Parts calls left.done left.rest left.split in
    let less : volume p.first ≤ volume calls =
      subst (λ l. volume p.first ≤ volume l) (sym p.split) (volume-append p.first p.last) in
    record {
      first = p.first;
      last = p.last;
      split = p.split;
      lost = omega (arith, p.lost, left.few);
      holds = λ q.
          ap (λ rs. payload (lookup q (replay_records clock 0 rs t))) (left.read ∙ p.logged)
          ∙ replay-records_of clock p.first t (less_room less r) empty q;
    }

-- A new table with an initial capacity of at most 2 ^ 63, a memory limit below 2 ^ 64 and any
-- policy gets a new log with batches of at least one record, and then any sequence of calls whose
-- keys, values and expiry times fit the log's format and whose values together fit into the memory
-- limits of this table and of another such new one. After a crash that leaves the synced bytes of
-- the log and any number of the bytes that a flush was writing, replaying it into the other table
-- restores for every key exactly what the calls wrote last up to some point, and fewer changes
-- than a batch were made after that point.
pub crash_recovery_exact :
    (calls : List Call) (initial limit initial' limit' batch n : ℕ)
    (policy policy' : EvictionPolicy) (clock : ℕ → ℕ × ℕ)
    → initial ≤ 2 ^ 63
    → initial' ≤ 2 ^ 63
    → limit < 2 ^ 64
    → limit' < 2 ^ 64
    → volume calls ≤ limit
    → volume calls ≤ limit'
    → 0 < batch
    → AllFitting calls
    → let t = run table_map calls (enable_wal [] batch (HashTable.new initial limit policy none)) in
      let t' = HashTable.new initial' limit' policy' none in
      Restores batch calls (replay_wal clock (crash_image n t.wal_writer) t').1
crash_recovery_exact calls initial limit initial' limit' batch n policy policy' clock small small'
      count count' room room' pos fitting =
    let fresh = enable_wal [] batch (HashTable.new initial limit policy none) in
    let keys : Keys Short fresh.tracker =
      unfold enable_wal HashTable.new in new-Keys Short policy limit in
    let roomy : Roomy (volume calls) fresh =
      enable_wal-Roomy batch (new-Roomy initial limit (volume calls) policy small count room) in
    let hands = run-Hands calls fresh fitting roomy keys in
    let e : extend (records_of calls) fresh.wal_writer
        ≡ some (append_all (Wal.new [] batch) (records_of calls)) =
      unfold extend enable_wal in refl in
    let t' = HashTable.new initial' limit' policy' none in
    subst (λ w. Restores batch calls (replay_wal clock (crash_image n w) t').1)
      (sym (hands.writer ∙ e))
      (Left-Restores batch n calls clock t'
        (append_all-Left batch n (records_of calls) pos (records_of-AllFit calls fitting))
        (new-Roomy initial' limit' (volume calls) policy' small' count' room')
        (new-IsValid initial' limit' policy' none small').3)
