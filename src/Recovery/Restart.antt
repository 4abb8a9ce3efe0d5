-- ===== src/Recovery/Restart.antt =====
-- A restart after the table has been destroyed in an orderly way (`~HashTable` of engine/src/hash_table.cpp,
-- `~WALWriter` of engine/src/wal.cpp).
use distributed_in_memory_kv.Prelude.{
  ℕ, suc, ◌<◌, ◌≤◌, ◌^◌, ◌≡◌, refl, sym, ap, ◌∙◌, Option, none, some, List, [], Bytes, length, take,
  take_of_length-le,
}
use native.Mathlib.Nat.{le_refl}
use distributed_in_memory_kv.Wal
use distributed_in_memory_kv.Wal.{WalRecord, WalWriter}
use distributed_in_memory_kv.Wal.Truncated.{AllFit, encode}
use distributed_in_memory_kv.Wal.Torn.{read_all-torn}
use distributed_in_memory_kv.Wal.Durable.{
  append_all, append_all-Logged, new-Logged, flush-Logged, whole_all,
}
use distributed_in_memory_kv.Policy.Tracker.{EvictionPolicy}
use distributed_in_memory_kv.Policy.Keys.{Keys, new-Keys}
use distributed_in_memory_kv.HashTable
use distributed_in_memory_kv.HashTable.{HashTable, enable_wal, destroy, last_file}
use distributed_in_memory_kv.HashTable.Valid.{lookup}
use distributed_in_memory_kv.HashTable.Fresh.{new-IsValid}
use distributed_in_memory_kv.HashTable.Roomy.{Roomy}
use distributed_in_memory_kv.HashTable.Roomy.Runs.{volume, new-Roomy, enable_wal-Roomy}
use distributed_in_memory_kv.HashTable.Upkeep.{replay_wal, replay_records}
use distributed_in_memory_kv.HashTable.Recalls.{table_map}
use distributed_in_memory_kv.History.{Call, written, run, payload}
use distributed_in_memory_kv.Recovery.Logs.{Short, extend}
use distributed_in_memory_kv.Recovery.Calls.{AllFitting}
use distributed_in_memory_kv.Recovery.Records.{records_of, records_of-AllFit, run-Hands}
use distributed_in_memory_kv.Recovery.Exact.{replay-records_of}

-- The file is complete, and all of it is read.
read_all-close :
    (batch : ℕ) (rs : List WalRecord)
    → 0 < batch
    → AllFit rs
    → let contents = (Wal.close (append_all (Wal.new [] batch) rs)).file in
      Wal.read_all (suc (length contents)) (Wal.open_reader contents) ≡ rs
unfolding Wal.close
read_all-close batch rs pos fit =
    let w = append_all (Wal.new [] batch) rs in
    let (written, h) = append_all-Logged [] rs (Wal.new [] batch) (new-Logged batch pos) in
    let flushed = flush-Logged written w pos h.split h.on_disk h.batches in
    let all : take (length (encode rs)) (encode rs) ≡ encode rs =
      take_of_length-le _ (encode rs) (le_refl _) in
    let read = λ (s : Bytes). Wal.read_all (suc (length s)) (Wal.open_reader s) in
    ap read (flushed.on_disk ∙ sym all) ∙ (read_all-torn rs (length (encode rs)) fit ∙ whole_all rs)

-- A new table with an initial capacity of at most 2 ^ 63, a memory limit below 2 ^ 64 and any
-- policy gets a new log with batches of at least one record, and then any sequence of calls whose
-- keys, values and expiry times fit the log's format and whose values together fit into the memory
-- limits of this table and of another such new one. When the table has been destroyed, replaying
-- the log into the other one restores for every key exactly what the calls wrote last.
pub restart_exact :
    (calls : List Call) (initial limit initial' limit' batch : ℕ) (policy policy' : EvictionPolicy)
    (clock : ℕ → ℕ × ℕ) (q : Bytes)
    → initial ≤ 2 ^ 63
    → initial' ≤ 2 ^ 63
    → limit < 2 ^ 64
    → limit' < 2 ^ 64
    → volume calls ≤ limit
    → volume calls ≤ limit'
    → 0 < batch
    → AllFitting calls
    → let t = run table_map calls (enable_wal [] batch (HashTable.new initial limit policy none)) in
      let t' = HashTable.new initial' limit' policy' none in
      payload (lookup q (replay_wal clock (destroy t) t').1) ≡ written q calls none
unfolding destroy last_file replay_wal
restart_exact calls initial limit initial' limit' batch policy policy' clock q small small' count
      count' room room' pos fitting =
    let fresh = enable_wal [] batch (HashTable.new initial limit policy none) in
    let keys : Keys Short fresh.tracker =
      unfold enable_wal HashTable.new in new-Keys Short policy limit in
    let roomy : Roomy (volume calls) fresh =
      enable_wal-Roomy batch (new-Roomy initial limit (volume calls) policy small count room) in
    let hands = run-Hands calls fresh fitting roomy keys in
    let rs = records_of calls in
    let e : extend rs fresh.wal_writer ≡ some (append_all (Wal.new [] batch) rs) =
      unfold extend enable_wal in refl in
    let t' = HashTable.new initial' limit' policy' none in
    let replayed =
      λ (w : Option WalWriter). payload (lookup q (replay_wal clock (last_file w) t').1) in
    ap replayed (hands.writer ∙ e)
    ∙ (ap (λ l. payload (lookup q (replay_records clock 0 l t')))
          (read_all-close batch rs pos (records_of-AllFit calls fitting))
        ∙ replay-records_of clock calls t'
            (new-Roomy initial' limit' (volume calls) policy' small' count' room')
            (new-IsValid initial' limit' policy' none small').3 q)
