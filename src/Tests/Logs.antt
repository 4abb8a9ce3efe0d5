-- ===== src/Tests/Logs.antt =====
-- A small log (engine/src/wal.cpp).
use distributed_in_memory_kv.Prelude.{
  suc, str_eq, le_bytes, ◌<◌, ◌≡◌, refl, none, List, [], ◌∷◌, ◌++◌, arith, length, take, codes,
}
use distributed_in_memory_kv.HashTable.Methods.{answer, accessed}
use distributed_in_memory_kv.Policy.Tracker.{EvictionPolicy}
use distributed_in_memory_kv.HashTable
use distributed_in_memory_kv.HashTable.{HashTable}
use distributed_in_memory_kv.HashTable.Upkeep.{replay_wal}
use distributed_in_memory_kv.HashTable.Roomy.Runs.{new-Roomy}
use distributed_in_memory_kv.HashTable.Replays.{
  Replays, replay_volume, map_of, effect, writes, renewed, size_of, replay_wal-Replays,
}
use distributed_in_memory_kv.Wal.{
  OpType, WalRecord, record_bytes, op_byte, of_op_byte, new, flush, pending_count, open_reader,
  read_all,
}
use distributed_in_memory_kv.Wal.Truncated.{Fits, AllFit, encode, whole, read_all-cut}
use distributed_in_memory_kv.Wal.Durable.{append_all, recovery_window}

abbrev set_a : WalRecord
set_a = record { op_type = OpType.set; key = codes "a"; value = codes "12"; ttl_ns = 5 }

abbrev delete_a : WalRecord
delete_a = record { op_type = OpType.delete; key = codes "a"; value = []; ttl_ns = 0 }

abbrev history : List WalRecord
history = set_a ∷ delete_a ∷ []

set_a-Fits : Fits set_a
unfolding op_byte of_op_byte
set_a-Fits = record {
  op = refl;
  op_small = omega arith;
  key = omega arith;
  value = omega arith;
  ttl = omega arith;
}

delete_a-Fits : Fits delete_a
unfolding op_byte of_op_byte
delete_a-Fits = record {
  op = refl;
  op_small = omega arith;
  key = omega arith;
  value = omega arith;
  ttl = omega arith;
}

history-AllFit : AllFit history
history-AllFit = (set_a-Fits, (delete_a-Fits, tt))

-- The first record has twenty bytes; the second is cut.
read_all-cut_example : read_all 3 (open_reader (take 25 (encode history))) ≡ whole 25 history
read_all-cut_example = read_all-cut history 3 25 history-AllFit (omega arith)

recovery_window_example :
    let w = append_all (new [] 2) history in
    (written : List WalRecord) × (history ≡ written ++ w.buffer)
    × (pending_count w < 2)
    × (read_all (suc (length written)) (open_reader w.file) ≡ written)
    × (read_all (suc (length history)) (open_reader (flush w).file) ≡ history)
recovery_window_example = recovery_window 2 history (omega arith) history-AllFit

-- After "a" is set its expiry time is renewed; then it is deleted, but of that record a byte is missing.
abbrev expire_a : WalRecord
expire_a = record { op_type = OpType.expire; key = codes "a"; value = []; ttl_ns = 90 }

expire_a-Fits : Fits expire_a
unfolding op_byte of_op_byte
expire_a-Fits = record {
  op = refl;
  op_small = omega arith;
  key = omega arith;
  value = omega arith;
  ttl = omega arith;
}

abbrev renewed_history : List WalRecord
renewed_history = set_a ∷ expire_a ∷ delete_a ∷ []

abbrev new_table : HashTable
new_table = HashTable.new 4 100 EvictionPolicy.lru none

-- The first record writes two bytes, and the second two again.
volume_written : replay_volume (λ i. (i, i)) 0 (whole 55 renewed_history) (map_of new_table) ≡ 4
unfolding replay_volume whole record_bytes map_of writes effect renewed size_of answer accessed
    le_bytes op_byte str_eq
volume_written = refl

replay_wal-Replays_example :
    Replays
      (λ i. (i, i))
      (whole 55 renewed_history)
      new_table
      (replay_wal (λ i. (i, i)) (take 55 (encode renewed_history)) new_table)
replay_wal-Replays_example =
    replay_wal-Replays (λ i. (i, i)) renewed_history 55
      (set_a-Fits, (expire_a-Fits, (delete_a-Fits, tt)))
      (new-Roomy 4 100 _ EvictionPolicy.lru (omega arith) (omega arith)
        (omega (arith, volume_written)))
