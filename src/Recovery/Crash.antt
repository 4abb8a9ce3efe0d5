-- ===== src/Recovery/Crash.antt =====
-- A crash of the engine and the restart after it: a table with a log (`enable_wal`), the file that the crash
-- leaves, and `replay_wal` into a new table (engine/src/hash_table.cpp, engine/src/wal.cpp).
use distributed_in_memory_kv.Prelude.{
  ℕ, suc, ◌+◌, ◌-◌, ◌<◌, ◌≤◌, ◌^◌, ◌≡◌, refl, inl, inr, ap, ◌∙◌, sym, Option, none, some, List, [],
  ◌++◌, Bytes, arith, length, length-append, take,
}
use mathlib.Core.Path.{subst}
use distributed_in_memory_kv.Wal
use distributed_in_memory_kv.Wal.{WalRecord, WalWriter}
use distributed_in_memory_kv.Wal.Truncated.{AllFit, encode, whole}
use distributed_in_memory_kv.Wal.Torn.{whole_first, whole-append, read_all-torn}
use distributed_in_memory_kv.Wal.Durable.{append_all, append_all-Logged, new-Logged, flush-Logged}
use distributed_in_memory_kv.Policy.Tracker.{EvictionPolicy}
use distributed_in_memory_kv.Policy.Keys.{Keys, new-Keys}
use distributed_in_memory_kv.HashTable
use distributed_in_memory_kv.HashTable.{HashTable, enable_wal}
use distributed_in_memory_kv.HashTable.Valid.{IsValid, lookup}
use distributed_in_memory_kv.HashTable.Fresh.{new-IsValid}
use distributed_in_memory_kv.HashTable.Upkeep.{replay_wal, replay_records}
use distributed_in_memory_kv.HashTable.Recalls.{table_map}
use distributed_in_memory_kv.History.{Call, written, run, payload}
use distributed_in_memory_kv.Recovery.Logs.{Short, extend}
use distributed_in_memory_kv.Recovery.Calls.{AllFitting, LogOf, changes, run-LogOf}
use distributed_in_memory_kv.Recovery.Prefix.{Knows, LogOf-Survives}
use distributed_in_memory_kv.Recovery.Replay.{LogOf-first, replay_records-Knows}

-- What a crash leaves of the log: the bytes that were synced, and `n` of those that a flush was writing.
unfoldable pub crash_image : ℕ → Option WalWriter → Bytes
crash_image n none = []
crash_image n (some w) = take (length w.file + n) (Wal.flush w).file

-- The records that are read after a crash are a first part of those appended, and the rest is
-- shorter than a batch.
pub record Left (batch n : ℕ) (rs : List WalRecord) : Type 0 where
  pub done : List WalRecord
  pub rest : List WalRecord
  pub split : rs ≡ done ++ rest
  pub few : length rest < batch
  pub read :
      let contents = crash_image n (some (append_all (Wal.new [] batch) rs)) in
      Wal.read_all (suc (length contents)) (Wal.open_reader contents) ≡ done

pub append_all-Left : (batch n : ℕ) (rs : List WalRecord) → 0 < batch → AllFit rs → Left batch n rs
unfolding crash_image
append_all-Left batch n rs pos fit =
    let w = append_all (Wal.new [] batch) rs in
    let (written, h) = append_all-Logged [] rs (Wal.new [] batch) (new-Logged batch pos) in
    let flushed = flush-Logged written w pos h.split h.on_disk h.batches in
    let m = length w.file + n in
    let (rest, first) = whole_first m rs in
    let kept : whole m rs ≡ written ++ whole (m - length (encode written)) w.buffer =
      ap (whole m) h.split ∙ whole-append written w.buffer m (omega (arith, ap length h.on_disk)) in
    record {
      done = whole m rs;
      rest = rest;
      split = first;
      few = omega (
        arith,
        h.pending,
        ap length first,
        ap length h.split,
        ap length kept,
        length-append (whole m rs) rest,
        length-append written w.buffer,
        length-append written (whole (m - length (encode written)) w.buffer),
      );
      read = rw flushed.on_disk (read_all-torn rs m fit);
    }

-- `t` holds for each key what the calls wrote last up to some point, or nothing; fewer than `batch` changes were made
-- after that point.
pub record Recovers (batch : ℕ) (calls : List Call) (t : HashTable) : Type 0 where
  pub first : List Call
  pub last : List Call
  pub split : calls ≡ first ++ last
  pub lost : changes last < batch
  pub knows : (q : Bytes) → Knows (payload (lookup q t)) (written q first none)

pub trans-Knows : {x y z : Option (Bytes × ℕ)} → Knows x y → Knows y z → Knows x z
trans-Knows (inl e) (inl e') = inl (e ∙ e')
trans-Knows (inl e) (inr e') = inr (e ∙ e')
trans-Knows (inr e) h = inr e

Left-Recovers :
    (batch n : ℕ) (calls : List Call) (rs : List WalRecord) (clock : ℕ → ℕ × ℕ) (t : HashTable)
    → LogOf calls rs
    → Left batch n rs
    → IsValid t
    → ((k : Bytes) → lookup k t ≡ none)
    → Recovers batch calls
        (replay_wal clock (crash_image n (some (append_all (Wal.new [] batch) rs))) t).1
unfolding replay_wal
Left-Recovers batch n calls rs clock t log left valid empty =
    let log' = subst (LogOf calls) left.split log in
    let s = LogOf-Survives calls left.done left.rest log' in
    record {
      first = s.first;
      last = s.last;
      split = s.split;
      lost = omega (arith, s.lost, left.few);
      knows = λ q.
          subst
            (λ rs.
              Knows (payload (lookup q (replay_records clock 0 rs t))) (written q s.first none))
            (sym left.read)
            (trans-Knows
              (replay_records-Knows clock left.done t q valid empty
                (LogOf-first calls left.done left.rest log'))
              (s.knows q none none (inl refl)));
    }

-- A new table with an initial capacity of at most 2 ^ 63, of any memory limit and policy, gets a
-- new log with batches of at least one record, and then any sequence of calls whose keys, values
-- and expiry times fit the log's format. After a crash that leaves the synced bytes of the log and
-- any number of the bytes that a flush was writing, replaying it into another such new table
-- yields for every key what the calls wrote last up to some point, or nothing, and fewer changes
-- than a batch were made after that point.
pub crash_recovery :
    (calls : List Call) (initial limit initial' limit' batch n : ℕ)
    (policy policy' : EvictionPolicy) (clock : ℕ → ℕ × ℕ)
    → initial ≤ 2 ^ 63
    → initial' ≤ 2 ^ 63
    → 0 < batch
    → AllFitting calls
    → let t = run table_map calls (enable_wal [] batch (HashTable.new initial limit policy none)) in
      let t' = HashTable.new initial' limit' policy' none in
      Recovers batch calls (replay_wal clock (crash_image n t.wal_writer) t').1
crash_recovery calls initial limit initial' limit' batch n policy policy' clock small small' pos
      fitting =
    let fresh = enable_wal [] batch (HashTable.new initial limit policy none) in
    let keys : Keys Short fresh.tracker =
      unfold enable_wal HashTable.new in new-Keys Short policy limit in
    let (rs, log, fit, hands) = run-LogOf calls fresh fitting keys in
    let (valid, _, _, empty) = new-IsValid initial' limit' policy' none small' in
    let e : extend rs fresh.wal_writer ≡ some (append_all (Wal.new [] batch) rs) =
      unfold extend enable_wal in refl in
    let t' = HashTable.new initial' limit' policy' none in
    subst (λ w. Recovers batch calls (replay_wal clock (crash_image n w) t').1)
      (sym (hands.writer ∙ e))
      (Left-Recovers batch n calls rs clock t' log (append_all-Left batch n rs pos fit) valid empty)
