-- ===== src/HashTable.antt =====
-- The hash table: engine/include/hash_table.h and engine/src/hash_table.cpp.
-- A method returns the new table beside its result. What the clock says, and which buckets the
-- expiry scanner samples, are arguments. The table's own log is the writer with its file.
-- (`num_entries_` could wrap only past 2 ^ 64 entries, more than memory holds.)
pub mod Chain
pub mod Buckets
pub mod Rehash
pub mod Valid
pub mod Evict
pub mod Methods
pub mod Fresh
pub mod StoredBytes
pub mod Memory
pub mod ReadMemory
pub mod Roomy
pub mod Pressure
pub mod Upkeep
pub mod Expired
pub mod Replays
pub mod Scanner
pub mod Recalls
pub mod LruCache
pub mod Stats
use distributed_in_memory_kv.Prelude.{
  ℕ, zero, suc, ◌+◌, ◌-◌, ◌*◌, ◌%◌, ◌^◌, Bool, true, false, Option, none, some, List, [], ◌∷◌, ◌++◌,
  Bytes, length, get_or, set, replicate, leb, ltb, ◌==◌, if◌then◌else◌, str_eq, not, ◌&&◌,
}
use distributed_in_memory_kv.Hash.{hash}
use distributed_in_memory_kv.Wal
use distributed_in_memory_kv.Wal.{WalRecord, WalWriter, OpType}
use distributed_in_memory_kv.Policy.Tracker
use distributed_in_memory_kv.Policy.Tracker.{Tracker, EvictionPolicy}
use mathlib.Core.Option
use Chain.{ValueEntry, KeyValuePair, new_entry}

pub record HashTable : Type 0 where
  pub buckets : List (List KeyValuePair)
  pub num_entries : ℕ
  pub tracker : Tracker
  pub wal_writer : Option WalWriter

-- `while (capacity < initial_capacity) capacity <<= 1;`
unfoldable pub round_up : ℕ → ℕ → ℕ → ℕ
round_up zero capacity initial = capacity
round_up (suc fuel) capacity initial =
    let more = round_up fuel (capacity * 2 % 2 ^ 64) initial in
    if ltb capacity initial then more else capacity

abbrev default_batch : ℕ
default_batch = 100

-- A log is enabled if a path is given: `some contents` is what the file holds.
unfoldable pub new : ℕ → ℕ → EvictionPolicy → Option Bytes → HashTable
unfolding round_up
new initial_capacity memory_limit policy wal = record {
  buckets = replicate (round_up 64 1 initial_capacity) [];
  num_entries = 0;
  tracker = Tracker.new policy memory_limit;
  wal_writer = Option.map (λ contents. Wal.new contents default_batch) wal;
}

unfoldable pub enable_wal : Bytes → ℕ → HashTable → HashTable
enable_wal contents batch_size t = record t { wal_writer = some (Wal.new contents batch_size) }

unfoldable pub flush_wal : HashTable → HashTable
flush_wal t = record t { wal_writer = Option.map Wal.flush t.wal_writer }

unfoldable pub wal_size : HashTable → ℕ
wal_size t = elim t.wal_writer [ none ↦ 0 | some w ↦ Wal.size w ]

-- The path is set exactly where there is a writer. The file is emptied, and the new writer has the
-- default batch size.
unfoldable pub truncate_wal : HashTable → HashTable
truncate_wal t = record t { wal_writer = Option.map (λ w. Wal.new [] default_batch) t.wal_writer }

unfoldable pub last_file : Option WalWriter → Bytes
last_file none = []
last_file (some w) = (Wal.close w).file

-- The destructor, which also destroys the writer: what the log's file then holds, if there is one. (The
-- scanner, which it stops first, is in Scanner.antt.)
unfoldable pub destroy : HashTable → Bytes
unfolding last_file
destroy t = last_file t.wal_writer

-- The bucket of a key among `n`.
unfoldable pub home : Bytes → ℕ → ℕ
home key n = hash key % n

unfoldable pub chain_of : Bytes → List (List KeyValuePair) → List KeyValuePair
unfolding get_or
chain_of key buckets = get_or buckets (home key (length buckets)) []

unfoldable pub set_chain :
    Bytes → List KeyValuePair → List (List KeyValuePair) → List (List KeyValuePair)
set_chain key chain buckets = set buckets (home key (length buckets)) chain

unfoldable pub log : WalRecord → HashTable → HashTable
log r t = record t { wal_writer = Option.map (λ w. Wal.append w r) t.wal_writer }

unfoldable pub remove_found : Bytes → Option KeyValuePair → HashTable → Bool × HashTable
remove_found key none t = (false, t)
remove_found key (some kv) t = (
  true,
  record t {
    buckets = set_chain key (Chain.erase key (chain_of key t.buckets)) t.buckets;
    num_entries = t.num_entries - 1;
    tracker = Tracker.on_delete key (length kv.value.value) t.tracker;
  },
)

abbrev pub delete_record : Bytes → WalRecord
delete_record key = record { op_type = OpType.delete; key = key; value = []; ttl_ns = 0 }

unfoldable pub remove : Bytes → HashTable → Bool × HashTable
unfolding log remove_found chain_of set_chain
remove key t =
    let t = log (delete_record key) t in
    remove_found key (Chain.find key (chain_of key t.buckets)) t

unfoldable pub is_empty : Bytes → Bool
is_empty [] = true
is_empty (c ∷ s) = false

-- The candidate of one round of the eviction loop, and the table with the policy that it leaves.
unfoldable pub next_victim : HashTable → Bytes × HashTable
next_victim t =
    let (victim, tracker) = Tracker.get_eviction_candidate t.tracker in
    (victim, record t { tracker = tracker })

unfoldable pub evict_loop : ℕ → HashTable → HashTable
unfolding next_victim is_empty
evict_loop zero t = t
evict_loop (suc fuel) t =
    let (victim, t') = next_victim t in
    let rest = evict_loop fuel (remove victim t').1 in
    if Tracker.should_evict t.tracker then (if is_empty victim then t' else rest) else t

-- A round takes a candidate away, so one round more than there are candidates is enough.
unfoldable pub evict_if_needed : HashTable → HashTable
unfolding evict_loop
evict_if_needed t = evict_loop (suc (Tracker.candidates t.tracker)) t

-- The inner loop of `rehash`, which uses the hash that each pair carries.
unfoldable pub move_chain : List KeyValuePair → List (List KeyValuePair) → List (List KeyValuePair)
unfolding get_or
move_chain [] fresh = fresh
move_chain (kv ∷ c) fresh =
    let i = kv.hash % length fresh in move_chain c (set fresh i (get_or fresh i [] ++ kv ∷ []))

unfoldable pub move_all :
    List (List KeyValuePair) → List (List KeyValuePair) → List (List KeyValuePair)
unfolding move_chain
move_all [] fresh = fresh
move_all (c ∷ cs) fresh = move_all cs (move_chain c fresh)

unfoldable pub rehash : ℕ → HashTable → HashTable
unfolding move_all replicate
rehash new_capacity t = record t { buckets = move_all t.buckets (replicate new_capacity []) }

-- `num_entries / buckets > 0.75`: exact in doubles below 2 ^ 53, since the divisor is a power of 2.
unfoldable pub resize_if_needed : HashTable → HashTable
unfolding rehash
resize_if_needed t =
    let n = length t.buckets in if ltb (3 * n) (4 * t.num_entries) then rehash (n * 2) t else t

abbrev pub set_record : Bytes → ValueEntry → WalRecord
set_record key v = record { op_type = OpType.set; key = key; value = v.value; ttl_ns = v.expiry_ns }

-- The update of a key that is there, and the insertion of one that is not.
unfoldable pub insert_found : Bytes → ValueEntry → Option KeyValuePair → HashTable → HashTable
insert_found key v (some kv) t = record t {
  buckets =
      set_chain key
        (Chain.replace key (λ kv. record kv { value = v; hash = hash key })
          (chain_of key t.buckets))
        t.buckets;
  tracker =
      Tracker.on_insert key (length v.value) v.last_access_ns v.access_count
        (Tracker.on_delete key (length kv.value.value) t.tracker);
}
insert_found key v none t = record t {
  buckets =
      set_chain key
        (chain_of key t.buckets ++ record { key = key; value = v; hash = hash key } ∷ []) t.buckets;
  num_entries = t.num_entries + 1;
  tracker = Tracker.on_insert key (length v.value) v.last_access_ns v.access_count t.tracker;
}

unfoldable pub place : Bytes → ValueEntry → HashTable → HashTable
unfolding insert_found chain_of set_chain
place key v t = insert_found key v (Chain.find key (chain_of key t.buckets)) t

-- `insert` always returns true.
unfoldable pub insert : Bytes → ValueEntry → HashTable → HashTable
unfolding log evict_if_needed resize_if_needed place
insert key v t = place key v (resize_if_needed (evict_if_needed (log (set_record key v) t)))

-- `now` is what the clock reads in the test.
unfoldable pub is_expired : ℕ → ValueEntry → Bool
is_expired now v = if v.expiry_ns == 0 then false else leb v.expiry_ns now

unfoldable pub touch : ℕ → ValueEntry → ValueEntry
touch now v = record v { access_count = (v.access_count + 1) % 2 ^ 64; last_access_ns = now }

-- The pointer that `get` returns is the entry that it points to.
unfoldable pub get_found :
    Bytes → ℕ → ℕ → Option KeyValuePair → HashTable → Option ValueEntry × HashTable
unfolding is_expired touch
get_found key now_check now_access none t = (none, t)
get_found key now_check now_access (some kv) t =
    let v = touch now_access kv.value in
    if is_expired now_check kv.value then (none, t) else (
      some v,
      record t {
        buckets =
            set_chain key
              (Chain.replace key (λ kv. record kv { value = touch now_access kv.value })
                (chain_of key t.buckets))
              t.buckets;
        tracker = Tracker.on_access key v.last_access_ns v.access_count t.tracker;
      },
    )

-- `now_check` is the clock at the expiry test, `now_access` at the update of the metadata.
unfoldable pub get : Bytes → ℕ → ℕ → HashTable → Option ValueEntry × HashTable
unfolding get_found chain_of set_chain
get key now_check now_access t =
    get_found key now_check now_access (Chain.find key (chain_of key t.buckets)) t

unfoldable pub size : HashTable → ℕ
size t = t.num_entries

unfoldable pub empty : HashTable → Bool
empty t = t.num_entries == 0
