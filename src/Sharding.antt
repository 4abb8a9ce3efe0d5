-- ===== src/Sharding.antt =====
-- The synchronous sharded engine: engine/include/sharded_engine_sync.h. Every method holds the
-- mutex of its shard from the first access to the last, so it is one step here.
pub mod Routed
use distributed_in_memory_kv.Prelude.{
  ℕ, zero, suc, ◌+◌, ◌-◌, ◌*◌, ◌/◌, ◌%◌, ◌^◌, Bool, Option, none, List, [], ◌∷◌, Bytes, length,
  get_or, set, replicate, bit_xor,
}
use distributed_in_memory_kv.Policy.Tracker.{EvictionPolicy}
use distributed_in_memory_kv.HashTable
use distributed_in_memory_kv.HashTable.{HashTable}
use distributed_in_memory_kv.HashTable.Chain.{ValueEntry}

abbrev u32_mod : ℕ
u32_mod = 2 ^ 32

-- `(x << r) | (x >> (32 - r))`, where the two parts share no bit
unfoldable pub rotate_left : ℕ → ℕ → ℕ
rotate_left r x = x * 2 ^ r % u32_mod + x / 2 ^ (32 - r)

-- The loop of murmur3_hash over the bytes of the key.
unfoldable pub murmur_bytes : ℕ → Bytes → ℕ
unfolding rotate_left
murmur_bytes hash [] = hash
murmur_bytes hash (c ∷ s) =
    let k = rotate_left 15 (c * 0xcc9e2d51 % u32_mod) * 0x1b873593 % u32_mod in
    murmur_bytes ((rotate_left 13 (bit_xor hash k) * 5 + 0xe6546b64) % u32_mod) s

-- `hash ^= len` truncates the length to 32 bits.
unfoldable pub murmur3_hash : Bytes → ℕ
unfolding murmur_bytes
murmur3_hash key =
    let h = bit_xor (murmur_bytes 0 key) (length key % u32_mod) in
    let h = bit_xor h (h / 2 ^ 16) * 0x85ebca6b % u32_mod in
    let h = bit_xor h (h / 2 ^ 13) * 0xc2b2ae35 % u32_mod in bit_xor h (h / 2 ^ 16)

pub record ShardedEngineSync : Type 0 where
  pub num_shards : ℕ
  pub shards : List HashTable

unfoldable pub new : ℕ → ℕ → EvictionPolicy → ShardedEngineSync
new num_shards memory_limit_per_shard policy = record {
  num_shards = num_shards;
  shards = replicate num_shards (HashTable.new 16 memory_limit_per_shard policy none);
}

unfoldable pub get_shard_id : Bytes → ShardedEngineSync → ℕ
unfolding murmur3_hash
get_shard_id key e = murmur3_hash key % e.num_shards

-- `shards_[shard_id]`; the default stands for an index that does not occur.
unfoldable pub shard_of : Bytes → ShardedEngineSync → HashTable
unfolding get_shard_id
shard_of key e = get_or e.shards (get_shard_id key e) (HashTable.new 16 0 EvictionPolicy.lru none)

unfoldable pub set_shard : Bytes → HashTable → ShardedEngineSync → ShardedEngineSync
unfolding get_shard_id
set_shard key t e = record e { shards = set e.shards (get_shard_id key e) t }

unfoldable pub get : Bytes → ℕ → ℕ → ShardedEngineSync → Option ValueEntry × ShardedEngineSync
unfolding shard_of set_shard
get key now_check now_access e =
    let (found, t) = HashTable.get key now_check now_access (shard_of key e) in
    (found, set_shard key t e)

unfoldable pub put : Bytes → ValueEntry → ShardedEngineSync → ShardedEngineSync
unfolding shard_of set_shard
put key v e = set_shard key (HashTable.insert key v (shard_of key e)) e

unfoldable pub remove : Bytes → ShardedEngineSync → Bool × ShardedEngineSync
unfolding shard_of set_shard
remove key e =
    let (removed, t) = HashTable.remove key (shard_of key e) in (removed, set_shard key t e)

total : List HashTable → ℕ
total [] = 0
total (t ∷ ts) = HashTable.size t + total ts

unfoldable pub total_entries : ShardedEngineSync → ℕ
unfolding total
total_entries e = total e.shards
