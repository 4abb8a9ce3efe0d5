-- ===== src/Hash.antt =====
-- The 64-bit hash of a key, as HashTable::hash (engine/src/hash_table.cpp) and
-- ShardedEngine::get_shard_id (engine/src/sharded_engine.cpp) both write it out.
use distributed_in_memory_kv.Prelude.{ℕ, ◌*◌, ◌/◌, ◌%◌, ◌^◌, [], ◌∷◌, Bytes, bit_xor}

abbrev pub u64_mod : ℕ
u64_mod = 2 ^ 64

-- `h ^= c; h *= 0x100000001b3ULL;` for each byte
unfoldable pub mix_bytes : ℕ → Bytes → ℕ
mix_bytes h [] = h
mix_bytes h (c ∷ s) = mix_bytes (bit_xor h c * 0x100000001b3 % u64_mod) s

-- `h ^= h >> 33`
unfoldable pub fold_high : ℕ → ℕ
fold_high h = bit_xor h (h / 2 ^ 33)

unfoldable pub finish : ℕ → ℕ
unfolding fold_high
finish h =
    let h = fold_high h in
    let h = h * 0xff51afd7ed558ccd % u64_mod in
    let h = fold_high h in let h = h * 0xc4ceb9fe1a85ec53 % u64_mod in fold_high h

unfoldable pub hash : Bytes → ℕ
unfolding mix_bytes finish
hash key = finish (mix_bytes 0x9e3779b97f4a7c15 key)
