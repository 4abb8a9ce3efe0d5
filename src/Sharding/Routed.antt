-- ===== src/Sharding/Routed.antt =====
-- The shards together are one map (`get`, `set`, `remove` of engine/include/sharded_engine_sync.h).
use distributed_in_memory_kv.Prelude.{
  ℕ, ◌<◌, ◌≡◌, refl, ap, ◌∙◌, ◌⊎◌, inl, inr, Option, none, some, Bytes, arith, length, get_or,
  length-set, get_or-set, length-replicate, replicate, zero, suc, ◌==◌, if◌then◌else◌, str_eq,
  str_eq_iff, Bool, true, Bool-cases,
}
use distributed_in_memory_kv.HashTable
use distributed_in_memory_kv.HashTable.{HashTable}
use distributed_in_memory_kv.HashTable.Chain.{ValueEntry}
use distributed_in_memory_kv.HashTable.Valid.{IsValid, lookup, remove-Updates, remove-found, found?}
use distributed_in_memory_kv.HashTable.Methods.{insert-Inserts}
use distributed_in_memory_kv.HashTable.Fresh.{new-IsValid}
use distributed_in_memory_kv.Policy.Tracker.{EvictionPolicy}
use distributed_in_memory_kv.Sharding
use distributed_in_memory_kv.Sharding.{
  ShardedEngineSync, get_shard_id, shard_of, set_shard, put, remove,
}

-- There is a shard for every index, and every shard that a key is routed to is valid.
pub record IsRouted (e : ShardedEngineSync) : Type 0 where
  pub wide : 0 < e.num_shards
  pub full : length e.shards ≡ e.num_shards
  pub valid : (q : Bytes) → IsValid (shard_of q e)

-- The map that the engine stands for.
unfoldable pub read : Bytes → ShardedEngineSync → Option ValueEntry
read q e = lookup q (shard_of q e)

shard_of-set_shard :
    (k q : Bytes) (t : HashTable) {e : ShardedEngineSync}
    → IsRouted e
    → shard_of q (set_shard k t e)
      ≡ (if get_shard_id k e == get_shard_id q e then t else shard_of q e)
unfolding shard_of set_shard get_shard_id
shard_of-set_shard k q t {e} r =
    get_or-set e.shards (get_shard_id k e) (get_shard_id q e) t _ (omega (arith, r.full, r.wide))

set_shard-IsRouted :
    (k : Bytes) (t : HashTable) {e : ShardedEngineSync}
    → IsRouted e
    → IsValid t
    → IsRouted (set_shard k t e)
set_shard-IsRouted k t {e} r v = record {
  wide = unfold set_shard in r.wide;
  full = unfold set_shard in length-set e.shards (get_shard_id k e) t ∙ r.full;
  valid = λ q. elim (Bool-cases (get_shard_id k e == get_shard_id q e)) [
    | inl same ↦ rw (shard_of-set_shard k q t r, same) v
    | inr other ↦ rw (shard_of-set_shard k q t r, other) (r.valid q)
  ];
}

-- The engine reads as its new shard does for the keys routed there, and else as before.
read-set_shard :
    (k q : Bytes) (t : HashTable) {e : ShardedEngineSync}
    → IsRouted e
    → read q (set_shard k t e)
      ≡ (if get_shard_id k e == get_shard_id q e then lookup q t else read q e)
unfolding read
read-set_shard k q t {e} r = rw (shard_of-set_shard k q t r) (ground arith)

-- Two keys with the same shard are looked up in the same table.
same_shard :
    (k q : Bytes) (e : ShardedEngineSync)
    → (get_shard_id k e == get_shard_id q e) ≡ true
    → shard_of q e ≡ shard_of k e
unfolding shard_of
same_shard k q e h = let same : get_shard_id k e ≡ get_shard_id q e = ground arith in rw same

-- What `set` leaves.
pub record Puts (k : Bytes) (v : ValueEntry) (e e' : ShardedEngineSync) : Type 0 where
  pub routed : IsRouted e'
  pub stored : read k e' ≡ some v
  pub others : (q : Bytes) → (q ≡ k) ⊎ ((read q e' ≡ read q e) ⊎ (read q e' ≡ none))
  pub apart : (q : Bytes) → (get_shard_id q e ≡ get_shard_id k e) ⊎ (read q e' ≡ read q e)

-- After `set` on a routed engine the engine is routed and holds the entry under its key; every other key reads as
-- before or has been evicted, and a key of another shard reads as before.
pub put-Puts :
    (k : Bytes) (v : ValueEntry) {e : ShardedEngineSync} → IsRouted e → Puts k v e (put k v e)
unfolding put
put-Puts k v {e} r =
    let t = HashTable.insert k v (shard_of k e) in
    let i = insert-Inserts k v (r.valid k) in
    record {
      routed = set_shard-IsRouted k t r i.valid;
      stored = read-set_shard k k t r ∙ ground (arith, i.stored);
      others = λ q. elim (Bool-cases (get_shard_id k e == get_shard_id q e)) [
        | inl same ↦
            let here : read q e ≡ lookup q (shard_of k e) =
              unfold read in ap (lookup q) (same_shard k q e same) in
            rw (read-set_shard k q t r, same, here) (i.others q)
        | inr other ↦ inr (inl (read-set_shard k q t r ∙ rw other refl))
      ];
      apart = λ q. elim (Bool-cases (get_shard_id k e == get_shard_id q e)) [
        | inl same ↦ inl (ground arith)
        | inr other ↦ inr (read-set_shard k q t r ∙ rw other refl)
      ];
    }

-- What `remove` answers and leaves.
pub record Removes (k : Bytes) (e : ShardedEngineSync) (r : Bool × ShardedEngineSync) : Type 0 where
  pub routed : IsRouted r.1
  pub result : r.0 ≡ found? (read k e)
  pub reads : (q : Bytes) → read q r.1 ≡ (if str_eq k q then none else read q e)

-- `remove` on a routed engine answers whether the key was there, takes it out of the engine and
-- leaves every other key as it was.
pub remove-Removes : (k : Bytes) {e : ShardedEngineSync} → IsRouted e → Removes k e (remove k e)
unfolding remove
remove-Removes k {e} r =
    let t = (HashTable.remove k (shard_of k e)).1 in
    let u = remove-Updates k (r.valid k) in
    record {
      routed = set_shard-IsRouted k t r u.valid;
      result = unfold read in remove-found k (shard_of k e);
      reads = λ q. elim (Bool-cases (get_shard_id k e == get_shard_id q e)) [
        | inl same ↦
            let here : read q e ≡ lookup q (shard_of k e) =
              unfold read in ap (lookup q) (same_shard k q e same) in
            read-set_shard k q t r ∙ rw (same, here) (u.reads q)
        | inr other ↦ read-set_shard k q t r ∙ ground (arith, str_eq_iff k q)
      ];
    }

get_or-replicate_lt {ℓ} : {A : Type ℓ} (n i : ℕ) (a d : A) → i < n → get_or (replicate n a) i d ≡ a
unfolding replicate get_or
get_or-replicate_lt zero i a d h = absurd (omega arith)
get_or-replicate_lt (suc n) zero a d h = refl
get_or-replicate_lt (suc n) (suc i) a d h = get_or-replicate_lt n i a d (omega arith)

-- A new engine with at least one shard is routed and holds nothing.
pub new-IsRouted :
    (n memory_limit : ℕ) (policy : EvictionPolicy)
    → 0 < n
    → let e = Sharding.new n memory_limit policy in IsRouted e × ((q : Bytes) → read q e ≡ none)
unfolding Sharding.new read shard_of
new-IsRouted n memory_limit policy pos =
    let shard = HashTable.new 16 memory_limit policy none in
    let same : (q : Bytes) → shard_of q (Sharding.new n memory_limit policy) ≡ shard = λ q.
      get_or-replicate_lt n (get_shard_id q (Sharding.new n memory_limit policy)) shard _
        (unfold get_shard_id in omega arith) in
    let (valid, _, _, nothing) = new-IsValid 16 memory_limit policy none (omega arith) in
    (
      record { wide = pos; full = length-replicate n shard; valid = λ q. rw (same q) valid },
      λ q. ap (lookup q) (same q) ∙ nothing q,
    )
