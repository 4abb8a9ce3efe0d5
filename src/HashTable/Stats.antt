-- ===== src/HashTable/Stats.antt =====
-- The statistics of the table (`get_stats` of engine/src/hash_table.cpp). The load factor is the
-- pair that the source divides.
use distributed_in_memory_kv.Prelude.{
  ℕ, zero, suc, ◌+◌, ◌-◌, ◌≤◌, ◌≡◌, refl, true, List, [], ◌∷◌, arith, flatten, length,
  length-append, get_or, ltb, if◌then◌else◌,
}
use Prim.Native.Nat.{max}
use distributed_in_memory_kv.HashTable.Chain.{KeyValuePair}
use distributed_in_memory_kv.HashTable.{HashTable}
use distributed_in_memory_kv.HashTable.Valid.{IsValid}

pub record HashTableStats : Type 0 where
  pub num_entries : ℕ
  pub num_buckets : ℕ
  pub load_factor : ℕ × ℕ
  pub num_collisions : ℕ
  pub max_chain_length : ℕ

-- The loop over the buckets, from the two counts so far.
unfoldable pub count_chains : ℕ × ℕ → List (List KeyValuePair) → ℕ × ℕ
count_chains counts [] = counts
count_chains (collisions, longest) (c ∷ cs) =
    let n = length c in
    count_chains (if ltb 1 n then collisions + (n - 1) else collisions, max longest n) cs

unfoldable pub get_stats : HashTable → HashTableStats
unfolding count_chains
get_stats t =
    let (collisions, longest) = count_chains (0, 0) t.buckets in
    record {
      num_entries = t.num_entries;
      num_buckets = length t.buckets;
      load_factor = (t.num_entries, length t.buckets);
      num_collisions = collisions;
      max_chain_length = longest;
    }

-- How many buckets are not empty.
unfoldable pub occupied : List (List KeyValuePair) → ℕ
occupied [] = 0
occupied ([] ∷ cs) = occupied cs
occupied ((kv ∷ c) ∷ cs) = suc (occupied cs)

count_chains-collisions :
    (collisions longest : ℕ) (cs : List (List KeyValuePair))
    → (count_chains (collisions, longest) cs).0 + occupied cs ≡ collisions + length (flatten cs)
unfolding count_chains occupied flatten
count_chains-collisions k l [] = refl
count_chains-collisions k l ([] ∷ cs) = count_chains-collisions k _ cs
count_chains-collisions k l ((kv ∷ []) ∷ cs) = omega (arith, count_chains-collisions k (max l 1) cs)
count_chains-collisions k l ((kv ∷ kv' ∷ c) ∷ cs) =
    let n = suc (suc (length c)) in
    let many : ltb 1 n ≡ true = ground arith in
    rw many (
      omega
        (arith, count_chains-collisions (k + (n - 1)) (max l n) cs, length-append c (flatten cs)))

count_chains-longest :
    (collisions longest i : ℕ) (cs : List (List KeyValuePair))
    → (longest ≤ (count_chains (collisions, longest) cs).1)
      × (length (get_or cs i []) ≤ (count_chains (collisions, longest) cs).1)
unfolding count_chains get_or
count_chains-longest k l i [] = (omega arith, omega arith)
count_chains-longest k l zero (c ∷ cs) =
    let ih =
      count_chains-longest (if ltb 1 (length c) then k + (length c - 1) else k) (max l (length c)) 0
        cs in
    (omega (arith, ih.0), omega (arith, ih.0))
count_chains-longest k l (suc i) (c ∷ cs) =
    let ih =
      count_chains-longest (if ltb 1 (length c) then k + (length c - 1) else k) (max l (length c)) i
        cs in
    (omega (arith, ih.0), ih.1)

-- The statistics of a valid table: every bucket that is not empty holds one pair that is no
-- collision, so that the collisions and these buckets together are the entries; and no chain is
-- longer than the longest that is reported.
pub get_stats-counts :
    (t : HashTable)
    → IsValid t
    → ((get_stats t).num_collisions + occupied t.buckets ≡ (get_stats t).num_entries)
      × ((i : ℕ) → length (get_or t.buckets i []) ≤ (get_stats t).max_chain_length)
unfolding get_stats
get_stats-counts t v = (
  omega (arith, count_chains-collisions 0 0 t.buckets, v.counted),
  λ i. (count_chains-longest 0 0 i t.buckets).1,
)
