-- ===== src/Tests/Policies.antt =====
-- Small states of the eviction policies (engine/src/lru_policy.cpp, engine/src/lfu_policy.cpp).
use distributed_in_memory_kv.Prelude.{
  ℕ, ◌≤◌, List, some, ◌≡◌, ◌≢◌, refl, none, [], ◌∷◌, arith, codes, str_eq,
}
use distributed_in_memory_kv.Policy.StringMap.{find, assign}
use distributed_in_memory_kv.Policy.Lru
use distributed_in_memory_kv.Policy.Lru.{LruPolicy}
use distributed_in_memory_kv.Policy.Lru.Order.{
  IsValid, uses, uses_of, without, find_use, access_use, new-IsValid, on_insert-Acts,
}
use distributed_in_memory_kv.Policy.Tracker
use distributed_in_memory_kv.Policy.Tracker.{
  EvictionPolicy, Tracker, on_insert, on_delete, get_eviction_candidate, candidates,
}
use distributed_in_memory_kv.Policy.Lfu
use distributed_in_memory_kv.Policy.Lfu.{LfuPolicy}
use distributed_in_memory_kv.Policy.Lfu.Least.{start, inserted, accessed, least_frequent}
use distributed_in_memory_kv.Policy.Lru.Runs.{
  PolicyCall, apply_all, use_all, Keeps, apply_all-Keeps,
}
use distributed_in_memory_kv.Policy.Accounts.{IsSound, new-IsSound, tracks-new, on_insert-After}

abbrev one_use : LruPolicy
one_use = Lru.on_insert (codes "a") 3 7 (Lru.new 10)

none_used : find_use (codes "a") (uses (Lru.new 10)) ≡ none
unfolding Lru.new find_use uses_of
none_used = refl

one_use-IsValid : IsValid one_use
one_use-IsValid = (on_insert-Acts (codes "a") 3 7 (new-IsValid 10) none_used).valid

fresh_b : find_use (codes "b") (uses one_use) ≡ none
unfolding Lru.new find_use Lru.on_insert uses_of str_eq
fresh_b = refl

abbrev two_uses : LruPolicy
two_uses = Lru.on_insert (codes "b") 4 8 one_use

two_uses-IsValid : IsValid two_uses
two_uses-IsValid = (on_insert-Acts (codes "b") 4 8 one_use-IsValid fresh_b).valid

abbrev empty_lfu : Tracker
empty_lfu = Tracker.new EvictionPolicy.lfu 10

abbrev one_lfu : Tracker
one_lfu = on_insert (codes "a") 3 0 1 empty_lfu

one_lfu-IsSound : IsSound one_lfu
one_lfu-IsSound =
    (on_insert-After (codes "a") 3 0 1 (new-IsSound EvictionPolicy.lfu 10)
      (tracks-new (codes "a") EvictionPolicy.lfu 10)).sound

one_candidate_a : (get_eviction_candidate one_lfu).0 ≡ codes "a"
unfolding get_eviction_candidate on_insert Tracker.new Lfu.new Lfu.on_insert
    Lfu.get_eviction_candidate Lfu.pop_current Lfu.is_current Lfu.push find str_eq assign
one_candidate_a = refl

one_candidate : (get_eviction_candidate one_lfu).0 ≢ []
one_candidate = λ e. ground (arith, e, one_candidate_a)

none_left : (get_eviction_candidate empty_lfu).0 ≡ []
unfolding get_eviction_candidate Tracker.new Lfu.new Lfu.get_eviction_candidate Lfu.pop_current
none_left = refl

-- One key is written, another one too, the first is read and the second is deleted.
abbrev lru_calls : List PolicyCall
lru_calls =
    PolicyCall.put (codes "a") 0 3 7
    ∷ PolicyCall.put (codes "b") 0 4 8
    ∷ PolicyCall.access (codes "a") 9
    ∷ PolicyCall.delete (codes "b") 4
    ∷ []

apply_all-Keeps_example : Keeps (use_all lru_calls []) (apply_all lru_calls (Lru.new 10))
apply_all-Keeps_example = apply_all-Keeps 10 lru_calls

-- The calls leave the first key, with the time of its reading.
lru_calls_leave :
    use_all lru_calls [] ≡ record { key = codes "a"; last_access_ns = 9; value_size = 3 } ∷ []
unfolding use_all without access_use find_use str_eq
lru_calls_leave = refl

abbrev two_counts : LfuPolicy
two_counts =
    Lfu.on_access (codes "a") 2
      (Lfu.on_insert (codes "b") 4 1 (Lfu.on_insert (codes "a") 3 0 (Lfu.new 10)))

a_counted : find (codes "a") two_counts.key_to_count ≡ some 2
unfolding Lfu.new Lfu.on_insert Lfu.on_access find assign str_eq
a_counted = refl

least_frequent_example :
    (c : ℕ) × (find (Lfu.get_eviction_candidate two_counts).0 two_counts.key_to_count ≡ some c)
    × (c ≤ 2)
least_frequent_example =
    least_frequent (codes "a") 2
      (accessed (codes "a") 2
        (inserted (codes "b") 4 1 (λ e. cc) (inserted (codes "a") 3 0 (λ e. cc) (start 10))))
      a_counted
