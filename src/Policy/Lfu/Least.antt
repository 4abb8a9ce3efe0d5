-- ===== src/Policy/Lfu/Least.antt =====
-- The candidate of LFUPolicy (engine/src/lfu_policy.cpp) at any time in the life of the policy.
use distributed_in_memory_kv.Prelude.{
  ℕ, ◌≤◌, ◌≡◌, ◌≢◌, refl, none, ◌∙◌, ap, inl, inr, some, [], Bytes, arith, str_eq_iff, Option-cases,
}
use distributed_in_memory_kv.Policy.StringMap.{find, find-assign, find-erase}
use distributed_in_memory_kv.Policy.Lfu.{
  LfuPolicy, new, access_tracked, on_access, on_insert, on_delete, get_eviction_candidate,
  index_or_zero, delete_tracked,
}
use distributed_in_memory_kv.Policy.Lfu.Complete.{
  IsComplete, new-IsComplete, on_insert-IsComplete, on_access-IsComplete, on_delete-IsComplete,
  candidate-IsCompleteBut, heap-on_delete, pop_current-Pops,
}
use distributed_in_memory_kv.Policy.Lfu.Sorted.{IsSorted, push-IsSorted, pop_current-Least}

-- The states of the policy under a table that never inserts the empty key: it is told of insertions,
-- accesses and deletions, and is asked for candidates. The table deletes a candidate; the empty string
-- says that there is none, and then the policy is left as the question left it.
pub data Reachable : LfuPolicy → Type 0 where
  start : (limit : ℕ) → Reachable (new limit)
  inserted :
      (key : Bytes) (value_size access_count : ℕ) {p : LfuPolicy}
      → key ≢ []
      → Reachable p
      → Reachable (on_insert key value_size access_count p)
  accessed :
      (key : Bytes) (access_count : ℕ) {p : LfuPolicy}
      → Reachable p
      → Reachable (on_access key access_count p)
  deleted :
      (key : Bytes) (value_size : ℕ) {p : LfuPolicy}
      → Reachable p
      → Reachable (on_delete key value_size p)
  evicted :
      (value_size : ℕ) {p : LfuPolicy}
      → Reachable p
      → Reachable (on_delete (get_eviction_candidate p).0 value_size (get_eviction_candidate p).1)
  gave_none :
      {p : LfuPolicy}
      → Reachable p
      → (get_eviction_candidate p).0 ≡ []
      → Reachable (get_eviction_candidate p).1

on_insert-empty :
    (key : Bytes) (size count : ℕ) (p : LfuPolicy)
    → key ≢ []
    → find [] p.key_to_count ≡ none
    → find [] (on_insert key size count p).key_to_count ≡ none
unfolding on_insert
on_insert-empty key size count p named e =
    ground (arith, find-assign key [] count p.key_to_count, str_eq_iff key [])

on_access-empty :
    (key : Bytes) (count : ℕ) (p : LfuPolicy)
    → find [] p.key_to_count ≡ none
    → find [] (on_access key count p).key_to_count ≡ none
unfolding on_access access_tracked
on_access-empty key count p none_there = elim (Option-cases (find key p.key_to_count)) [
  | inl e ↦ rw e none_there
  | inr (old, e) ↦ rw e (
      ground (
        arith,
        find-assign key [] count p.key_to_count,
        str_eq_iff key [],
        ap (λ k. find k p.key_to_count),
      ))
]

on_delete-empty :
    (key : Bytes) (size : ℕ) (p : LfuPolicy)
    → find [] p.key_to_count ≡ none
    → find [] (on_delete key size p).key_to_count ≡ none
unfolding on_delete delete_tracked
on_delete-empty key size p none_there = elim (Option-cases (find key p.key_to_count)) [
  | inl e ↦ rw e none_there
  | inr (old, e) ↦ rw e (ground (arith, find-erase key [] p.key_to_count))
]

-- Without a candidate no key is tracked.
none-IsComplete :
    {p : LfuPolicy}
    → IsComplete p
    → find [] p.key_to_count ≡ none
    → (get_eviction_candidate p).0 ≡ []
    → IsComplete (get_eviction_candidate p).1
unfolding get_eviction_candidate
none-IsComplete {p} complete unnamed e =
    let pops = pop_current-Pops p.key_to_count p.heap in
    record {
      entries = λ q n f.
          let gone = pops.exhausted e unnamed q n f in let there = complete.entries q n f in cc;
    }

on_access-IsSorted :
    (key : Bytes) (count : ℕ) (p : LfuPolicy)
    → IsSorted p.heap
    → IsSorted (on_access key count p).heap
unfolding on_access access_tracked
on_access-IsSorted key count p s = elim (Option-cases (find key p.key_to_count)) [
  | inl e ↦ rw e s
  | inr (old, e) ↦ rw e (
      push-IsSorted
        (record {
          key = key;
          access_count = count;
          value_size = (index_or_zero key p.key_to_size).0;
        })
        p.heap s)
]

on_insert-IsSorted :
    (key : Bytes) (size count : ℕ) (p : LfuPolicy)
    → IsSorted p.heap
    → IsSorted (on_insert key size count p).heap
unfolding on_insert
on_insert-IsSorted key size count p s =
    push-IsSorted (record { key = key; access_count = count; value_size = size }) p.heap s

on_delete-IsSorted :
    (key : Bytes) (size : ℕ) (p : LfuPolicy)
    → IsSorted p.heap
    → IsSorted (on_delete key size p).heap
on_delete-IsSorted key size p s = rw (heap-on_delete key size p) s

candidate-IsSorted : (p : LfuPolicy) → IsSorted p.heap → IsSorted (get_eviction_candidate p).1.heap
unfolding get_eviction_candidate
candidate-IsSorted p s = (pop_current-Least p.key_to_count p.heap s).sorted

record IsLfu (p : LfuPolicy) : Type 0 where
  complete : IsComplete p
  sorted : IsSorted p.heap
  unnamed : find [] p.key_to_count ≡ none

counts_after : (p : LfuPolicy) → (get_eviction_candidate p).1.key_to_count ≡ p.key_to_count
unfolding get_eviction_candidate
counts_after p = refl

Reachable-IsLfu : {p : LfuPolicy} → Reachable p → IsLfu p
Reachable-IsLfu (start limit) = record {
  complete = new-IsComplete limit;
  sorted = unfold new in tt;
  unnamed = unfold new find in refl;
}
Reachable-IsLfu (inserted key size count {p} named r) =
    let s = Reachable-IsLfu r in
    record {
      complete = on_insert-IsComplete key size count s.complete;
      sorted = on_insert-IsSorted key size count p s.sorted;
      unnamed = on_insert-empty key size count p named s.unnamed;
    }
Reachable-IsLfu (accessed key count {p} r) =
    let s = Reachable-IsLfu r in
    record {
      complete = on_access-IsComplete key count s.complete;
      sorted = on_access-IsSorted key count p s.sorted;
      unnamed = on_access-empty key count p s.unnamed;
    }
Reachable-IsLfu (deleted key size {p} r) =
    let s = Reachable-IsLfu r in
    record {
      complete = on_delete-IsComplete key size p (λ q n _ f. s.complete.entries q n f);
      sorted = on_delete-IsSorted key size p s.sorted;
      unnamed = on_delete-empty key size p s.unnamed;
    }
Reachable-IsLfu (evicted size {p} r) =
    let s = Reachable-IsLfu r in
    let (key, left) = get_eviction_candidate p in
    record {
      complete = on_delete-IsComplete key size left (candidate-IsCompleteBut s.complete);
      sorted = on_delete-IsSorted key size left (candidate-IsSorted p s.sorted);
      unnamed = on_delete-empty key size left (ap (find []) (counts_after p) ∙ s.unnamed);
    }
Reachable-IsLfu (gave_none {p} r e) =
    let s = Reachable-IsLfu r in
    record {
      complete = none-IsComplete s.complete s.unnamed e;
      sorted = candidate-IsSorted p s.sorted;
      unnamed = ap (find []) (counts_after p) ∙ s.unnamed;
    }

-- The policy of a table that never inserts the empty key, at any time: if a key is tracked, the candidate
-- is a tracked key, and its access count is at most that of the key.
pub least_frequent :
    {p : LfuPolicy} (q : Bytes) (m : ℕ)
    → Reachable p
    → find q p.key_to_count ≡ some m
    → (c : ℕ) × (find (get_eviction_candidate p).0 p.key_to_count ≡ some c) × (c ≤ m)
unfolding get_eviction_candidate
least_frequent {p} q m r f =
    let s = Reachable-IsLfu r in
    (pop_current-Least p.key_to_count p.heap s.sorted).least q m f (s.complete.entries q m f)
