-- ===== src/Policy/Lfu.antt =====
-- Least frequently used: engine/include/lfu_policy.h and engine/src/lfu_policy.cpp.
-- The `std::priority_queue` is the list of its elements in the order in which `top` gives them:
-- by access count, the smallest first. The standard leaves open which of two elements with one
-- count comes first; here the one pushed earlier does.
pub mod Complete
pub mod Sorted
pub mod Least
use distributed_in_memory_kv.Prelude.{
  ℕ, suc, ◌+◌, ◌%◌, ◌^◌, Bool, true, false, Option, none, some, List, [], ◌∷◌, Bytes, ltb, ◌==◌,
  if◌then◌else◌,
}
use distributed_in_memory_kv.Policy.StringMap.{StringMap, find, erase, assign}
use distributed_in_memory_kv.Policy.Lru.{release}
use mathlib.Core.Option.{get_or}

pub record Entry : Type 0 where
  pub key : Bytes
  pub access_count : ℕ
  pub value_size : ℕ

pub record LfuPolicy : Type 0 where
  pub memory_limit : ℕ
  pub current_memory : ℕ
  pub heap : List Entry
  pub key_to_count : StringMap ℕ
  pub key_to_size : StringMap ℕ

unfoldable pub new : ℕ → LfuPolicy
new memory_limit = record {
  memory_limit = memory_limit;
  current_memory = 0;
  heap = [];
  key_to_count = [];
  key_to_size = [];
}

unfoldable pub push : Entry → List Entry → List Entry
push e [] = e ∷ []
push e (x ∷ h) = if ltb e.access_count x.access_count then e ∷ x ∷ h else x ∷ push e h

-- `key_to_size_[key]` makes an entry 0 where there is none.
unfoldable pub index_or_zero : Bytes → StringMap ℕ → ℕ × StringMap ℕ
index_or_zero key m = elim (find key m) [ none ↦ (0, assign key 0 m) | some n ↦ (n, m) ]

access_tracked : Bytes → ℕ → Option ℕ → LfuPolicy → LfuPolicy
unfolding push index_or_zero
access_tracked key access_count none p = p
access_tracked key access_count (some old) p =
    let (value_size, sizes) = index_or_zero key p.key_to_size in
    record p {
      key_to_count = assign key access_count p.key_to_count;
      key_to_size = sizes;
      heap =
          push (record { key = key; access_count = access_count; value_size = value_size }) p.heap;
    }

unfoldable pub on_access : Bytes → ℕ → LfuPolicy → LfuPolicy
unfolding access_tracked
on_access key access_count p = access_tracked key access_count (find key p.key_to_count) p

unfoldable pub on_insert : Bytes → ℕ → ℕ → LfuPolicy → LfuPolicy
on_insert key value_size access_count p = record p {
  key_to_count = assign key access_count p.key_to_count;
  key_to_size = assign key value_size p.key_to_size;
  heap = push (record { key = key; access_count = access_count; value_size = value_size }) p.heap;
  current_memory = (p.current_memory + value_size) % 2 ^ 64;
}

delete_tracked : Bytes → ℕ → Option ℕ → LfuPolicy → LfuPolicy
delete_tracked key value_size none p = p
delete_tracked key value_size (some old) p = record p {
  key_to_count = erase key p.key_to_count;
  key_to_size = erase key p.key_to_size;
  current_memory = release p.current_memory value_size;
}

unfoldable pub on_delete : Bytes → ℕ → LfuPolicy → LfuPolicy
unfolding delete_tracked
on_delete key value_size p = delete_tracked key value_size (find key p.key_to_count) p

-- `it != end() && it->second == top.access_count`
unfoldable pub is_current : StringMap ℕ → Entry → Bool
is_current counts top = elim (find top.key counts) [ none ↦ false | some n ↦ n == top.access_count ]

-- The loop that pops stale entries: the candidate, and the heap that is left.
unfoldable pub pop_current : StringMap ℕ → List Entry → Bytes × List Entry
pop_current counts [] = ([], [])
pop_current counts (top ∷ h) =
    let rest = pop_current counts h in if is_current counts top then (top.key, h) else rest

unfoldable pub get_eviction_candidate : LfuPolicy → Bytes × LfuPolicy
get_eviction_candidate p =
    let (candidate, h) = pop_current p.key_to_count p.heap in (candidate, record p { heap = h })

unfoldable pub should_evict : LfuPolicy → Bool
should_evict p = ltb p.memory_limit p.current_memory
