-- ===== src/Policy/Accounts.antt =====
-- What the hash table relies on, whichever policy it has: which keys are tracked, how many bytes
-- they account for, and that under pressure there is a candidate.
use distributed_in_memory_kv.Prelude.{
  ℕ, ◌+◌, ◌%◌, ◌^◌, ◌≡◌, refl, ◌↔◌, Bool, true, false, ◌||◌, Option, none, some, Bytes, arith,
  str_eq, str_eq_iff, ltb, if◌then◌else◌,
}
use distributed_in_memory_kv.Policy.StringMap.{find, find-erase, find-assign}
use distributed_in_memory_kv.Policy.Lru
use distributed_in_memory_kv.Policy.Lru.{LruPolicy, release}
use distributed_in_memory_kv.Policy.Lru.Order
use distributed_in_memory_kv.Policy.Lfu
use distributed_in_memory_kv.Policy.Lfu.{LfuPolicy}
use distributed_in_memory_kv.Policy.Lfu.Complete.{
  IsComplete, IsCompleteBut, new-IsComplete, on_insert-IsComplete, on_access-IsComplete,
  on_delete-IsComplete,
}
use distributed_in_memory_kv.Policy.Tracker.{
  EvictionPolicy, lru, lfu, Tracker, by_lru, by_lfu, new, on_insert, on_access, on_delete,
  should_evict,
}

abbrev pub is_some : Option ℕ → Bool
is_some none = false
is_some (some n) = true

unfoldable pub tracks : Bytes → Tracker → Bool
tracks q (by_lru p) = is_some (find q p.key_to_iter)
tracks q (by_lfu p) = is_some (find q p.key_to_count)

unfoldable pub memory : Tracker → ℕ
memory (by_lru p) = p.current_memory
memory (by_lfu p) = p.current_memory

unfoldable pub limit : Tracker → ℕ
limit (by_lru p) = p.memory_limit
limit (by_lfu p) = p.memory_limit

pub should_evict_lem : (tr : Tracker) → should_evict tr ≡ ltb (limit tr) (memory tr)
unfolding should_evict limit memory Lru.should_evict Lfu.should_evict
should_evict_lem (by_lru p) = refl
should_evict_lem (by_lfu p) = refl

-- Well formed, but for what concerns one key.
abbrev pub IsSoundBut : Bytes → Tracker → Type 0
IsSoundBut k (by_lru p) = Order.IsValid p
IsSoundBut k (by_lfu p) = IsCompleteBut k p

abbrev pub IsSound : Tracker → Type 0
IsSound (by_lru p) = Order.IsValid p
IsSound (by_lfu p) = IsComplete p

-- The effect of an operation on the tracked keys and the bytes.
pub record After (tracked : Bytes → Bool) (bytes : ℕ) (before : Tracker) (tr : Tracker)
    : Type 0 where
  pub sound : IsSound tr
  pub tracked_keys : (q : Bytes) → tracks q tr ≡ tracked q
  pub memory_used : memory tr ≡ bytes
  pub same_limit : limit tr ≡ limit before

pub on_insert-After :
    (key : Bytes) (value_size last_access_ns access_count : ℕ) {tr : Tracker}
    → IsSound tr
    → tracks key tr ≡ false
    → After
        (λ q. str_eq key q || tracks q tr)
        ((memory tr + value_size) % 2 ^ 64)
        tr
        (on_insert key value_size last_access_ns access_count tr)
unfolding tracks memory limit on_insert
on_insert-After key size now count {tr = by_lru p} sound fresh = record {
  sound =
      (Order.on_insert-Acts key size now sound
        (Order.untracked_use key sound (ground arith))).valid;
  tracked_keys =
      λ q. unfold Lru.on_insert in ground (arith, find-assign key q p.next_node p.key_to_iter);
  memory_used = unfold Lru.on_insert in refl;
  same_limit = unfold Lru.on_insert in refl;
}
on_insert-After key size now count {tr = by_lfu p} sound fresh = record {
  sound = on_insert-IsComplete key size count sound;
  tracked_keys =
      λ q. unfold Lfu.on_insert in ground (arith, find-assign key q count p.key_to_count);
  memory_used = unfold Lfu.on_insert in refl;
  same_limit = unfold Lfu.on_insert in refl;
}

-- The two maps of an access have the same keys.
same_keys : (a b : Option ℕ) → (a ≡ none) ↔ (b ≡ none) → is_some a ≡ is_some b
same_keys none none h = refl
same_keys none (some n) h = cc (h.0 refl)
same_keys (some n) none h = cc (h.1 refl)
same_keys (some n) (some m) h = refl

pub on_access-After :
    (key : Bytes) (last_access_ns access_count : ℕ) {tr : Tracker}
    → IsSound tr
    → After (λ q. tracks q tr) (memory tr) tr (on_access key last_access_ns access_count tr)
unfolding tracks memory limit on_access
on_access-After key now count {tr = by_lru p} sound = record {
  sound = (Order.on_access-Acts key now sound).valid;
  tracked_keys = λ q. same_keys _ _ (Order.find-on_access key q now sound);
  memory_used = (Order.on_access_memory key now p).0;
  same_limit = (Order.on_access_memory key now p).1;
}
on_access-After key now count {tr = by_lfu p} sound = record {
  sound = on_access-IsComplete key count sound;
  tracked_keys = λ q.
      unfold Lfu.on_access in
      ground (arith, find-assign key q count p.key_to_count, str_eq_iff key q);
  memory_used = unfold Lfu.on_access in ground arith;
  same_limit = unfold Lfu.on_access in ground arith;
}

pub on_delete-After :
    (key : Bytes) (value_size : ℕ) (tr : Tracker)
    → IsSoundBut key tr
    → After
        (λ q. if str_eq key q then false else tracks q tr)
        (if tracks key tr then release (memory tr) value_size else memory tr)
        tr
        (on_delete key value_size tr)
unfolding tracks memory limit on_delete
on_delete-After key size (by_lru p) sound = record {
  sound = (Order.on_delete-Acts key size sound).valid;
  tracked_keys =
      λ q. unfold Lru.on_delete in ground (arith, find-erase key q p.key_to_iter, str_eq_iff key q);
  memory_used = unfold Lru.on_delete in ground arith;
  same_limit = unfold Lru.on_delete in ground arith;
}
on_delete-After key size (by_lfu p) sound = record {
  sound = on_delete-IsComplete key size p sound;
  tracked_keys = λ q.
      unfold Lfu.on_delete in ground (arith, find-erase key q p.key_to_count, str_eq_iff key q);
  memory_used = unfold Lfu.on_delete in ground arith;
  same_limit = unfold Lfu.on_delete in ground arith;
}

pub IsSound-IsSoundBut : (k : Bytes) (tr : Tracker) → IsSound tr → IsSoundBut k tr
IsSound-IsSoundBut k (by_lru p) s = s
IsSound-IsSoundBut k (by_lfu p) s = λ q n _ e. s.entries q n e

pub new-IsSound : (policy : EvictionPolicy) (n : ℕ) → IsSound (new policy n)
unfolding new
new-IsSound lru n = Order.new-IsValid n
new-IsSound lfu n = new-IsComplete n

pub tracks-new : (q : Bytes) (policy : EvictionPolicy) (n : ℕ) → tracks q (new policy n) ≡ false
unfolding tracks new Lru.new Lfu.new find
tracks-new q EvictionPolicy.lru n = refl
tracks-new q EvictionPolicy.lfu n = refl

pub memory-new : (policy : EvictionPolicy) (n : ℕ) → memory (new policy n) ≡ 0
unfolding memory new Lru.new Lfu.new
memory-new EvictionPolicy.lru n = refl
memory-new EvictionPolicy.lfu n = refl
