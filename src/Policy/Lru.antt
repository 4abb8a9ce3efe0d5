-- ===== src/Policy/Lru.antt =====
-- Least recently used: engine/include/lru_policy.h and engine/src/lru_policy.cpp.
-- A node of the `std::list` has an identity, which is what an iterator in the map holds; the
-- counter `next_node` stands for the allocator, which gives each new node its own address.
pub mod Order
pub mod Runs
use distributed_in_memory_kv.Prelude.{
  ℕ, ◌+◌, ◌-◌, ◌%◌, ◌^◌, Bool, true, false, Option, none, some, List, [], ◌∷◌, Bytes, leb, ltb,
  ◌==◌, if◌then◌else◌,
}
use distributed_in_memory_kv.Policy.StringMap.{StringMap, find, erase, assign}

pub record Entry : Type 0 where
  pub node : ℕ
  pub key : Bytes
  pub last_access_ns : ℕ
  pub value_size : ℕ

pub record LruPolicy : Type 0 where
  pub memory_limit : ℕ
  pub current_memory : ℕ
  pub access_list : List Entry
  pub key_to_iter : StringMap ℕ
  pub next_node : ℕ

unfoldable pub new : ℕ → LruPolicy
new memory_limit = record {
  memory_limit = memory_limit;
  current_memory = 0;
  access_list = [];
  key_to_iter = [];
  next_node = 0;
}

-- `*it`
unfoldable pub deref : ℕ → List Entry → Option Entry
deref it [] = none
deref it (e ∷ l) = if e.node == it then some e else deref it l

-- `access_list_.erase(it)`
unfoldable pub erase_node : ℕ → List Entry → List Entry
erase_node it [] = []
erase_node it (e ∷ l) = if e.node == it then l else e ∷ erase_node it l

-- `access_list_.push_front(entry)` and `key_to_iter_[key] = access_list_.begin()`
unfoldable pub push_front : Entry → LruPolicy → LruPolicy
push_front e p = record p {
  access_list = record e { node = p.next_node } ∷ p.access_list;
  key_to_iter = assign e.key p.next_node p.key_to_iter;
  next_node = p.next_node + 1;
}

-- The copy of the entry moves to the front. (An iterator that no node has is undefined behaviour,
-- which the well-formedness of the policy excludes; the model then changes nothing.)
move_to_front : Option Entry → ℕ → ℕ → LruPolicy → LruPolicy
move_to_front none it last_access_ns p = p
move_to_front (some e) it last_access_ns p =
    push_front (record e { last_access_ns = last_access_ns })
      (record p { access_list = erase_node it p.access_list })

access_tracked : Option ℕ → ℕ → LruPolicy → LruPolicy
unfolding move_to_front
access_tracked none last_access_ns p = p
access_tracked (some it) last_access_ns p =
    move_to_front (deref it p.access_list) it last_access_ns p

unfoldable pub on_access : Bytes → ℕ → LruPolicy → LruPolicy
unfolding access_tracked
on_access key last_access_ns p = access_tracked (find key p.key_to_iter) last_access_ns p

unfoldable pub on_insert : Bytes → ℕ → ℕ → LruPolicy → LruPolicy
unfolding push_front
on_insert key value_size last_access_ns p =
    let p' =
      push_front
        (record {
          node = p.next_node;
          key = key;
          last_access_ns = last_access_ns;
          value_size = value_size;
        })
        p in
    record p' { current_memory = (p.current_memory + value_size) % 2 ^ 64 }

-- `if (current_memory_ >= value_size) current_memory_ -= value_size; else current_memory_ = 0;`
unfoldable pub release : ℕ → ℕ → ℕ
release current_memory value_size =
    if leb value_size current_memory then current_memory - value_size else 0

delete_tracked : Bytes → ℕ → Option ℕ → LruPolicy → LruPolicy
delete_tracked key value_size none p = p
delete_tracked key value_size (some it) p = record p {
  access_list = erase_node it p.access_list;
  key_to_iter = erase key p.key_to_iter;
  current_memory = release p.current_memory value_size;
}

unfoldable pub on_delete : Bytes → ℕ → LruPolicy → LruPolicy
unfolding delete_tracked
on_delete key value_size p = delete_tracked key value_size (find key p.key_to_iter) p

-- `access_list_.back().key`, and the empty string for an empty list.
unfoldable pub back_key : List Entry → Bytes
back_key [] = []
back_key (e ∷ []) = e.key
back_key (e ∷ e' ∷ l) = back_key (e' ∷ l)

unfoldable pub get_eviction_candidate : LruPolicy → Bytes
unfolding back_key
get_eviction_candidate p = back_key p.access_list

unfoldable pub should_evict : LruPolicy → Bool
should_evict p = ltb p.memory_limit p.current_memory
