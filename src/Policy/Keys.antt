-- ===== src/Policy/Keys.antt =====
-- The keys that a policy keeps, tracked or stale (engine/src/lru_policy.cpp and lfu_policy.cpp).
use distributed_in_memory_kv.Prelude.{
  some_cancel, ℕ, ◌≡◌, inl, inr, some, List, [], ◌∷◌, Bytes, Option-cases, Bool-cases, if-holds,
  sym, ◌∙◌, if_of_true, if_of_false, ltb, ◌==◌,
}
use mathlib.Core.Path.{subst}
use distributed_in_memory_kv.Policy.StringMap.{StringMap, find}
use distributed_in_memory_kv.Policy.Lru
use distributed_in_memory_kv.Policy.Lru.{LruPolicy}
use distributed_in_memory_kv.Policy.Lfu
use distributed_in_memory_kv.Policy.Lfu.{LfuPolicy}
use distributed_in_memory_kv.Policy.Tracker.{
  EvictionPolicy, Tracker, by_lru, by_lfu, new, on_insert, on_access, on_delete,
  get_eviction_candidate,
}

module _ (P : Bytes → Type 0) where
  abbrev pub LruKeys : List Lru.Entry → Type 0
  LruKeys [] = Unit
  LruKeys (e ∷ l) = P e.key × LruKeys l

  abbrev pub LfuKeys : List Lfu.Entry → Type 0
  LfuKeys [] = Unit
  LfuKeys (e ∷ h) = P e.key × LfuKeys h

  abbrev pub Keys : Tracker → Type 0
  Keys (by_lru p) = LruKeys p.access_list
  Keys (by_lfu p) = LfuKeys p.heap

  pub new-Keys : (policy : EvictionPolicy) (limit : ℕ) → Keys (new policy limit)
  unfolding new Lru.new Lfu.new
  new-Keys EvictionPolicy.lru limit = tt
  new-Keys EvictionPolicy.lfu limit = tt

  deref-Keys :
      (it : ℕ) (l : List Lru.Entry) (e : Lru.Entry) → Lru.deref it l ≡ some e → LruKeys l → P e.key
  unfolding Lru.deref
  deref-Keys it [] e h keys = cc
  deref-Keys it (x ∷ l) e h (p, keys) =
      let rest : Lru.deref it l ≡ some e → P e.key = λ h'. deref-Keys it l e h' keys in
      elim (Bool-cases (x.node == it)) [
        | inl t ↦
            subst (λ (y : Lru.Entry). P y.key)
              (some_cancel (sym (if_of_true (some x) (Lru.deref it l) t) ∙ h)) p
        | inr f ↦ rest (sym (if_of_false (some x) (Lru.deref it l) f) ∙ h)
      ]

  erase_node-Keys : (it : ℕ) (l : List Lru.Entry) → LruKeys l → LruKeys (Lru.erase_node it l)
  unfolding Lru.erase_node
  erase_node-Keys it [] keys = tt
  erase_node-Keys it (x ∷ l) (p, keys) =
      let rest = erase_node-Keys it l keys in
      if-holds LruKeys (x.node == it) {x = l} {y = x ∷ Lru.erase_node it l} keys (p, rest)

  push-Keys : (e : Lfu.Entry) (h : List Lfu.Entry) → P e.key → LfuKeys h → LfuKeys (Lfu.push e h)
  unfolding Lfu.push
  push-Keys e [] p keys = (p, tt)
  push-Keys e (x ∷ h) p (q, keys) =
      let rest = push-Keys e h p keys in
      if-holds LfuKeys (ltb e.access_count x.access_count) {x = e ∷ x ∷ h} {y = x ∷ Lfu.push e h}
        (p, (q, keys)) (q, rest)

  pub on_insert-Keys :
      (k : Bytes) (n t c : ℕ) (tr : Tracker) → P k → Keys tr → Keys (on_insert k n t c tr)
  unfolding on_insert Lru.on_insert Lfu.on_insert
  on_insert-Keys k n t c (by_lru p) h keys = (h, keys)
  on_insert-Keys k n t c (by_lfu p) h keys = push-Keys _ p.heap h keys

  pub on_access-Keys :
      (k : Bytes) (t c : ℕ) (tr : Tracker) → P k → Keys tr → Keys (on_access k t c tr)
  unfolding on_access Lru.on_access Lfu.on_access Lru.push_front
  on_access-Keys k t c (by_lru p) h keys = elim (Option-cases (find k p.key_to_iter)) [
    | inl e ↦ rw e keys
    | inr (it, e) ↦ elim (Option-cases (Lru.deref it p.access_list)) [
      | inl gone ↦ rw (e, gone) keys
      | inr (entry, there) ↦
          rw (e, there)
            (deref-Keys it p.access_list entry there keys, erase_node-Keys it p.access_list keys)
    ]
  ]
  on_access-Keys k t c (by_lfu p) h keys = elim (Option-cases (find k p.key_to_count)) [
    | inl e ↦ rw e keys
    | inr (old, e) ↦ rw e (push-Keys _ p.heap h keys)
  ]

  pub on_delete-Keys : (k : Bytes) (n : ℕ) (tr : Tracker) → Keys tr → Keys (on_delete k n tr)
  unfolding on_delete Lru.on_delete Lfu.on_delete
  on_delete-Keys k n (by_lru p) keys = elim (Option-cases (find k p.key_to_iter)) [
    | inl e ↦ rw e keys
    | inr (it, e) ↦ rw e (erase_node-Keys it p.access_list keys)
  ]
  on_delete-Keys k n (by_lfu p) keys = elim (Option-cases (find k p.key_to_count)) [
    | inl e ↦ rw e keys
    | inr (old, e) ↦ rw e keys
  ]

  back_key-Keys : (l : List Lru.Entry) → P [] → LruKeys l → P (Lru.back_key l)
  unfolding Lru.back_key
  back_key-Keys [] h keys = h
  back_key-Keys (e ∷ []) h (p, keys) = p
  back_key-Keys (e ∷ e' ∷ l) h (p, keys) = back_key-Keys (e' ∷ l) h keys

  pop_current-Keys :
      (counts : StringMap ℕ) (h : List Lfu.Entry)
      → P []
      → LfuKeys h
      → P (Lfu.pop_current counts h).0 × LfuKeys (Lfu.pop_current counts h).1
  unfolding Lfu.pop_current
  pop_current-Keys counts [] h keys = (h, tt)
  pop_current-Keys counts (top ∷ heap) h (p, keys) =
      let rest = pop_current-Keys counts heap h keys in
      if-holds (λ (r : Bytes × List Lfu.Entry). P r.0 × LfuKeys r.1) (Lfu.is_current counts top)
        {x = (top.key, heap)} {y = Lfu.pop_current counts heap} (p, keys) rest

  -- A candidate is one of the keys that the policy keeps, or the empty one.
  pub get_eviction_candidate-Keys :
      (tr : Tracker)
      → P []
      → Keys tr
      → P (get_eviction_candidate tr).0 × Keys (get_eviction_candidate tr).1
  unfolding get_eviction_candidate Lru.get_eviction_candidate Lfu.get_eviction_candidate
  get_eviction_candidate-Keys (by_lru p) h keys = (back_key-Keys p.access_list h keys, keys)
  get_eviction_candidate-Keys (by_lfu p) h keys = pop_current-Keys p.key_to_count p.heap h keys
