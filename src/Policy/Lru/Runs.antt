-- ===== src/Policy/Lru/Runs.antt =====
-- What LRUPolicy (engine/src/lru_policy.cpp) makes of any sequence of calls of the hash table.
use distributed_in_memory_kv.Prelude.{ℕ, ◌≡◌, refl, ap, ◌∙◌, ◌↔◌, none, List, [], ◌∷◌, Bytes, arith}
use mathlib.Core.Path.{subst}
use distributed_in_memory_kv.Policy.StringMap.{find}
use distributed_in_memory_kv.Policy.Lru.{
  Entry, LruPolicy, new, on_access, on_insert, on_delete, back_key, get_eviction_candidate,
}
use distributed_in_memory_kv.Policy.Lru.Order.{
  IsValid, Use, uses, uses_of, without, find_use, find_use-index, access_use, Acts, new-IsValid,
  on_insert-Acts, on_delete-Acts, on_access-Acts, untracked_use,
}

-- The table tells the policy of a key that it writes by `on_delete`, if it had the key, and `on_insert`;
-- `on_delete` does nothing for a key that is not tracked.
pub data PolicyCall : Type 0 where
  put : Bytes → ℕ → ℕ → ℕ → PolicyCall
  access : Bytes → ℕ → PolicyCall
  delete : Bytes → ℕ → PolicyCall

unfoldable pub apply : PolicyCall → LruPolicy → LruPolicy
apply (put key old_size size now) p = on_insert key size now (on_delete key old_size p)
apply (access key now) p = on_access key now p
apply (delete key size) p = on_delete key size p

unfoldable pub apply_all : List PolicyCall → LruPolicy → LruPolicy
unfolding apply
apply_all [] p = p
apply_all (c ∷ cs) p = apply_all cs (apply c p)

-- The same calls on the list of uses alone.
unfoldable pub used : PolicyCall → List Use → List Use
used (put key old_size size now) us =
    record { key = key; last_access_ns = now; value_size = size } ∷ without key us
used (access key now) us = access_use key now us
used (delete key size) us = without key us

unfoldable pub use_all : List PolicyCall → List Use → List Use
unfolding used
use_all [] us = us
use_all (c ∷ cs) us = use_all cs (used c us)

-- The key of the use that is longest ago.
unfoldable pub oldest : List Use → Bytes
oldest [] = []
oldest (u ∷ []) = u.key
oldest (u ∷ u' ∷ us) = oldest (u' ∷ us)

back_key-uses_of : (l : List Entry) → back_key l ≡ oldest (uses_of l)
unfolding back_key uses_of oldest
back_key-uses_of [] = refl
back_key-uses_of (e ∷ []) = refl
back_key-uses_of (e ∷ e' ∷ l) = back_key-uses_of (e' ∷ l)

find_use-without : (k : Bytes) (us : List Use) → find_use k (without k us) ≡ none
unfolding find_use without
find_use-without k [] = refl
find_use-without k (u ∷ us) = ground (arith, find_use-without k us)

put-Acts :
    {p : LruPolicy} (key : Bytes) (old_size size now : ℕ)
    → IsValid p
    → Acts (used (put key old_size size now) (uses p)) (apply (put key old_size size now) p)
unfolding apply used
put-Acts {p} key old_size size now v =
    let gone = on_delete-Acts key old_size v in
    let fresh : find_use key (uses (on_delete key old_size p)) ≡ none =
      ap (find_use key) gone.order ∙ find_use-without key (uses p) in
    let placed = on_insert-Acts key size now gone.valid fresh in
    record {
      valid = placed.valid;
      order =
          placed.order
          ∙ ap (λ us. record { key = key; last_access_ns = now; value_size = size } ∷ us)
              gone.order;
    }

apply-Acts : (c : PolicyCall) {p : LruPolicy} → IsValid p → Acts (used c (uses p)) (apply c p)
apply-Acts (put key old_size size now) v = put-Acts key old_size size now v
apply-Acts (access key now) v = unfold apply used in on_access-Acts key now v
apply-Acts (delete key size) v = unfold apply used in on_delete-Acts key size v

apply_all-Acts :
    (cs : List PolicyCall) {p : LruPolicy} → IsValid p → Acts (use_all cs (uses p)) (apply_all cs p)
unfolding apply_all use_all
apply_all-Acts [] v = record { valid = v; order = refl }
apply_all-Acts (c ∷ cs) {p} v =
    let first = apply-Acts c v in
    let rest = apply_all-Acts cs first.valid in
    record { valid = rest.valid; order = rest.order ∙ ap (use_all cs) first.order }

-- The policy keeps exactly these uses, in this order; it tracks the keys that have one; and its candidate
-- is the key of the oldest.
pub record Keeps (us : List Use) (p : LruPolicy) : Type 0 where
  pub order : uses p ≡ us
  pub tracked : (q : Bytes) → (find q p.key_to_iter ≡ none) ↔ (find_use q us ≡ none)
  pub candidate : get_eviction_candidate p ≡ oldest us

-- After any calls on a new policy, its entries are the uses that the same calls leave on a list that
-- puts a written or accessed key at the front and takes a deleted key out; it tracks the keys that have
-- an entry, and its candidate for eviction is the key whose use is longest ago.
pub apply_all-Keeps :
    (limit : ℕ) (cs : List PolicyCall) → Keeps (use_all cs []) (apply_all cs (new limit))
apply_all-Keeps limit cs =
    let empty : uses (new limit) ≡ [] = unfold new uses_of in refl in
    let acts = apply_all-Acts cs (new-IsValid limit) in
    let p = apply_all cs (new limit) in
    let same : uses p ≡ use_all cs [] = acts.order ∙ ap (use_all cs) empty in
    record {
      order = same;
      tracked = λ q.
          subst (λ us. (find q p.key_to_iter ≡ none) ↔ (find_use q us ≡ none)) same
            (
              λ e. untracked_use q acts.valid e,
              λ e. rw acts.valid.indexed (find_use-index q p.access_list e),
            );
      candidate =
          unfold get_eviction_candidate in (back_key-uses_of p.access_list ∙ ap oldest same);
    }
