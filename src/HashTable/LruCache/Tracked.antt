-- ===== src/HashTable/LruCache/Tracked.antt =====
-- The policy of an LRU table (engine/src/lru_policy.cpp) by the keys alone, the one used last first.
use distributed_in_memory_kv.Prelude.{
  ℕ, ◌+◌, ◌%◌, ◌^◌, suc, ◌≡◌, refl, sym, ap, ◌∙◌, inl, inr, Bool, true, false, ◌||◌, none, some,
  List, [], ◌∷◌, Bytes, arith, length, str_eq, str_eq_iff, if◌then◌else◌, Bool-cases, Option-cases,
}
use distributed_in_memory_kv.Policy.StringMap.{find}
use distributed_in_memory_kv.Policy.Lru
use distributed_in_memory_kv.Policy.Lru.{LruPolicy, release, Entry}
use distributed_in_memory_kv.Policy.Lru.Order
use distributed_in_memory_kv.Policy.Lru.Order.{
  Use, uses, uses_of, without, find_use, find_use-index, access_use, untracked_use, on_insert-Acts,
  on_delete-Acts, on_access-Acts, on_access_memory,
}
use distributed_in_memory_kv.Policy.Tracker
use distributed_in_memory_kv.Policy.Tracker.{Tracker, by_lru, by_lfu}
use distributed_in_memory_kv.Policy.Accounts.{memory, limit}

unfoldable pub remove_key : Bytes → List Bytes → List Bytes
remove_key k [] = []
remove_key k (q ∷ ks) = let rest = remove_key k ks in if str_eq q k then rest else q ∷ rest

unfoldable pub has : Bytes → List Bytes → Bool
has k [] = false
has k (q ∷ ks) = str_eq q k || has k ks

unfoldable pub last_key : List Bytes → Bytes
last_key [] = []
last_key (k ∷ []) = k
last_key (k ∷ k' ∷ ks) = last_key (k' ∷ ks)

unfoldable pub use_keys : List Use → List Bytes
use_keys [] = []
use_keys (u ∷ us) = u.key ∷ use_keys us

abbrev pub IsLru : Tracker → Type 0
IsLru (by_lru p) = Order.IsValid p
IsLru (by_lfu p) = ⊥

unfoldable pub recency : Tracker → List Bytes
recency (by_lru p) = use_keys (uses p)
recency (by_lfu p) = []

use_keys-without :
    (k : Bytes) (us : List Use) → use_keys (without k us) ≡ remove_key k (use_keys us)
unfolding use_keys without remove_key
use_keys-without k [] = refl
use_keys-without k (u ∷ us) = ground (arith, use_keys-without k us)

has_of_find : (k : Bytes) (us : List Use) → find_use k us ≡ none → has k (use_keys us) ≡ false
unfolding use_keys has find_use
has_of_find k [] h = refl
has_of_find k (u ∷ us) h = ground (arith, has_of_find k us)

find_of_has : (k : Bytes) (us : List Use) → has k (use_keys us) ≡ false → find_use k us ≡ none
unfolding use_keys has find_use
find_of_has k [] h = refl
find_of_has k (u ∷ us) h = ground (arith, find_of_has k us)

-- What a call of the policy leaves.
pub record Leaves (ks : List Bytes) (bytes : ℕ) (tr tr' : Tracker) : Type 0 where
  pub lru : IsLru tr'
  pub order : recency tr' ≡ ks
  pub bytes_used : memory tr' ≡ bytes
  pub limits : limit tr' ≡ limit tr

delete_memory :
    (k : Bytes) (n : ℕ) (p : LruPolicy)
    → Order.IsValid p
    → has k (use_keys (uses p)) ≡ true
    → (Lru.on_delete k n p).current_memory ≡ release p.current_memory n
unfolding Lru.on_delete
delete_memory k n p v h = elim (Option-cases (find k p.key_to_iter)) [
  | inl e ↦ let absent = has_of_find k (uses p) (untracked_use k v e) in cc
  | inr (it, e) ↦ rw e refl
]

pub on_delete-Leaves :
    (k : Bytes) (n : ℕ) (tr : Tracker)
    → IsLru tr
    → has k (recency tr) ≡ true
    → Leaves (remove_key k (recency tr)) (release (memory tr) n) tr (Tracker.on_delete k n tr)
unfolding Tracker.on_delete recency memory limit
on_delete-Leaves k n (by_lru p) v h =
    let acts = on_delete-Acts k n v in
    record {
      lru = acts.valid;
      order = ap use_keys acts.order ∙ use_keys-without k (uses p);
      bytes_used = delete_memory k n p v h;
      limits = unfold Lru.on_delete in ground arith;
    }
on_delete-Leaves k n (by_lfu p) v h = absurd v

pub on_insert-Leaves :
    (k : Bytes) (n now count : ℕ) (tr : Tracker)
    → IsLru tr
    → has k (recency tr) ≡ false
    → Leaves (k ∷ recency tr) ((memory tr + n) % 2 ^ 64) tr (Tracker.on_insert k n now count tr)
unfolding Tracker.on_insert recency memory limit
on_insert-Leaves k n now count (by_lru p) v h =
    let acts = on_insert-Acts k n now v (find_of_has k (uses p) h) in
    record {
      lru = acts.valid;
      order = ap use_keys acts.order ∙ (unfold use_keys in refl);
      bytes_used = unfold Lru.on_insert in refl;
      limits = unfold Lru.on_insert in refl;
    }
on_insert-Leaves k n now count (by_lfu p) v h = absurd v

access_keys :
    (k : Bytes) (us : List Use)
    → has k (use_keys us) ≡ true
    → (u : Use) × (find_use k us ≡ some u) × (u.key ≡ k)
unfolding use_keys has find_use
access_keys k [] h = cc
access_keys k (u ∷ us) h =
    let rest : has k (use_keys us) ≡ true → _ = access_keys k us in
    elim (Bool-cases (str_eq u.key k)) [
      | inl same ↦ (u, rw same refl, (str_eq_iff u.key k).0 same)
      | inr other ↦ rw other (rest (ground arith))
    ]

use_keys-access :
    (k : Bytes) (now : ℕ) (us : List Use) (u : Use)
    → find_use k us ≡ some u
    → u.key ≡ k
    → use_keys (access_use k now us) ≡ k ∷ remove_key k (use_keys us)
unfolding use_keys access_use remove_key
use_keys-access k now us u found keyed =
    rw (found, use_keys)
      (ap (λ x. x ∷ use_keys (without k us)) keyed ∙ ap (λ ks. k ∷ ks) (use_keys-without k us))

pub on_access-Leaves :
    (k : Bytes) (now count : ℕ) (tr : Tracker)
    → IsLru tr
    → has k (recency tr) ≡ true
    → Leaves (k ∷ remove_key k (recency tr)) (memory tr) tr (Tracker.on_access k now count tr)
unfolding Tracker.on_access recency memory limit
on_access-Leaves k now count (by_lru p) v h =
    let acts = on_access-Acts k now v in
    let (u, found, keyed) = access_keys k (uses p) h in
    record {
      lru = acts.valid;
      order = ap use_keys acts.order ∙ use_keys-access k now (uses p) u found keyed;
      bytes_used = (on_access_memory k now p).0;
      limits = (on_access_memory k now p).1;
    }
on_access-Leaves k now count (by_lfu p) v h = absurd v

back_key-last : (l : List Entry) → Lru.back_key l ≡ last_key (use_keys (uses_of l))
unfolding Lru.back_key uses_of use_keys last_key
back_key-last [] = refl
back_key-last (e ∷ []) = refl
back_key-last (e ∷ e' ∷ l) = back_key-last (e' ∷ l)

pub candidate_last :
    (tr : Tracker) → IsLru tr → Tracker.get_eviction_candidate tr ≡ (last_key (recency tr), tr)
unfolding Tracker.get_eviction_candidate Lru.get_eviction_candidate recency
candidate_last (by_lru p) v = ap (λ k. (k, by_lru p)) (back_key-last p.access_list)
candidate_last (by_lfu p) v = absurd v

length-use_keys : (l : List Entry) → length (use_keys (uses_of l)) ≡ length l
unfolding uses_of use_keys
length-use_keys [] = refl
length-use_keys (e ∷ l) = ap suc (length-use_keys l)

pub candidates-recency : (tr : Tracker) → IsLru tr → Tracker.candidates tr ≡ length (recency tr)
unfolding Tracker.candidates recency
candidates-recency (by_lru p) v = sym (length-use_keys p.access_list)
candidates-recency (by_lfu p) v = absurd v
