-- ===== src/HashTable/LruCache/Items.antt =====
-- The items of the cache by their keys, and the item that is given up first (HashTable/LruCache.antt).
use distributed_in_memory_kv.Prelude.{
  ℕ, suc, ◌≡◌, ◌≢◌, refl, ap, true, false, none, some, List, [], ◌∷◌, ◌++◌, Bytes, arith, length,
  str_eq, str_eq_iff,
}
use distributed_in_memory_kv.HashTable.LruCache.{Item, find_item, forget, keys, IsCache}
use distributed_in_memory_kv.HashTable.LruCache.Tracked.{remove_key, has, last_key}

pub keys-forget : (k : Bytes) (c : List Item) → keys (forget k c) ≡ remove_key k (keys c)
unfolding keys forget remove_key
keys-forget k [] = refl
keys-forget k (i ∷ c) = ground (arith, keys-forget k c)

pub has-keys :
    (k : Bytes) (c : List Item) (x : Bytes × ℕ) → find_item k c ≡ some x → has k (keys c) ≡ true
unfolding keys has find_item
has-keys k [] x e = cc
has-keys k (i ∷ c) x e = ground (arith, has-keys k c x)

pub has-keys_absent : (k : Bytes) (c : List Item) → find_item k c ≡ none → has k (keys c) ≡ false
unfolding keys has find_item
has-keys_absent k [] e = refl
has-keys_absent k (i ∷ c) e = ground (arith, has-keys_absent k c)

pub length-keys : (c : List Item) → length (keys c) ≡ length c
unfolding keys
length-keys [] = refl
length-keys (i ∷ c) = ap suc (length-keys c)

-- The last item apart from the others.
pub unsnoc : (i : Item) (c : List Item) → (init : List Item) × (x : Item) × (i ∷ c ≡ init ++ x ∷ [])
unsnoc i [] = ([], i, refl)
unsnoc i (j ∷ c) = let (init, x, e) = unsnoc j c in (i ∷ init, x, ap (λ l. i ∷ l) e)

pub last_key-keys : (c : List Item) (x : Item) → last_key (keys (c ++ x ∷ [])) ≡ x.key
unfolding last_key keys
last_key-keys [] x = refl
last_key-keys (i ∷ []) x = refl
last_key-keys (i ∷ j ∷ c) x = last_key-keys (j ∷ c) x

find_item-last :
    (q : Bytes) (c : List Item) (x : Item)
    → find_item q (c ++ x ∷ []) ≡ none
    → str_eq x.key q ≡ false
unfolding find_item
find_item-last q [] x h = ground arith
find_item-last q (i ∷ c) x h = ground (arith, find_item-last q c x)

pub forget_last :
    (c : List Item) (x : Item) → IsCache (c ++ x ∷ []) → forget x.key (c ++ x ∷ []) ≡ c
unfolding forget
forget_last [] x h = ground (arith, str_eq_iff x.key x.key)
forget_last (i ∷ c) x (fresh, named, h) =
    let apart = find_item-last i.key c x fresh in
    ground (arith, forget_last c x h, str_eq_iff x.key i.key, str_eq_iff i.key x.key)

pub last_named : (c : List Item) (x : Item) → IsCache (c ++ x ∷ []) → x.key ≢ []
last_named [] x h = h.1
last_named (i ∷ c) x h = last_named c x h.2
