-- ===== src/HashTable/LruCache.antt =====
-- What the table of engine/src/hash_table.cpp with the LRU policy stands for: a cache, which is a list of
-- items, the one used last first.
pub mod Tracked
pub mod Items
pub mod Refines
pub mod Writes
pub mod Runs
pub mod Exact
use distributed_in_memory_kv.Prelude.{
  ℕ, ◌+◌, ◌-◌, ◌≤◌, ◌<◌, ◌≡◌, ◌≢◌, refl, sym, ap, ◌∙◌, inl, inr, Bool, true, false, Option, none,
  some, List, [], ◌∷◌, ◌++◌, Bytes, arith, length, leb, str_eq, str_eq_iff, if◌then◌else◌,
  Bool-cases,
}
use distributed_in_memory_kv.History.{Call}
use distributed_in_memory_kv.HashTable.Recalls.{live}

pub record Item : Type 0 where
  pub key : Bytes
  pub value : Bytes
  pub expiry_ns : ℕ

unfoldable pub find_item : Bytes → List Item → Option (Bytes × ℕ)
find_item q [] = none
find_item q (i ∷ c) = if str_eq i.key q then some (i.value, i.expiry_ns) else find_item q c

unfoldable pub forget : Bytes → List Item → List Item
forget k [] = []
forget k (i ∷ c) = let rest = forget k c in if str_eq i.key k then rest else i ∷ rest

-- The bytes of the values.
unfoldable pub total : List Item → ℕ
total [] = 0
total (i ∷ c) = length i.value + total c

-- The longest first part whose values fit into the limit.
unfoldable pub keep : ℕ → List Item → List Item
keep limit [] = []
keep limit (i ∷ c) =
    let rest = i ∷ keep (limit - length i.value) c in
    if leb (length i.value) limit then rest else []

-- An item that is found comes to the front.
abbrev pub use_item : Bytes → Option (Bytes × ℕ) → List Item → List Item
use_item k none c = c
use_item k (some (value, expiry)) c =
    record { key = k; value = value; expiry_ns = expiry } ∷ forget k c

-- A write makes room within the limit first.
abbrev pub cache_step : ℕ → Call → List Item → List Item
cache_step limit (Call.set k v) c =
    record { key = k; value = v.value; expiry_ns = v.expiry_ns } ∷ forget k (keep limit c)
cache_step limit (Call.get k now m) c = use_item k (live now (find_item k c)) c
cache_step limit (Call.remove k) c = forget k c

unfoldable pub cache_run : ℕ → List Call → List Item → List Item
cache_run limit [] c = c
cache_run limit (call ∷ calls) c = cache_run limit calls (cache_step limit call c)

unfoldable pub keys : List Item → List Bytes
keys [] = []
keys (i ∷ c) = i.key ∷ keys c

-- The keys are different, and none is empty.
abbrev pub IsCache : List Item → Type 0
IsCache [] = Unit
IsCache (i ∷ c) = (find_item i.key c ≡ none) × (i.key ≢ []) × IsCache c

pub find_item-forget :
    (k q : Bytes) (c : List Item)
    → find_item q (forget k c) ≡ (if str_eq k q then none else find_item q c)
unfolding find_item forget
find_item-forget k q [] = ground arith
find_item-forget k q (i ∷ c) =
    ground (arith, find_item-forget k q c, str_eq_iff i.key k, str_eq_iff i.key q, str_eq_iff k q)

pub forget_absent : (k : Bytes) (c : List Item) → find_item k c ≡ none → forget k c ≡ c
unfolding find_item forget
forget_absent k [] h = refl
forget_absent k (i ∷ c) h = ground (arith, forget_absent k c)

pub forget-IsCache : (k : Bytes) (c : List Item) → IsCache c → IsCache (forget k c)
unfolding forget
forget-IsCache k [] h = tt
forget-IsCache k (i ∷ c) (fresh, named, h) =
    let rest = forget-IsCache k c h in
    elim (Bool-cases (str_eq i.key k)) [
      | inl same ↦ rw same rest
      | inr other ↦ rw other (find_item-forget k i.key c ∙ ground (arith, fresh), named, rest)
    ]

first_of : (a b : Bytes × ℕ) → some a ≡ some b → a.0 ≡ b.0
first_of a b h = cc

pub total-forget :
    (k value : Bytes) (expiry : ℕ) (c : List Item)
    → IsCache c
    → find_item k c ≡ some (value, expiry)
    → total (forget k c) + length value ≡ total c
unfolding total forget find_item
total-forget k value expiry [] h e = cc
total-forget k value expiry (i ∷ c) (fresh, named, h) e =
    let rest : find_item k c ≡ some (value, expiry) → _ = total-forget k value expiry c h in
    elim (Bool-cases (str_eq i.key k)) [
      | inl same ↦
          let eq : i.key ≡ k = (str_eq_iff i.key k).0 same in
          let absent : find_item k c ≡ none = ap (λ x. find_item x c) (sym eq) ∙ fresh in
          let there = first_of (i.value, i.expiry_ns) (value, expiry) (rw same at e) in
          rw (same, forget_absent k c absent) (omega (arith, ap length there))
      | inr other ↦ rw other (omega (arith, rest (rw other at e)))
    ]

pub keep_all : (limit : ℕ) (c : List Item) → total c ≤ limit → keep limit c ≡ c
unfolding keep total
keep_all limit [] h = refl
keep_all limit (i ∷ c) h = ground (arith, keep_all (limit - length i.value) c)

pub keep_last :
    (limit : ℕ) (c : List Item) (x : Item)
    → limit < total (c ++ x ∷ [])
    → keep limit (c ++ x ∷ []) ≡ keep limit c
unfolding keep total
keep_last limit [] x h = ground arith
keep_last limit (i ∷ c) x h = ground (arith, keep_last (limit - length i.value) c x)

pub total-keep : (limit : ℕ) (c : List Item) → total (keep limit c) ≤ limit
unfolding keep total
total-keep limit [] = omega arith
total-keep limit (i ∷ c) = ground (arith, total-keep (limit - length i.value) c)

pub found_named :
    (k : Bytes) (c : List Item) (x : Bytes × ℕ) → IsCache c → find_item k c ≡ some x → k ≢ []
unfolding find_item
found_named k [] x h e = cc
found_named k (i ∷ c) x (fresh, named, h) e =
    let rest : find_item k c ≡ some x → k ≢ [] = found_named k c x h in
    elim (Bool-cases (str_eq i.key k)) [
      | inl same ↦ λ empty. named ((str_eq_iff i.key k).0 same ∙ empty)
      | inr other ↦ rest (rw other at e)
    ]

pub total-forget_le : (k : Bytes) (c : List Item) → total (forget k c) ≤ total c
unfolding total forget
total-forget_le k [] = omega arith
total-forget_le k (i ∷ c) = ground (arith, total-forget_le k c)
