-- ===== src/HashTable/Recalls.antt =====
-- The table as a map that may lose entries (`insert`, `get` and `remove` of engine/src/hash_table.cpp).
use distributed_in_memory_kv.Prelude.{
  ℕ, ◌≡◌, refl, ap, sym, ◌∙◌, ◌⊎◌, inl, inr, Bool, true, false, Option, none, some, Bytes, arith,
  str_eq, str_eq_iff, Bool-cases, ◌&&◌, leb, ltb, ◌||◌, ◌==◌, if◌then◌else◌,
}
use distributed_in_memory_kv.HashTable
use distributed_in_memory_kv.HashTable.Chain.{ValueEntry}
use distributed_in_memory_kv.HashTable.{HashTable, is_expired, touch}
use distributed_in_memory_kv.HashTable.Valid.{IsValid, lookup, remove-Updates, found?}
use distributed_in_memory_kv.HashTable.Methods.{answer, accessed, Gets, get-Gets, insert-Inserts}
use distributed_in_memory_kv.History.{MapEngine, payload}

-- What has not expired at time `now`; an expiry time of 0 is none.
abbrev pub live : ℕ → Option (Bytes × ℕ) → Option (Bytes × ℕ)
live now none = none
live now (some (value, expiry)) =
    if expiry == 0
    then some (value, expiry)
    else if leb expiry now
    then none
    else some (value, expiry)

pub payload-answer :
    (n m : ℕ) (held : Option ValueEntry) → payload (answer n m held) ≡ live n (payload held)
unfolding answer accessed
payload-answer n m none = refl
payload-answer n m (some v) = ground arith

answer-payload :
    (n m : ℕ) (v : Option ValueEntry) → (payload (answer n m v) ≡ payload v) ⊎ (answer n m v ≡ none)
unfolding answer accessed
answer-payload n m none = inr refl
answer-payload n m (some v) = elim (Bool-cases (v.expiry_ns == 0 || ltb n v.expiry_ns)) [
  | inl live ↦ inl (rw live refl)
  | inr dead ↦ inr (rw dead refl)
]

both : (a b : Bool) → (a && b) ≡ true → (a ≡ true) × (b ≡ true)
both a b h = (ground arith, ground arith)

pub Gets-payload :
    (k : Bytes) (n m : ℕ) (t : HashTable) (r : Option ValueEntry × HashTable)
    → Gets k n m t r
    → (payload r.0 ≡ payload (lookup k t)) ⊎ (r.0 ≡ none)
Gets-payload k n m t r gets = elim (answer-payload n m (lookup k t)) [
  | inl same ↦ inl (ap payload gets.result ∙ same)
  | inr silent ↦ inr (gets.result ∙ silent)
]

-- A read leaves every key's value and expiry time.
pub Gets-lookup :
    (k q : Bytes) (n m : ℕ) (t : HashTable) (r : Option ValueEntry × HashTable)
    → Gets k n m t r
    → payload (lookup q r.1) ≡ payload (lookup q t)
Gets-lookup k q n m t r gets = elim (Bool-cases (str_eq k q && found? r.0)) [
  | inr other ↦ rw (gets.reads q, other) refl
  | inl here ↦
      let (same, found) = both (str_eq k q) (found? r.0) here in
      let key : payload (lookup k t) ≡ payload (lookup q t) =
        ap (λ x. payload (lookup x t)) ((str_eq_iff k q).0 same) in
      rw (gets.reads q, here)
        (elim (Gets-payload k n m t r gets) [
          | inl kept ↦ kept ∙ key
          | inr silent ↦ absurd (not_found r.0 silent found)
        ])
]
  where
    not_found : (v : Option ValueEntry) → v ≡ none → found? v ≡ true → ⊥
    not_found none e h = cc
    not_found (some v) e h = cc

pub insert-others :
    (k q : Bytes) (v : ValueEntry) (t : HashTable)
    → IsValid t
    → str_eq k q ≡ false
    → (lookup q (HashTable.insert k v t) ≡ lookup q t) ⊎ (lookup q (HashTable.insert k v t) ≡ none)
insert-others k q v t valid other = elim ((insert-Inserts k v valid).others q) [
  | inl same ↦ let eq = (str_eq_iff k q).1 (sym same) in cc
  | inr rest ↦ rest
]

abbrev pub table_map : MapEngine
table_map = record {
  State = HashTable;
  IsGood = IsValid;
  held = lookup;
  put = HashTable.insert;
  get = HashTable.get;
  remove = HashTable.remove;
  put-IsGood = λ k v t good. (insert-Inserts k v good).valid;
  put-held = λ k v t good. (insert-Inserts k v good).stored;
  put-others = λ k q v t good other. insert-others k q v t good other;
  remove-IsGood = λ k t good. (remove-Updates k good).valid;
  remove-held = λ k q t good. (remove-Updates k good).reads q;
  get-IsGood = λ k n m t good. (get-Gets k n m good).valid;
  get-held = λ k q n m t good. Gets-lookup k q n m t (HashTable.get k n m t) (get-Gets k n m good);
  get-answer = λ k n m t good. Gets-payload k n m t (HashTable.get k n m t) (get-Gets k n m good);
}
