-- ===== src/HashTable/Chain.antt =====
-- One chain of the table (`std::list<KeyValuePair>`). The iterator that a search of the chain stops
-- at is read, written and erased through the key.
use distributed_in_memory_kv.Prelude.{
  ℕ, suc, ◌+◌, ◌≤◌, ◌≡◌, refl, Option, none, some, List, [], ◌∷◌, ◌++◌, Bytes, arith, length,
  str_eq, str_eq_iff, Bool-cases, inl, inr, if◌then◌else◌,
}
use distributed_in_memory_kv.Hash.{hash}
use mathlib.Core.Option
use mathlib.Core.Option.{or_else}

pub record ValueEntry : Type 0 where
  pub value : Bytes
  pub access_count : ℕ
  pub last_access_ns : ℕ
  pub expiry_ns : ℕ

-- The constructor of ValueEntry.
unfoldable pub new_entry : Bytes → ℕ → ValueEntry
new_entry val ttl_ns = record {
  value = val;
  access_count = 0;
  last_access_ns = 0;
  expiry_ns = ttl_ns;
}

pub record KeyValuePair : Type 0 where
  pub key : Bytes
  pub value : ValueEntry
  pub hash : ℕ

abbrev pub Chain : Type 0
Chain = List KeyValuePair

-- `kv`, where the loop over the chain finds `kv.key == key`
unfoldable pub find : Bytes → Chain → Option KeyValuePair
find k [] = none
find k (kv ∷ c) = if str_eq kv.key k then some kv else find k c

-- A write through that reference.
unfoldable pub replace : Bytes → (KeyValuePair → KeyValuePair) → Chain → Chain
replace k f [] = []
replace k f (kv ∷ c) = if str_eq kv.key k then f kv ∷ c else kv ∷ replace k f c

-- `chain.erase(it)`
unfoldable pub erase : Bytes → Chain → Chain
erase k [] = []
erase k (kv ∷ c) = if str_eq kv.key k then c else kv ∷ erase k c

-- How often a key stands in a chain.
unfoldable pub count : Bytes → Chain → ℕ
count q [] = 0
count q (kv ∷ c) = let n = count q c in if str_eq kv.key q then suc n else n

-- Every pair carries the hash of its key.
abbrev pub AllHashed : Chain → Type 0
AllHashed [] = Unit
AllHashed (kv ∷ c) = (kv.hash ≡ hash kv.key) × AllHashed c

abbrev pub KeepsKey : (KeyValuePair → KeyValuePair) → Type 0
KeepsKey f = (kv : KeyValuePair) → (f kv).key ≡ kv.key

pub find_of_count : (q : Bytes) (c : Chain) → count q c ≡ 0 → find q c ≡ none
unfolding find count
find_of_count q [] h = refl
find_of_count q (kv ∷ c) h = ground (arith, find_of_count q c)

pub count_of_find : (q : Bytes) (c : Chain) → find q c ≡ none → count q c ≡ 0
unfolding find count
count_of_find q [] h = refl
count_of_find q (kv ∷ c) h = ground (arith, count_of_find q c)

pub find-key : (q : Bytes) (c : Chain) (kv : KeyValuePair) → find q c ≡ some kv → kv.key ≡ q
unfolding find
find-key q [] kv h = cc
find-key q (x ∷ c) kv h = ground (arith, find-key q c kv, str_eq_iff x.key q)

pub count-append : (q : Bytes) (a b : Chain) → count q (a ++ b) ≡ count q a + count q b
unfolding count
count-append q [] b = omega arith
count-append q (kv ∷ a) b = ground (arith, count-append q a b)

pub find-append : (q : Bytes) (a b : Chain) → find q (a ++ b) ≡ or_else (find q a) (find q b)
unfolding find or_else
find-append q [] b = refl
find-append q (kv ∷ a) b = ground (arith, find-append q a b)

pub find-replace :
    (k q : Bytes) (f : KeyValuePair → KeyValuePair) (c : Chain)
    → KeepsKey f
    → find q (replace k f c) ≡ (if str_eq k q then Option.map f (find q c) else find q c)
unfolding find replace
find-replace k q f [] keeps = ground arith
find-replace k q f (kv ∷ c) keeps = ground (
  arith,
  find-replace k q f c,
  keeps kv,
  str_eq_iff kv.key k,
  str_eq_iff kv.key q,
  str_eq_iff k q,
)

pub count-replace :
    (k q : Bytes) (f : KeyValuePair → KeyValuePair) (c : Chain)
    → KeepsKey f
    → count q (replace k f c) ≡ count q c
unfolding count replace
count-replace k q f [] keeps = refl
count-replace k q f (kv ∷ c) keeps = ground (arith, count-replace k q f c, keeps kv)

pub length-replace :
    (k : Bytes) (f : KeyValuePair → KeyValuePair) (c : Chain) → length (replace k f c) ≡ length c
unfolding replace
length-replace k f [] = refl
length-replace k f (kv ∷ c) = ground (arith, length-replace k f c)

pub find-erase :
    (k q : Bytes) (c : Chain)
    → count q c ≤ 1
    → find q (erase k c) ≡ (if str_eq k q then none else find q c)
unfolding find erase count
find-erase k q [] h = ground arith
find-erase k q (kv ∷ c) h = ground (
  arith,
  find-erase k q c,
  find_of_count q c,
  str_eq_iff kv.key k,
  str_eq_iff kv.key q,
  str_eq_iff k q,
)

pub count-erase-le : (k q : Bytes) (c : Chain) → count q (erase k c) ≤ count q c
unfolding count erase
count-erase-le k q [] = omega arith
count-erase-le k q (kv ∷ c) = ground (arith, count-erase-le k q c)

pub length-erase :
    (k : Bytes) (c : Chain) (kv : KeyValuePair)
    → find k c ≡ some kv
    → length (erase k c) + 1 ≡ length c
unfolding find erase
length-erase k [] kv h = cc
length-erase k (x ∷ c) kv h = ground (arith, length-erase k c kv)

pub AllHashed-append : (a b : Chain) → AllHashed a → AllHashed b → AllHashed (a ++ b)
AllHashed-append [] b ha hb = hb
AllHashed-append (kv ∷ a) b ha hb = (ha.0, AllHashed-append a b ha.1 hb)

pub AllHashed-replace :
    (k : Bytes) (f : KeyValuePair → KeyValuePair) (c : Chain)
    → ((kv : KeyValuePair) → kv.key ≡ k → kv.hash ≡ hash kv.key → (f kv).hash ≡ hash (f kv).key)
    → AllHashed c
    → AllHashed (replace k f c)
unfolding replace
AllHashed-replace k f [] keeps h = tt
AllHashed-replace k f (kv ∷ c) keeps h = elim (Bool-cases (str_eq kv.key k)) [
  | inl t ↦ rw t (keeps kv ((str_eq_iff kv.key k).0 t) h.0, h.1)
  | inr t ↦ rw t (h.0, AllHashed-replace k f c keeps h.1)
]

pub AllHashed-erase : (k : Bytes) (c : Chain) → AllHashed c → AllHashed (erase k c)
unfolding erase
AllHashed-erase k [] h = tt
AllHashed-erase k (kv ∷ c) h = elim (Bool-cases (str_eq kv.key k)) [
  | inl t ↦ rw t h.1
  | inr t ↦ rw t (h.0, AllHashed-erase k c h.1)
]
