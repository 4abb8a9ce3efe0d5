-- ===== src/Policy/Lru/Order/Nodes.antt =====
-- The list of uses that the nodes and the map of LRUPolicy (engine/src/lru_policy.cpp) stand for, the
-- invariant that ties them, and where a tracked key is found.
use distributed_in_memory_kv.Prelude.{
  ℕ, ◌+◌, ◌<◌, ◌≡◌, refl, inl, inr, true, false, Option, none, some, List, [], ◌∷◌, Bytes, arith,
  str_eq, str_eq_iff, ◌==◌, if◌then◌else◌, Bool-cases, length,
}
use distributed_in_memory_kv.Policy.StringMap.{StringMap, find, erase, find-erase, erase_absent}
use distributed_in_memory_kv.Policy.Lru.{Entry, LruPolicy, deref, erase_node}

-- A use of a key: what an entry says beside its place.
pub record Use : Type 0 where
  pub key : Bytes
  pub last_access_ns : ℕ
  pub value_size : ℕ

abbrev pub use_of : Entry → Use
use_of e = record { key = e.key; last_access_ns = e.last_access_ns; value_size = e.value_size }

unfoldable pub uses_of : List Entry → List Use
uses_of [] = []
uses_of (e ∷ l) = use_of e ∷ uses_of l

abbrev pub uses : LruPolicy → List Use
uses p = uses_of p.access_list

unfoldable pub without : Bytes → List Use → List Use
without k [] = []
without k (u ∷ l) = let rest = without k l in if str_eq u.key k then rest else u ∷ rest

unfoldable pub find_use : Bytes → List Use → Option Use
find_use k [] = none
find_use k (u ∷ l) = if str_eq u.key k then some u else find_use k l

-- The map that the list calls for.
unfoldable pub index : List Entry → StringMap ℕ
index [] = []
index (e ∷ l) = (e.key, e.node) ∷ index l

abbrev pub Distinct : List Entry → Type 0
Distinct [] = Unit
Distinct (e ∷ l) = (find e.key (index l) ≡ none) × (deref e.node l ≡ none) × Distinct l

abbrev pub Below : ℕ → List Entry → Type 0
Below n [] = Unit
Below n (e ∷ l) = (e.node < n) × Below n l

pub record IsValid (p : LruPolicy) : Type 0 where
  pub indexed : p.key_to_iter ≡ index p.access_list
  pub distinct : Distinct p.access_list
  pub below : Below p.next_node p.access_list

pub deref_fresh : (n : ℕ) (l : List Entry) → Below n l → deref n l ≡ none
unfolding deref
deref_fresh n [] h = refl
deref_fresh n (e ∷ l) h = ground (arith, deref_fresh n l)

pub Below-suc : (n : ℕ) (l : List Entry) → Below n l → Below (n + 1) l
Below-suc n [] h = tt
Below-suc n (e ∷ l) h = (omega arith, Below-suc n l h.1)

pub Below-erase_node : (n it : ℕ) (l : List Entry) → Below n l → Below n (erase_node it l)
unfolding erase_node
Below-erase_node n it [] h = tt
Below-erase_node n it (e ∷ l) h = elim (Bool-cases (e.node == it)) [
  | inl t ↦ rw t h.1
  | inr t ↦ rw t (h.0, Below-erase_node n it l h.1)
]

-- The iterator that the map holds for a key leads to the key's entry.
pub record Located (k : Bytes) (it : ℕ) (l : List Entry) : Type 0 where
  pub entry : Entry
  pub there : deref it l ≡ some entry
  pub keyed : entry.key ≡ k
  pub index_after : index (erase_node it l) ≡ erase k (index l)
  pub uses_after : uses_of (erase_node it l) ≡ without k (uses_of l)
  pub used : find_use k (uses_of l) ≡ some (use_of entry)
  pub shorter : length (erase_node it l) + 1 ≡ length l

pub without_absent :
    (k : Bytes) (l : List Entry) → find k (index l) ≡ none → without k (uses_of l) ≡ uses_of l
unfolding index find without uses_of
without_absent k [] h = refl
without_absent k (e ∷ l) h = ground (arith, without_absent k l)

pub locate :
    (k : Bytes) (it : ℕ) (l : List Entry) → Distinct l → find k (index l) ≡ some it → Located k it l
unfolding index find erase_node deref erase without uses_of find_use
locate k it [] d h = cc
locate k it (e ∷ l) d h = elim (Bool-cases (str_eq e.key k)) [
  | inl t ↦
      let same : e.key ≡ k = (str_eq_iff e.key k).0 t in
      record {
        entry = e;
        there = ground arith;
        keyed = same;
        index_after = ground (arith, erase_absent k (index l));
        uses_after = ground (arith, without_absent k l);
        used = ground arith;
        shorter = ground arith;
      }
  | inr t ↦
      let ih = locate k it l d.2 (ground arith) in
      let apart : (e.node == it) ≡ false = ground (arith, ih.there) in
      record {
        entry = ih.entry;
        there = rw apart ih.there;
        keyed = ih.keyed;
        index_after = ground (arith, ih.index_after);
        uses_after = ground (arith, ih.uses_after);
        used = rw t ih.used;
        shorter = rw apart (omega (arith, ih.shorter));
      }
]

deref-erase_node : (n it : ℕ) (l : List Entry) → deref n l ≡ none → deref n (erase_node it l) ≡ none
unfolding deref erase_node
deref-erase_node n it [] h = refl
deref-erase_node n it (e ∷ l) h = ground (arith, deref-erase_node n it l)

-- What is erased with its key stays distinct.
pub Distinct-erase_node :
    (k : Bytes) (it : ℕ) (l : List Entry)
    → Distinct l
    → find k (index l) ≡ some it
    → Distinct (erase_node it l)
unfolding index find erase_node
Distinct-erase_node k it [] d h = tt
Distinct-erase_node k it (e ∷ l) d h = elim (Bool-cases (str_eq e.key k)) [
  | inl t ↦ let here : (e.node == it) ≡ true = ground arith in rw here d.2
  | inr t ↦
      let at = locate k it l d.2 (ground arith) in
      let apart : (e.node == it) ≡ false = ground (arith, at.there) in
      rw apart (
        rw at.index_after (ground (arith, find-erase k e.key (index l))),
        deref-erase_node e.node it l d.1,
        Distinct-erase_node k it l d.2 (ground arith),
      )
]

pub find_use-index :
    (k : Bytes) (l : List Entry) → find_use k (uses_of l) ≡ none → find k (index l) ≡ none
unfolding index find find_use uses_of
find_use-index k [] h = refl
find_use-index k (e ∷ l) h = ground (arith, find_use-index k l)

pub find_use_absent :
    (k : Bytes) (l : List Entry) → find k (index l) ≡ none → find_use k (uses_of l) ≡ none
unfolding index find find_use uses_of
find_use_absent k [] h = refl
find_use_absent k (e ∷ l) h = ground (arith, find_use_absent k l)

-- What an access does to the uses: a key that is known comes to the front with the new time.
unfoldable pub access_use : Bytes → ℕ → List Use → List Use
access_use k t us = elim (find_use k us) [
  | none ↦ us
  | some u ↦ record u { last_access_ns = t } ∷ without k us
]
