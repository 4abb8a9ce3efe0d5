-- ===== src/HashTable/StoredBytes.antt =====
-- The bytes of the values that a chain or a table stores, and what the writes do to them.
use distributed_in_memory_kv.Prelude.{
  ℕ, zero, suc, ◌+◌, ◌%◌, ◌<◌, ◌≡◌, refl, ap, ◌∙◌, Option, none, some, List, [], ◌∷◌, ◌++◌, Bytes,
  arith, flatten, length, get_or, set, replicate, length-replicate, length-set, str_eq_iff,
}
use distributed_in_memory_kv.HashTable.Chain.{KeyValuePair, find, replace, erase}
use distributed_in_memory_kv.HashTable.{
  HashTable, chain_of, set_chain, move_chain, move_all, rehash,
}
use distributed_in_memory_kv.HashTable.Buckets.{IsPlaced, view, home-lt}
use distributed_in_memory_kv.HashTable.Rehash.{flatten-view}

abbrev pub value_size : KeyValuePair → ℕ
value_size kv = length kv.value.value

unfoldable pub stored_bytes : List KeyValuePair → ℕ
stored_bytes [] = 0
stored_bytes (kv ∷ c) = value_size kv + stored_bytes c

-- What the whole table stores.
unfoldable pub table_bytes : List (List KeyValuePair) → ℕ
table_bytes [] = 0
table_bytes (c ∷ cs) = stored_bytes c + table_bytes cs

stored_bytes-append :
    (a b : List KeyValuePair) → stored_bytes (a ++ b) ≡ stored_bytes a + stored_bytes b
unfolding stored_bytes
stored_bytes-append [] b = omega arith
stored_bytes-append (kv ∷ a) b = omega (arith, stored_bytes-append a b)

pub stored_bytes-add :
    (kv : KeyValuePair) (c : List KeyValuePair)
    → stored_bytes (c ++ kv ∷ []) ≡ stored_bytes c + value_size kv
unfolding stored_bytes
stored_bytes-add kv c = omega (arith, stored_bytes-append c (kv ∷ []))

pub stored_bytes-erase :
    (k : Bytes) (c : List KeyValuePair) (kv : KeyValuePair)
    → find k c ≡ some kv
    → stored_bytes (erase k c) + value_size kv ≡ stored_bytes c
unfolding find erase stored_bytes
stored_bytes-erase k [] kv e = cc
stored_bytes-erase k (x ∷ c) kv e =
    ground (arith, stored_bytes-erase k c kv, ap (λ (o : Option KeyValuePair). bytes_in o) e)
  where
    bytes_in : Option KeyValuePair → ℕ
    bytes_in none = 0
    bytes_in (some kv) = value_size kv

pub stored_bytes-replace :
    (k : Bytes) (f : KeyValuePair → KeyValuePair) (c : List KeyValuePair) (kv : KeyValuePair)
    → find k c ≡ some kv
    → stored_bytes (replace k f c) + value_size kv ≡ stored_bytes c + value_size (f kv)
unfolding find replace stored_bytes
stored_bytes-replace k f [] kv e = cc
stored_bytes-replace k f (x ∷ c) kv e = ground (arith, stored_bytes-replace k f c kv)

table_bytes-set :
    (bs : List (List KeyValuePair)) (i : ℕ) (c : List KeyValuePair)
    → i < length bs
    → table_bytes (set bs i c) + stored_bytes (get_or bs i []) ≡ table_bytes bs + stored_bytes c
unfolding table_bytes get_or
table_bytes-set [] i c h = absurd (omega arith)
table_bytes-set (x ∷ bs) zero c h = omega arith
table_bytes-set (x ∷ bs) (suc i) c h = omega (arith, table_bytes-set bs i c (omega arith))

pub table_bytes-write :
    (k : Bytes) (c : List KeyValuePair) (bs : List (List KeyValuePair))
    → 0 < length bs
    → table_bytes (set_chain k c bs) + stored_bytes (chain_of k bs)
      ≡ table_bytes bs + stored_bytes c
unfolding set_chain chain_of
table_bytes-write k c bs wide = table_bytes-set bs _ c (home-lt k _ wide)

move_chain-bytes :
    (kvs : List KeyValuePair) (fresh : List (List KeyValuePair))
    → 0 < length fresh
    → (table_bytes (move_chain kvs fresh) ≡ table_bytes fresh + stored_bytes kvs)
      × (length (move_chain kvs fresh) ≡ length fresh)
unfolding move_chain stored_bytes
move_chain-bytes [] fresh wide = (omega arith, refl)
move_chain-bytes (kv ∷ kvs) fresh wide =
    let i = kv.hash % length fresh in
    let c = get_or fresh i [] ++ kv ∷ [] in
    let same = length-set fresh i c in
    let rest = move_chain-bytes kvs (set fresh i c) (rw same wide) in
    (
      omega (
        arith,
        rest.0,
        table_bytes-set fresh i c (omega arith),
        stored_bytes-add kv (get_or fresh i []),
      ),
      rest.1 ∙ same,
    )

move_all-bytes :
    (bs fresh : List (List KeyValuePair))
    → 0 < length fresh
    → table_bytes (move_all bs fresh) ≡ table_bytes fresh + table_bytes bs
unfolding move_all table_bytes
move_all-bytes [] fresh wide = omega arith
move_all-bytes (c ∷ cs) fresh wide =
    let one = move_chain-bytes c fresh wide in
    omega (arith, one.0, move_all-bytes cs (move_chain c fresh) (rw one.1 wide))

table_bytes-empty : (n : ℕ) → table_bytes (replicate n []) ≡ 0
unfolding table_bytes replicate stored_bytes
table_bytes-empty zero = refl
table_bytes-empty (suc n) = omega (arith, table_bytes-empty n)

pub table_bytes-rehash :
    (n : ℕ) (t : HashTable) → 0 < n → table_bytes (rehash n t).buckets ≡ table_bytes t.buckets
unfolding rehash
table_bytes-rehash n t pos = omega (
  arith,
  move_all-bytes t.buckets (replicate n [])
      (rw (length-replicate {A = List KeyValuePair} n []) pos),
  table_bytes-empty n,
)

pub table_bytes-flatten :
    (bs : List (List KeyValuePair)) → table_bytes bs ≡ stored_bytes (flatten bs)
unfolding table_bytes flatten stored_bytes
table_bytes-flatten [] = refl
table_bytes-flatten (c ∷ cs) =
    omega (arith, stored_bytes-append c (flatten cs), table_bytes-flatten cs)

stored_bytes_of_empty :
    (l : List KeyValuePair) → ((q : Bytes) → find q l ≡ none) → stored_bytes l ≡ 0
unfolding stored_bytes find
stored_bytes_of_empty [] h = refl
stored_bytes_of_empty (kv ∷ l) h = ground (arith, h kv.key, str_eq_iff kv.key kv.key)

-- A table that reads as empty stores nothing.
pub table_bytes_of_empty :
    (bs : List (List KeyValuePair))
    → IsPlaced bs
    → ((q : Bytes) → view q bs ≡ none)
    → table_bytes bs ≡ 0
table_bytes_of_empty bs p h =
    table_bytes-flatten bs ∙ stored_bytes_of_empty (flatten bs) (λ q. (flatten-view q p).0 ∙ h q)
