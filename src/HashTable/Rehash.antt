-- ===== src/HashTable/Rehash.antt =====
-- `rehash`: the pairs that the two loops move, and where they come to stand.
use distributed_in_memory_kv.Prelude.{
  ℕ, zero, suc, ◌+◌, ◌%◌, ◌≤◌, ◌<◌, ◌≡◌, ◌≢◌, refl, sym, ap, ◌∙◌, none, List, [], ◌∷◌, ◌++◌, Bytes,
  arith, flatten, length, get_or, set, replicate, length-replicate, get_or-replicate, length-append,
  str_eq_iff,
}
use mathlib.Core.Option.{or_else}
use distributed_in_memory_kv.Hash.{hash}
use distributed_in_memory_kv.HashTable.Chain.{
  KeyValuePair, find, count, AllHashed, AllHashed-append, find_of_count, find-append, count-append,
}
use distributed_in_memory_kv.HashTable.{
  HashTable, home, chain_of, set_chain, move_chain, move_all, rehash,
}
use distributed_in_memory_kv.HashTable.Buckets.{IsPlaced, view, append-Wrote, length_write}

-- Where a key stands in one bucket only, all buckets together read like that one.
count-flatten_nowhere :
    (buckets : List (List KeyValuePair)) (q : Bytes)
    → ((at : ℕ) → count q (get_or buckets at []) ≡ 0)
    → count q (flatten buckets) ≡ 0
unfolding count flatten get_or
count-flatten_nowhere [] q nowhere = refl
count-flatten_nowhere (c ∷ buckets) q nowhere =
    let later = count-flatten_nowhere buckets q (λ at. nowhere (suc at)) in
    omega (arith, nowhere 0, later, count-append q c (flatten buckets))

find-flatten :
    (only : ℕ) (buckets : List (List KeyValuePair)) (q : Bytes)
    → ((at : ℕ) → only ≢ at → count q (get_or buckets at []) ≡ 0)
    → let bucket = get_or buckets only [] in
      (find q (flatten buckets) ≡ find q bucket) × (count q (flatten buckets) ≡ count q bucket)
unfolding or_else flatten get_or
find-flatten only [] q elsewhere = (refl, refl)
find-flatten (suc only) (c ∷ buckets) q elsewhere =
    let not_here = elsewhere 0 (omega arith) in
    let ih = find-flatten only buckets q (λ at n. elsewhere (suc at) (omega arith)) in
    (
      find-append q c (flatten buckets) ∙ rw (find_of_count q c not_here) ih.0,
      omega (arith, count-append q c (flatten buckets), not_here, ih.1),
    )
find-flatten zero (c ∷ buckets) q elsewhere =
    let none_left = count-flatten_nowhere buckets q (λ at. elsewhere (suc at) (omega arith)) in
    (
      find-append q c (flatten buckets)
          ∙ (rw (find_of_count q (flatten buckets) none_left) (ground arith)),
      omega (arith, count-append q c (flatten buckets), none_left),
    )

pub flatten-view :
    (q : Bytes) {bs : List (List KeyValuePair)}
    → IsPlaced bs
    → (find q (flatten bs) ≡ view q bs) × (count q (flatten bs) ≤ 1)
unfolding view chain_of
flatten-view q {bs} p =
    let (found, counted) = find-flatten (home q (length bs)) bs q (p.at_home q) in
    (found, omega (arith, p.once q (home q (length bs))))

AllHashed-flatten :
    (bs : List (List KeyValuePair))
    → ((i : ℕ) → AllHashed (get_or bs i []))
    → AllHashed (flatten bs)
unfolding flatten get_or
AllHashed-flatten [] h = tt
AllHashed-flatten (c ∷ cs) h =
    AllHashed-append c (flatten cs) (h 0) (AllHashed-flatten cs (λ i. h (suc i)))

move_chain-append :
    (a b : List KeyValuePair) (fresh : List (List KeyValuePair))
    → move_chain (a ++ b) fresh ≡ move_chain b (move_chain a fresh)
unfolding move_chain
move_chain-append [] b fresh = refl
move_chain-append (kv ∷ a) b fresh = move_chain-append a b _

-- The two nested loops are one loop over all the pairs.
move_all-flatten :
    (bs fresh : List (List KeyValuePair)) → move_all bs fresh ≡ move_chain (flatten bs) fresh
unfolding move_all flatten
move_all-flatten [] fresh = refl
move_all-flatten (c ∷ cs) fresh =
    move_all-flatten cs (move_chain c fresh) ∙ sym (move_chain-append c (flatten cs) fresh)

-- The buckets after some pairs have been moved in.
pub record Moved (kvs : List KeyValuePair) (fresh bs : List (List KeyValuePair)) : Type 0 where
  pub placed : IsPlaced bs
  pub width : length bs ≡ length fresh
  pub entries : length (flatten bs) ≡ length (flatten fresh) + length kvs
  pub reads : (q : Bytes) → view q bs ≡ or_else (view q fresh) (find q kvs)

moved_one :
    (kv : KeyValuePair) (fresh : List (List KeyValuePair))
    → kv.hash ≡ hash kv.key
    → set fresh (kv.hash % length fresh) (get_or fresh (kv.hash % length fresh) [] ++ kv ∷ [])
      ≡ set_chain kv.key (chain_of kv.key fresh ++ kv ∷ []) fresh
unfolding set_chain chain_of home
moved_one kv fresh e =
    ap (λ h. set fresh (h % length fresh) (get_or fresh (h % length fresh) [] ++ kv ∷ [])) e

move_chain-Moved :
    (kvs : List KeyValuePair) (fresh : List (List KeyValuePair))
    → IsPlaced fresh
    → AllHashed kvs
    → ((q : Bytes) → count q kvs ≤ 1)
    → ((q : Bytes) → 0 < count q kvs → view q fresh ≡ none)
    → Moved kvs fresh (move_chain kvs fresh)
unfolding move_chain find count or_else
move_chain-Moved [] fresh p hashed once apart = record {
  placed = p;
  width = refl;
  entries = omega arith;
  reads = λ q. ground arith;
}
move_chain-Moved (kv ∷ kvs) fresh p hashed once apart =
    let one =
      append-Wrote kv p hashed.0 (apart kv.key (ground (arith, str_eq_iff kv.key kv.key))) in
    let weight = length_write kv.key (chain_of kv.key fresh ++ kv ∷ []) fresh p.wide in
    let rest =
      move_chain-Moved kvs _ one.placed hashed.1 (λ q. ground (arith, once q))
        (λ q h. ground (arith, one.reads q, once q, apart q, str_eq_iff kv.key q)) in
    rw (moved_one kv fresh hashed.0) (record {
      placed = rest.placed;
      width = rest.width ∙ one.width;
      entries =
          omega (arith, rest.entries, weight, length-append (chain_of kv.key fresh) (kv ∷ []));
      reads = λ q. ground (arith, rest.reads q, one.reads q, apart q);
    })

pub empty-IsPlaced : (n : ℕ) → 0 < n → IsPlaced (replicate n [])
unfolding count
empty-IsPlaced n h = record {
  wide = rw (length-replicate {A = List KeyValuePair} n []) h;
  once = λ q i. rw (get_or-replicate {A = List KeyValuePair} n i []) (omega arith);
  at_home = λ q i _. rw (get_or-replicate {A = List KeyValuePair} n i []);
  hashed = λ i. rw (get_or-replicate {A = List KeyValuePair} n i []) tt;
}

pub view-empty : (n : ℕ) (q : Bytes) → view q (replicate n []) ≡ none
unfolding view chain_of find
view-empty n q = rw (get_or-replicate {A = List KeyValuePair} n _ [])

pub length-flatten-empty : (n : ℕ) → length (flatten {A = KeyValuePair} (replicate n [])) ≡ 0
unfolding flatten replicate
length-flatten-empty zero = refl
length-flatten-empty (suc n) = length-flatten-empty n

-- Rehashing a table whose pairs are in their places into any positive number of buckets keeps what can be read and how many pairs there
-- are, and leaves every pair in its place.
pub rehash-Moved :
    (n : ℕ) (t : HashTable)
    → 0 < n
    → IsPlaced t.buckets
    → IsPlaced (rehash n t).buckets
      × (length (rehash n t).buckets ≡ n)
      × (length (flatten (rehash n t).buckets) ≡ length (flatten t.buckets))
      × ((q : Bytes) → view q (rehash n t).buckets ≡ view q t.buckets)
unfolding rehash or_else
rehash-Moved n t pos p =
    let moved =
      move_chain-Moved (flatten t.buckets) (replicate n []) (empty-IsPlaced n pos)
        (AllHashed-flatten t.buckets p.hashed) (λ q. (flatten-view q p).1)
        (λ q _. view-empty n q) in
    rw (move_all-flatten t.buckets (replicate n [])) (
      moved.placed,
      moved.width ∙ length-replicate n [],
      omega (arith, moved.entries, length-flatten-empty n),
      λ q. ground (arith, moved.reads q, view-empty n q, (flatten-view q p).0),
    )
