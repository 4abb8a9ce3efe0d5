-- ===== src/HashTable/Buckets.antt =====
-- Where the pairs of a table stand, what can be read from the buckets, and a write to one chain.
use distributed_in_memory_kv.Prelude.{
  ℕ, ◌+◌, ◌≤◌, ◌<◌, ◌≡◌, ◌≢◌, ◌∙◌, Bool, true, false, Option, none, some, List, [], ◌∷◌, ◌++◌,
  Bytes, arith, flatten, length, get_or, length-set, get_or-set, length-flatten-set, str_eq,
  str_eq_iff, ◌==◌, if◌then◌else◌,
}
use mathlib.Core.Option.{or_else}
use distributed_in_memory_kv.Hash.{hash}
use distributed_in_memory_kv.HashTable.Chain.{
  KeyValuePair, find, replace, erase, count, AllHashed, KeepsKey, count_of_find, find-append,
  count-append, find-replace, count-replace, find-erase, count-erase-le, AllHashed-append,
  AllHashed-replace, AllHashed-erase,
}
use distributed_in_memory_kv.HashTable.{home, chain_of, set_chain}

abbrev Buckets : Type 0
Buckets = List (List KeyValuePair)

pub home-lt : (k : Bytes) (n : ℕ) → 0 < n → home k n < n
unfolding home
home-lt k n h = omega arith

-- There is a bucket; a key stands once at most, and in its own bucket only; each pair carries the
-- hash of its key.
pub record IsPlaced (bs : Buckets) : Type 0 where
  pub wide : 0 < length bs
  pub once : (q : Bytes) (i : ℕ) → count q (get_or bs i []) ≤ 1
  pub at_home : (q : Bytes) (i : ℕ) → home q (length bs) ≢ i → count q (get_or bs i []) ≡ 0
  pub hashed : (i : ℕ) → AllHashed (get_or bs i [])

-- What a search for the key in its bucket finds.
unfoldable pub view : Bytes → Buckets → Option KeyValuePair
view q bs = find q (chain_of q bs)

pub length-set_chain :
    (k : Bytes) (c : List KeyValuePair) (bs : Buckets) → length (set_chain k c bs) ≡ length bs
unfolding set_chain
length-set_chain k c bs = length-set bs _ c

-- The chains after a write to the chain of `k`.
get_or-set_chain :
    (k : Bytes) (c : List KeyValuePair) (bs : Buckets) (i : ℕ)
    → 0 < length bs
    → get_or (set_chain k c bs) i [] ≡ (if home k (length bs) == i then c else get_or bs i [])
unfolding set_chain
get_or-set_chain k c bs i wide = get_or-set bs _ i c [] (home-lt k _ wide)

pub set_chain-IsPlaced :
    (k : Bytes) (c : List KeyValuePair) {bs : Buckets}
    → IsPlaced bs
    → ((q : Bytes) → count q c ≤ 1)
    → ((q : Bytes) → home q (length bs) ≢ home k (length bs) → count q c ≡ 0)
    → AllHashed c
    → IsPlaced (set_chain k c bs)
set_chain-IsPlaced k c {bs} p once apart hashed = record {
  wide = rw length-set_chain p.wide;
  once = λ q i. rw (get_or-set_chain k c bs i p.wide) (ground (arith, once q, p.once q i));
  at_home = λ q i.
      rw (get_or-set_chain k c bs i p.wide, length-set_chain k c bs)
        (ground (arith, apart q, p.at_home q i));
  hashed =
      λ i. rw (get_or-set_chain k c bs i p.wide) (choose (home k (length bs) == i) _ (p.hashed i));
}
  where
    choose : (b : Bool) (d : List KeyValuePair) → AllHashed d → AllHashed (if b then c else d)
    choose true d h = hashed
    choose false d h = h

-- A write that changes what the chain says of `k` alone changes what the table says of `k` alone.
pub view-set_chain :
    (k q : Bytes) (c : List KeyValuePair) (bs : Buckets) (found : Option KeyValuePair)
    → 0 < length bs
    → find q c ≡ (if str_eq k q then found else find q (chain_of k bs))
    → view q (set_chain k c bs) ≡ (if str_eq k q then found else view q bs)
unfolding view chain_of
view-set_chain k q c bs found wide e =
    rw (length-set_chain k c bs, get_or-set_chain k c bs (home q (length bs)) wide)
      (ground (arith, e, str_eq_iff k q))

-- `bs'` comes from `bs` by one write: it reads `found` at `k`, and elsewhere as before.
pub record Wrote (k : Bytes) (found : Option KeyValuePair) (bs bs' : Buckets) : Type 0 where
  pub placed : IsPlaced bs'
  pub width : length bs' ≡ length bs
  pub reads : (q : Bytes) → view q bs' ≡ (if str_eq k q then found else view q bs)

pub length_write :
    (k : Bytes) (c : List KeyValuePair) (bs : Buckets)
    → 0 < length bs
    → length (flatten (set_chain k c bs)) + length (chain_of k bs) ≡ length (flatten bs) + length c
unfolding set_chain chain_of
length_write k c bs wide = omega (arith, length-flatten-set c _ bs (home-lt k _ wide))

pub replace-Wrote :
    (k : Bytes) (f : KeyValuePair → KeyValuePair) {bs : Buckets} {old : KeyValuePair}
    → IsPlaced bs
    → KeepsKey f
    → ((kv : KeyValuePair) → kv.key ≡ k → kv.hash ≡ hash kv.key → (f kv).hash ≡ hash (f kv).key)
    → view k bs ≡ some old
    → Wrote k (some (f old)) bs (set_chain k (replace k f (chain_of k bs)) bs)
unfolding view chain_of
replace-Wrote k f {bs} {old} p keeps hashes e =
    let c = get_or bs (home k (length bs)) [] in
    record {
      placed =
          set_chain-IsPlaced k _ p (λ q. rw (count-replace k q f c keeps) (p.once q _))
            (λ q n. rw (count-replace k q f c keeps) (p.at_home q _ n))
            (AllHashed-replace k f c hashes (p.hashed _));
      width = length-set_chain k _ bs;
      reads = λ q.
          view-set_chain k q _ bs _ p.wide
            (find-replace k q f c keeps ∙ ground (arith, e, str_eq_iff k q));
    }

pub erase-Wrote :
    (k : Bytes) {bs : Buckets}
    → IsPlaced bs
    → Wrote k none bs (set_chain k (erase k (chain_of k bs)) bs)
unfolding chain_of
erase-Wrote k {bs} p =
    let c = get_or bs (home k (length bs)) [] in
    record {
      placed =
          set_chain-IsPlaced k _ p
            (λ q. omega (arith, count-erase-le k q c, p.once q (home k (length bs))))
            (λ q n. omega (arith, count-erase-le k q c, p.at_home q _ n))
            (AllHashed-erase k c (p.hashed _));
      width = length-set_chain k _ bs;
      reads = λ q. view-set_chain k q _ bs _ p.wide (find-erase k q c (p.once q _));
    }

pub append-Wrote :
    (kv : KeyValuePair) {bs : Buckets}
    → IsPlaced bs
    → kv.hash ≡ hash kv.key
    → view kv.key bs ≡ none
    → Wrote kv.key (some kv) bs (set_chain kv.key (chain_of kv.key bs ++ kv ∷ []) bs)
unfolding view chain_of count find or_else
append-Wrote kv {bs} p hashed absent =
    let k = kv.key in
    let c = get_or bs (home k (length bs)) [] in
    record {
      placed =
          set_chain-IsPlaced k _ p
            (λ q.
              rw (count-append q c (kv ∷ []))
                (ground (arith, p.once q (home k (length bs)), count_of_find k c, str_eq_iff k q)))
            (λ q n.
              rw (count-append q c (kv ∷ []))
                (ground (arith, p.at_home q (home k (length bs)), str_eq_iff k q)))
            (AllHashed-append c (kv ∷ []) (p.hashed _) (hashed, tt));
      width = length-set_chain k _ bs;
      reads = λ q.
          view-set_chain k q _ bs _ p.wide
            (find-append q c (kv ∷ []) ∙ ground (arith, absent, str_eq_iff k q));
    }
