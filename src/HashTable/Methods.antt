-- ===== src/HashTable/Methods.antt =====
-- `insert` and `get` of engine/src/hash_table.cpp against the map that the table stands for.
use distributed_in_memory_kv.Prelude.{
  ℕ, ◌≡◌, refl, ap, ◌∙◌, ◌⊎◌, inl, inr, false, Option, none, some, Bytes, arith, str_eq_iff,
  if◌then◌else◌, str_eq, Bool-cases, ◌&&◌, true, if_of_true, ◌==◌, ◌||◌, ltb, ◌+◌, ◌%◌, ◌^◌,
}
use distributed_in_memory_kv.Policy.Tracker
use distributed_in_memory_kv.Policy.Tracker.{Tracker}
use distributed_in_memory_kv.HashTable.Chain
use distributed_in_memory_kv.HashTable.Chain.{
  KeyValuePair, ValueEntry, find, find-key, length-replace, length-erase,
}
use distributed_in_memory_kv.HashTable.{
  HashTable, chain_of, set_chain, log, insert, set_record, is_expired, touch, get_found, get,
}
use distributed_in_memory_kv.HashTable.Buckets.{view, replace-Wrote, length_write}
use distributed_in_memory_kv.HashTable.Valid.{
  IsValid, lookup, Updates, Updates-of, found?, log-IsValid, lookup-log, lookup_of_find,
  place-Updates, resize_if_needed-SameMap,
}
use distributed_in_memory_kv.HashTable.Evict.{evict_if_needed-Shrinks, evict_none}

-- What an insertion leaves, evictions included.
pub record Inserts (k : Bytes) (v : ValueEntry) (t t' : HashTable) : Type 0 where
  pub valid : IsValid t'
  pub stored : lookup k t' ≡ some v
  pub others : (q : Bytes) → (q ≡ k) ⊎ ((lookup q t' ≡ lookup q t) ⊎ (lookup q t' ≡ none))

-- After `insert` on a valid table the table is valid and holds the entry under its key, and every
-- other key reads as before or, having been evicted, as absent.
pub insert-Inserts :
    (k : Bytes) (v : ValueEntry) {t : HashTable} → IsValid t → Inserts k v t (insert k v t)
unfolding insert
insert-Inserts k v {t} valid =
    let e = evict_if_needed-Shrinks (log-IsValid (set_record k v) valid) in
    let r = resize_if_needed-SameMap e.valid in
    let u = place-Updates k v r.valid in
    record {
      valid = u.valid;
      stored = u.reads k ∙ ground (arith, str_eq_iff k k);
      others = λ q.
          ground (
            arith,
            u.reads q,
            r.reads q,
            e.reads q,
            lookup-log (set_record k v) q t,
            str_eq_iff k q,
          );
    }

-- `insert` on a valid table whose memory is within the limit evicts nothing: it leaves a valid
-- table that holds the entry under its key and reads as before for every other key.
pub insert-Updates :
    (k : Bytes) (v : ValueEntry) {t : HashTable}
    → IsValid t
    → Tracker.should_evict t.tracker ≡ false
    → Updates k (some v) t (insert k v t)
unfolding insert
insert-Updates k v {t} valid fits =
    let t₁ = log (set_record k v) t in
    let r = resize_if_needed-SameMap (log-IsValid (set_record k v) valid) in
    let u = place-Updates k v r.valid in
    rw (evict_none t₁ fits) (record {
      valid = u.valid;
      reads = λ q. u.reads q ∙ rw (r.reads q, lookup-log (set_record k v) q t) refl;
    })

-- An entry after an access at time `now`: the count is one more, wrapping at 64 bits.
unfoldable pub accessed : ℕ → ValueEntry → ValueEntry
accessed now v = record {
  value = v.value;
  access_count = (v.access_count + 1) % 2 ^ 64;
  last_access_ns = now;
  expiry_ns = v.expiry_ns;
}

-- What a lookup is to answer, of what is held for the key: an expiry time of 0 is none.
unfoldable pub answer : ℕ → ℕ → Option ValueEntry → Option ValueEntry
answer now_check now_access none = none
answer now_check now_access (some v) =
    if v.expiry_ns == 0 || ltb now_check v.expiry_ns then some (accessed now_access v) else none

answer-dead : (n m : ℕ) (v : ValueEntry) → is_expired n v ≡ true → answer n m (some v) ≡ none
unfolding answer is_expired
answer-dead n m v h = ground arith

pub answer-live :
    (n m : ℕ) (v : ValueEntry) → is_expired n v ≡ false → answer n m (some v) ≡ some (touch m v)
unfolding answer is_expired accessed touch
answer-live n m v h = if_of_true (some (accessed m v)) none (ground arith)

pub record Gets (k : Bytes) (now_check now_access : ℕ) (t : HashTable)
    (r : Option ValueEntry × HashTable) : Type 0 where
  pub valid : IsValid r.1
  pub result : r.0 ≡ answer now_check now_access (lookup k t)
  pub reads : (q : Bytes) → lookup q r.1 ≡ (if str_eq k q && found? r.0 then r.0 else lookup q t)

get_found-Gets :
    (k : Bytes) (now_check now_access : ℕ) (found : Option KeyValuePair) {t : HashTable}
    → IsValid t
    → find k (chain_of k t.buckets) ≡ found
    → Gets k now_check now_access t (get_found k now_check now_access found t)
unfolding get_found view lookup
get_found-Gets k n m none {t} v e = record {
  valid = v;
  result = rw (lookup_of_find k none t e) (unfold answer in refl);
  reads = λ q. ground arith;
}
get_found-Gets k n m (some old) {t} v e =
    let c = chain_of k t.buckets in
    let f : KeyValuePair → KeyValuePair = λ kv. record kv { value = touch m kv.value } in
    let l = lookup_of_find k (some old) t e in
    elim (Bool-cases (is_expired n old.value)) [
      | inl dead ↦ rw dead (record {
        valid = v;
        result = rw (l, answer-dead n m old.value dead) refl;
        reads = λ q. ground arith;
      })
      | inr live ↦
          let u =
            Updates-of {t = t}
              {t' = record t { buckets = set_chain k (Chain.replace k f c) t.buckets }}
              (replace-Wrote k f v.placed (λ kv. refl) (λ kv _ h. h) e)
              (omega (
                arith,
                v.counted,
                length_write k (Chain.replace k f c) t.buckets v.placed.wide,
                length-replace k f c,
              )) in
          rw live (record {
            valid = record { placed = u.valid.placed; counted = u.valid.counted };
            result = rw (l, answer-live n m old.value live) refl;
            reads = λ q. u.reads q ∙ ground arith;
          })
    ]

-- `get` on a valid table keeps it valid. If the key has an entry whose expiry time is 0 or after the
-- time at the test, it answers with that entry's value and expiry time, an access count that is one
-- more (modulo 2 ^ 64) and the time of the access; otherwise it answers with nothing. The entry it
-- answers with is what the key then reads as, and nothing else of the map changes.
pub get-Gets :
    (k : Bytes) (now_check now_access : ℕ) {t : HashTable}
    → IsValid t
    → Gets k now_check now_access t (get k now_check now_access t)
unfolding get
get-Gets k n m v = get_found-Gets k n m _ v refl

found-answer :
    (n m : ℕ) (o : Option ValueEntry)
    → found? (if found? (answer n m o) then answer n m o else o) ≡ found? o
unfolding answer
found-answer n m none = refl
found-answer n m (some v) = ground arith

-- A lookup changes the presence of no key.
pub get-found :
    (k q : Bytes) (now_check now_access : ℕ) {t : HashTable}
    → IsValid t
    → found? (lookup q (get k now_check now_access t).1) ≡ found? (lookup q t)
get-found k q n m {t} v =
    let g = get-Gets k n m v in
    elim (Bool-cases (str_eq k q)) [
      | inl same ↦
          let eq : k ≡ q = (str_eq_iff k q).0 same in
          let here : lookup k t ≡ lookup q t = ap (λ x. lookup x t) eq in
          rw (g.reads q, same, g.result, here) (found-answer n m (lookup q t))
      | inr other ↦ rw (g.reads q, other) refl
    ]
