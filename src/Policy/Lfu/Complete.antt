-- ===== src/Policy/Lfu/Complete.antt =====
-- The heap of LFUPolicy: every tracked key has a current entry in it, so the lazy deletion finds a
-- candidate as long as a key is tracked.
use distributed_in_memory_kv.Prelude.{
  ℕ, suc, ◌≤◌, ◌<◌, ◌≡◌, ◌≢◌, refl, ap, inl, inr, Bool, true, false, ◌&&◌, ◌||◌, none, some, List,
  [], ◌∷◌, Bytes, arith, length, str_eq, str_eq_iff, ◌==◌, Option-cases, Bool-cases,
}
use distributed_in_memory_kv.Policy.StringMap.{StringMap, find, find-erase, find-assign}
use distributed_in_memory_kv.Policy.Lfu.{
  Entry, LfuPolicy, new, push, index_or_zero, access_tracked, on_access, on_insert, delete_tracked,
  on_delete, is_current, pop_current, get_eviction_candidate,
}

-- An entry of the heap for this key and count.
unfoldable pub in_heap : Bytes → ℕ → List Entry → Bool
in_heap q n [] = false
in_heap q n (e ∷ h) = (str_eq e.key q && e.access_count == n) || in_heap q n h

pub in_heap-push :
    (q : Bytes) (n : ℕ) (e : Entry) (h : List Entry) → in_heap q n (push e h) ≡ in_heap q n (e ∷ h)
unfolding in_heap push
in_heap-push q n e [] = refl
in_heap-push q n e (x ∷ h) = ground (arith, in_heap-push q n e h)

length-push : (e : Entry) (h : List Entry) → length (push e h) ≡ suc (length h)
unfolding push
length-push e [] = refl
length-push e (x ∷ h) = ground (arith, length-push e h)

-- Every tracked key but `k` has a current entry.
abbrev pub IsCompleteBut : Bytes → LfuPolicy → Type 0
IsCompleteBut k p =
    (q : Bytes) (n : ℕ) → q ≢ k → find q p.key_to_count ≡ some n → in_heap q n p.heap ≡ true

pub record IsComplete (p : LfuPolicy) : Type 0 where
  pub entries : (q : Bytes) (n : ℕ) → find q p.key_to_count ≡ some n → in_heap q n p.heap ≡ true

-- What the loop that pops stale entries leaves: its candidate is tracked, the entries of other
-- keys stay if they are current, and if it finds none, no key but the empty one is tracked.
pub record Pops (counts : StringMap ℕ) (h : List Entry) (r : Bytes × List Entry) : Type 0 where
  pub kept :
      (q : Bytes) (n : ℕ)
      → q ≢ r.0
      → find q counts ≡ some n
      → in_heap q n h ≡ true
      → in_heap q n r.1 ≡ true
  pub tracked : r.0 ≢ [] → find r.0 counts ≢ none
  pub exhausted :
      r.0 ≡ []
      → find [] counts ≡ none
      → (q : Bytes) (n : ℕ) → find q counts ≡ some n
      → in_heap q n h ≡ false
  pub shorter : r.0 ≢ [] → length r.1 < length h
  pub not_longer : length r.1 ≤ length h

pub pop_current-Pops :
    (counts : StringMap ℕ) (h : List Entry) → Pops counts h (pop_current counts h)
unfolding pop_current in_heap is_current
pop_current-Pops counts [] = record {
  kept = λ q n _ _ h. h;
  tracked = λ n. absurd (n refl);
  exhausted = λ _ _ q n _. refl;
  shorter = λ n. absurd (n refl);
  not_longer = omega arith;
}
pop_current-Pops counts (top ∷ h) =
    let ih = pop_current-Pops counts h in
    elim (Bool-cases (is_current counts top)) [
      | inl current ↦ rw current (record {
        kept = λ q n ne e m. ground (arith, str_eq_iff top.key q);
        tracked = λ ne e. ground arith;
        exhausted =
            λ e m q n f. let e' : top.key ≡ [] = e in ground (arith, ap (λ k. find k counts) e');
        shorter = λ _. omega arith;
        not_longer = omega arith;
      })
      | inr stale ↦ rw stale (record {
        kept = λ q n ne e m. ground (arith, ih.kept q n ne e, str_eq_iff top.key q);
        tracked = ih.tracked;
        exhausted = λ e m q n f. ground (arith, ih.exhausted e m q n f, str_eq_iff top.key q);
        shorter = λ ne. omega (arith, ih.shorter ne);
        not_longer = omega (arith, ih.not_longer);
      })
    ]

pub new-IsComplete : (limit : ℕ) → IsComplete (new limit)
unfolding new find
new-IsComplete limit = record { entries = λ q n e. cc }

pub on_insert-IsComplete :
    (key : Bytes) (value_size access_count : ℕ) {p : LfuPolicy}
    → IsComplete p
    → IsComplete (on_insert key value_size access_count p)
unfolding on_insert in_heap
on_insert-IsComplete key size count {p} c = record {
  entries = λ q n e.
      let pushed : Entry = record { key = key; access_count = count; value_size = size } in
      rw (in_heap-push q n pushed p.heap)
        (ground (arith, find-assign key q count p.key_to_count, c.entries q n));
}

tracked_access :
    (key : Bytes) (count old : ℕ) {p : LfuPolicy}
    → IsComplete p
    → IsComplete (access_tracked key count (some old) p)
unfolding access_tracked in_heap
tracked_access key count old {p} c = record {
  entries = λ q n e.
      let size = (index_or_zero key p.key_to_size).0 in
      let pushed : Entry = record { key = key; access_count = count; value_size = size } in
      rw (in_heap-push q n pushed p.heap)
        (ground (arith, find-assign key q count p.key_to_count, c.entries q n));
}

pub on_access-IsComplete :
    (key : Bytes) (access_count : ℕ) {p : LfuPolicy}
    → IsComplete p
    → IsComplete (on_access key access_count p)
unfolding on_access
on_access-IsComplete key count {p} c = elim (Option-cases (find key p.key_to_count)) [
  | inl e ↦ rw e c
  | inr (old, e) ↦ rw e (tracked_access key count old c)
]

pub on_delete-IsComplete :
    (key : Bytes) (value_size : ℕ) (p : LfuPolicy)
    → IsCompleteBut key p
    → IsComplete (on_delete key value_size p)
unfolding on_delete
on_delete-IsComplete key size p c = elim (Option-cases (find key p.key_to_count)) [
  | inl e ↦ rw e (record {
    entries = λ q n f. c q n (λ same. ground (arith, ap (λ k. find k p.key_to_count) same)) f;
  })
  | inr (old, e) ↦
      rw (e, delete_tracked)
        (record {
          entries = λ q n f.
              c q n (λ same. ground (arith, find-erase key q p.key_to_count, str_eq_iff key q))
                (ground (arith, find-erase key q p.key_to_count));
        })
]

-- The candidate's own entry is gone, every other key's is there.
pub candidate-IsCompleteBut :
    {p : LfuPolicy}
    → IsComplete p
    → IsCompleteBut (get_eviction_candidate p).0 (get_eviction_candidate p).1
unfolding get_eviction_candidate
candidate-IsCompleteBut {p} c =
    λ q n ne e. (pop_current-Pops p.key_to_count p.heap).kept q n ne e (c.entries q n e)

pub heap-on_delete :
    (key : Bytes) (value_size : ℕ) (p : LfuPolicy) → (on_delete key value_size p).heap ≡ p.heap
unfolding on_delete
heap-on_delete key value_size p = ground arith
