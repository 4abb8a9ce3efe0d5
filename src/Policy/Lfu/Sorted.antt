-- ===== src/Policy/Lfu/Sorted.antt =====
-- The order of LFUPolicy's heap (engine/src/lfu_policy.cpp), and what is popped from it.
use distributed_in_memory_kv.Prelude.{
  ℕ, ◌≤◌, ◌≡◌, ap, inl, inr, true, false, ◌&&◌, some, List, [], ◌∷◌, Bytes, arith, str_eq,
  str_eq_iff, ◌==◌, ltb, Bool-cases, sym, if_of_true, if_of_false,
}
use mathlib.Core.Path.{subst}
use distributed_in_memory_kv.Policy.StringMap.{StringMap, find}
use distributed_in_memory_kv.Policy.Lfu.{Entry, push, is_current, pop_current}
use distributed_in_memory_kv.Policy.Lfu.Complete.{in_heap, in_heap-push}

-- No count in the heap is below that of an entry before it.
abbrev pub IsSorted : List Entry → Type 0
IsSorted [] = Unit
IsSorted (e ∷ h) = ((q : Bytes) (n : ℕ) → in_heap q n h ≡ true → e.access_count ≤ n) × IsSorted h

pub push-IsSorted : (e : Entry) (h : List Entry) → IsSorted h → IsSorted (push e h)
unfolding push in_heap
push-IsSorted e [] s = (λ q n here. cc, tt)
push-IsSorted e (x ∷ h) (low, s) =
    let rest = push-IsSorted e h s in
    elim (Bool-cases (ltb e.access_count x.access_count)) [
      | inl below ↦
          subst IsSorted (sym (if_of_true (e ∷ x ∷ h) (x ∷ push e h) below))
            (λ q n here. ground (arith, low q n), (low, s))
      | inr above ↦
          subst IsSorted (sym (if_of_false (e ∷ x ∷ h) (x ∷ push e h) above))
            (λ q n here. ground (arith, low q n, in_heap-push q n e h), rest)
    ]

-- The entries that are left are sorted, and the candidate's count is the least of all that have an entry.
pub record Least (counts : StringMap ℕ) (h : List Entry) (r : Bytes × List Entry) : Type 0 where
  pub sorted : IsSorted r.1
  pub least :
      (q : Bytes) (m : ℕ)
      → find q counts ≡ some m
      → in_heap q m h ≡ true
      → (c : ℕ) × (find r.0 counts ≡ some c) × (c ≤ m)

current_count :
    (counts : StringMap ℕ) (e : Entry)
    → is_current counts e ≡ true
    → find e.key counts ≡ some e.access_count
unfolding is_current
current_count counts e h = ground arith

stale_count :
    (counts : StringMap ℕ) (e : Entry) (q : Bytes) (m : ℕ)
    → is_current counts e ≡ false
    → find q counts ≡ some m
    → (str_eq e.key q && e.access_count == m) ≡ false
unfolding is_current
stale_count counts e q m stale f = ground (arith, str_eq_iff e.key q, ap (λ k. find k counts))

pub pop_current-Least :
    (counts : StringMap ℕ) (h : List Entry) → IsSorted h → Least counts h (pop_current counts h)
unfolding pop_current in_heap
pop_current-Least counts [] s = record { sorted = tt; least = λ q m f here. cc }
pop_current-Least counts (top ∷ h) (low, s) =
    let rest = pop_current-Least counts h s in
    elim (Bool-cases (is_current counts top)) [
      | inl current ↦ rw current (record {
        sorted = s;
        least = λ q m f here.
            (top.access_count, current_count counts top current, ground (arith, low q m));
      })
      | inr stale ↦ rw stale (record {
        sorted = rest.sorted;
        least = λ q m f here. rest.least q m f (ground (arith, stale_count counts top q m stale f));
      })
    ]
