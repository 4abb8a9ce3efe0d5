-- ===== src/HashTable/Evict.antt =====
-- The eviction loop (`evict_if_needed` of engine/src/hash_table.cpp) and the table's entries.
use distributed_in_memory_kv.Prelude.{
  ℕ, zero, suc, ◌≡◌, refl, ◌⊎◌, inl, inr, false, none, Bytes, arith, Bool-cases,
}
use distributed_in_memory_kv.Policy.Tracker
use distributed_in_memory_kv.Policy.Tracker.{Tracker}
use distributed_in_memory_kv.HashTable.{
  HashTable, remove, is_empty, next_victim, evict_loop, evict_if_needed,
}
use distributed_in_memory_kv.HashTable.Valid.{IsValid, lookup, retrack-IsValid, remove-Updates}

module _ (P : HashTable → Type 0) (step : (k : Bytes) (t : HashTable) → P t → P (remove k t).1)
    (retrack : (tracker : Tracker) (t : HashTable) → P t → P (record t { tracker = tracker })) where
  -- What removals and the policy's own changes keep, the eviction loop keeps.
  pub evict_loop_induction : (fuel : ℕ) (t : HashTable) → P t → P (evict_loop fuel t)
  unfolding evict_loop
  evict_loop_induction zero t h = h
  evict_loop_induction (suc fuel) t h =
      let (victim, t') = next_victim t in
      let h' : P t' = retrack _ t h in
      elim (Bool-cases (Tracker.should_evict t.tracker)) [
        | inr fits ↦ rw fits h
        | inl over ↦ elim (Bool-cases (is_empty victim)) [
          | inl end ↦ rw (over, end) h'
          | inr more ↦ rw (over, more) (evict_loop_induction fuel _ (step victim t' h'))
        ]
      ]

-- The table is valid, and for each key holds what it held or nothing.
pub record Shrinks (t t' : HashTable) : Type 0 where
  pub valid : IsValid t'
  pub reads : (q : Bytes) → (lookup q t' ≡ lookup q t) ⊎ (lookup q t' ≡ none)

-- Eviction on a valid table keeps it valid, and every key then reads as before or as absent.
pub evict_if_needed-Shrinks : {t : HashTable} → IsValid t → Shrinks t (evict_if_needed t)
unfolding evict_if_needed
evict_if_needed-Shrinks {t} v =
    evict_loop_induction (Shrinks t)
      (λ k t' s.
        let u = remove-Updates k s.valid in
        record { valid = u.valid; reads = λ q. ground (arith, u.reads q, s.reads q) })
      (λ tracker t' s. record {
        valid = retrack-IsValid tracker s.valid;
        reads = λ q. unfold lookup in s.reads q;
      })
      (suc (Tracker.candidates t.tracker)) t (record { valid = v; reads = λ q. inl refl })

-- Without memory pressure nothing is evicted.
pub evict_none : (t : HashTable) → Tracker.should_evict t.tracker ≡ false → evict_if_needed t ≡ t
unfolding evict_if_needed
evict_none t e = rw e
