-- ===== src/HashTable/Pressure.antt =====
-- The eviction loop under memory pressure: it ends, and it ends with the memory within its limit.
use distributed_in_memory_kv.Prelude.{
  ℕ, zero, suc, ◌+◌, ◌^◌, ◌≤◌, ◌<◌, ◌≡◌, ◌≢◌, refl, sym, ap, ◌∙◌, inl, inr, true, false, Option,
  none, some, [], ◌∷◌, Bytes, arith, length, str_eq_iff, ltb→le, Bool-cases, Option-cases,
}
use mathlib.Core.Bool.{false≢true}
use distributed_in_memory_kv.Wal.{WalRecord}
use distributed_in_memory_kv.Policy.Tracker
use distributed_in_memory_kv.Policy.Tracker.{Tracker}
use distributed_in_memory_kv.Policy.Accounts.{
  tracks, memory, limit, should_evict_lem, on_delete-After,
}
use distributed_in_memory_kv.Policy.Candidates.{get_eviction_candidate-Candidate}
use distributed_in_memory_kv.HashTable.Chain.{ValueEntry, find}
use distributed_in_memory_kv.HashTable.{
  HashTable, chain_of, log, remove_found, remove, is_empty, next_victim, evict_loop,
  evict_if_needed, resize_if_needed, place, insert, set_record,
}
use distributed_in_memory_kv.HashTable.Buckets.{view}
use distributed_in_memory_kv.HashTable.Valid.{
  IsValid, lookup, found?, log-IsValid, lookup-log, retrack-IsValid, remove-Updates, place-Updates,
  resize_if_needed-SameMap,
}
use distributed_in_memory_kv.HashTable.StoredBytes.{value_size, table_bytes, table_bytes_of_empty}
use distributed_in_memory_kv.HashTable.Memory.{
  Agrees, IsAccounted, log-IsAccounted, remove_there, place-IsAccounted, table_bytes-place-le,
}
use distributed_in_memory_kv.HashTable.ReadMemory.{
  tracker-resize_if_needed, resize_if_needed-IsAccounted,
}

remove_tracker :
    (k : Bytes) (t : HashTable) (v : ValueEntry)
    → lookup k t ≡ some v
    → (n : ℕ) × ((remove k t).1.tracker ≡ Tracker.on_delete k n t.tracker)
unfolding remove remove_found log lookup view
remove_tracker k t v e = elim (Option-cases (find k (chain_of k t.buckets))) [
  | inl absent ↦ absurd_lookup (rw absent at e)
  | inr (kv, f) ↦ (value_size kv, rw f)
]
  where
    absurd_lookup : {B : Type 0} → none ≡ some v → B
    absurd_lookup h = cc

lookup_of_found : (o : Option ValueEntry) → found? o ≡ true → (v : ValueEntry) × (o ≡ some v)
lookup_of_found none h = cc
lookup_of_found (some v) h = (v, refl)

none_of_found : (o : Option ValueEntry) → found? o ≡ false → o ≡ none
none_of_found none h = refl
none_of_found (some v) h = cc

is_empty_iff : (s : Bytes) → ((is_empty s ≡ true) → s ≡ []) × ((is_empty s ≡ false) → s ≢ [])
unfolding is_empty
is_empty_iff [] = (λ _. refl, λ h. cc)
is_empty_iff (c ∷ s) = (λ h. cc, λ h e. cc)

-- Where nothing is tracked nothing is stored, so there is no pressure.
no_pressure :
    {t : HashTable}
    → IsValid t
    → Agrees t
    → ((q : Bytes) → tracks q t.tracker ≡ false)
    → Tracker.should_evict t.tracker ≡ false
no_pressure {t} v a nothing =
    let empty : table_bytes t.buckets ≡ 0 =
      table_bytes_of_empty t.buckets v.placed
        (λ q. view_none q (none_of_found (lookup q t) (sym (a.tracked q) ∙ nothing q))) in
    should_evict_lem t.tracker ∙ ground (arith, a.counted)
  where
    view_none : (q : Bytes) → lookup q t ≡ none → view q t.buckets ≡ none
    view_none q h = unfold lookup in ground arith

still_over :
    {t : HashTable}
    → IsValid t
    → IsAccounted t
    → lookup [] t ≡ none
    → Tracker.should_evict t.tracker ≡ true
    → (next_victim t).0 ≡ []
    → ⊥
unfolding next_victim
still_over {t} v a clean over e =
    let c = get_eviction_candidate-Candidate t.tracker a.sound in
    let nothing = c.exhausted e (a.agrees.tracked [] ∙ ap found? clean) in
    false≢true (sym (no_pressure v a.agrees nothing) ∙ over)

-- The table after a removal of the eviction loop.
record Round (t t' : HashTable) : Type 0 where
  valid : IsValid t'
  accounted : IsAccounted t'
  no_empty_key : lookup [] t' ≡ none
  falls : Tracker.candidates t'.tracker < Tracker.candidates t.tracker
  same_limit : limit t'.tracker ≡ limit t.tracker

one-Round :
    {t : HashTable}
    → IsValid t
    → IsAccounted t
    → lookup [] t ≡ none
    → (next_victim t).0 ≢ []
    → Round t (remove (next_victim t).0 (next_victim t).1).1
unfolding next_victim lookup
one-Round {t} valid a clean ne =
    let c = get_eviction_candidate-Candidate t.tracker a.sound in
    let r = Tracker.get_eviction_candidate t.tracker in
    let t₁ : HashTable = record t { tracker = r.1 } in
    let valid₁ = retrack-IsValid r.1 valid in
    let (v, e) = lookup_of_found (lookup r.0 t) (sym (a.agrees.tracked r.0) ∙ c.chosen ne) in
    let (n, tracker) = remove_tracker r.0 t₁ v (e) in
    let u = remove-Updates r.0 valid₁ in
    record {
      valid = u.valid;
      accounted =
          remove_there r.0 valid₁ c.sound_but
            (record {
              tracked = λ q. c.same_keys q ∙ a.agrees.tracked q;
              counted = c.same_memory ∙ a.agrees.counted;
            })
            (e);
      no_empty_key = u.reads [] ∙ (ground (arith, clean));
      falls = rw tracker (c.falls n ne);
      same_limit =
          ap limit tracker ∙ ((on_delete-After r.0 n r.1 c.sound_but).same_limit ∙ c.same_limit);
    }

-- The table is valid, its policy agrees with it, it does not hold the empty key, and the memory is
-- within the limit, which is as before.
pub record Fits (t t' : HashTable) : Type 0 where
  pub valid : IsValid t'
  pub accounted : IsAccounted t'
  pub no_empty_key : lookup [] t' ≡ none
  pub fits : Tracker.should_evict t'.tracker ≡ false
  pub same_limit : limit t'.tracker ≡ limit t.tracker

evict_loop-Fits :
    (fuel : ℕ) {t : HashTable}
    → IsValid t
    → IsAccounted t
    → lookup [] t ≡ none
    → Tracker.candidates t.tracker < fuel
    → Fits t (evict_loop fuel t)
unfolding evict_loop
evict_loop-Fits zero v a clean f = absurd (omega arith)
evict_loop-Fits (suc fuel) {t} v a clean f = elim (Bool-cases (Tracker.should_evict t.tracker)) [
  | inr fits ↦
      rw fits
        (record { valid = v; accounted = a; no_empty_key = clean; fits = fits; same_limit = refl })
  | inl over ↦ elim (Bool-cases (is_empty (next_victim t).0)) [
    | inl none_left ↦
        absurd (still_over v a clean over ((is_empty_iff (next_victim t).0).0 none_left))
    | inr victim ↦
        let r = one-Round v a clean ((is_empty_iff (next_victim t).0).1 victim) in
        let rest =
          evict_loop-Fits fuel r.valid r.accounted r.no_empty_key (omega (arith, r.falls)) in
        rw (over, victim)
          (record {
            valid = rest.valid;
            accounted = rest.accounted;
            no_empty_key = rest.no_empty_key;
            fits = rest.fits;
            same_limit = rest.same_limit ∙ r.same_limit;
          })
  ]
]

-- Eviction on a valid table that does not hold the empty key and whose policy agrees with it ends by
-- the loop's own test, with the memory that the policy counts within the limit; the table is still
-- valid, its policy agrees with it, and it does not hold the empty key.
pub evict_if_needed-Fits :
    {t : HashTable} → IsValid t → IsAccounted t → lookup [] t ≡ none → Fits t (evict_if_needed t)
unfolding evict_if_needed
evict_if_needed-Fits {t} v a clean =
    evict_loop-Fits (suc (Tracker.candidates t.tracker)) v a clean (omega arith)

limit-log : (r : WalRecord) (t : HashTable) → limit (log r t).tracker ≡ limit t.tracker
unfolding log
limit-log r t = refl

-- The rest of `insert`, on a table that fits.
placed_bounded :
    (k : Bytes) (v : ValueEntry) {t : HashTable} {bound : ℕ}
    → IsValid t
    → IsAccounted t
    → lookup [] t ≡ none
    → k ≢ []
    → Tracker.should_evict t.tracker ≡ false
    → limit t.tracker + length v.value ≡ bound
    → bound < 2 ^ 64
    → let t' = place k v (resize_if_needed t) in
      IsValid t' × IsAccounted t' × (lookup [] t' ≡ none) × (table_bytes t'.buckets ≤ bound)
placed_bounded k v {t} valid a clean ne fits e room =
    let s = resize_if_needed-SameMap valid in
    let b = resize_if_needed-IsAccounted valid a in
    let u = place-Updates k v s.valid in
    let small : memory t.tracker ≤ limit t.tracker =
      ltb→le _ _ (sym (should_evict_lem t.tracker) ∙ fits) in
    let stored : table_bytes (resize_if_needed t).buckets ≡ memory t.tracker =
      sym b.agrees.counted ∙ ap memory (tracker-resize_if_needed t) in
    (
      u.valid,
      place-IsAccounted k v s.valid b (omega arith),
      u.reads [] ∙ ground (arith, str_eq_iff k [], s.reads [], clean),
      omega (arith, table_bytes-place-le k v s.valid),
    )

-- `insert` of a key that is not empty, on a valid table that does not hold the empty key and whose
-- policy agrees with it, where the limit and the value's size add up to less than 2 ^ 64: all of this
-- holds again of the table, and the bytes of the stored values are at most the memory limit and the
-- size of the new value together.
pub insert-bounded :
    (k : Bytes) (v : ValueEntry) {t : HashTable}
    → IsValid t
    → IsAccounted t
    → lookup [] t ≡ none
    → k ≢ []
    → limit t.tracker + length v.value < 2 ^ 64
    → IsValid (insert k v t)
      × IsAccounted (insert k v t)
      × (lookup [] (insert k v t) ≡ none)
      × (table_bytes (insert k v t).buckets ≤ limit t.tracker + length v.value)
unfolding insert
insert-bounded k v {t} valid a clean ne room =
    let r = set_record k v in
    let e =
      evict_if_needed-Fits (log-IsValid r valid) (log-IsAccounted r a)
        (lookup-log r [] t ∙ clean) in
    placed_bounded k v e.valid e.accounted e.no_empty_key ne e.fits
      (ap (λ n. n + length v.value) (e.same_limit ∙ limit-log r t)) room
