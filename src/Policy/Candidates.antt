-- ===== src/Policy/Candidates.antt =====
-- Under pressure either policy has a candidate for eviction (`get_eviction_candidate` of
-- engine/src/lru_policy.cpp and engine/src/lfu_policy.cpp).
use distributed_in_memory_kv.Prelude.{
  ℕ, ◌<◌, ◌≡◌, ◌≢◌, refl, ap, inl, inr, true, false, Option, none, some, [], Bytes, arith, length,
  Option-cases,
}
use distributed_in_memory_kv.Policy.StringMap.{find}
use distributed_in_memory_kv.Policy.Lru
use distributed_in_memory_kv.Policy.Lru.{LruPolicy, release}
use distributed_in_memory_kv.Policy.Lru.Order
use distributed_in_memory_kv.Policy.Lfu
use distributed_in_memory_kv.Policy.Lfu.{LfuPolicy}
use distributed_in_memory_kv.Policy.Lfu.Complete.{
  IsComplete, candidate-IsCompleteBut, pop_current-Pops, heap-on_delete,
}
use distributed_in_memory_kv.Policy.Tracker.{
  Tracker, by_lru, by_lfu, on_delete, get_eviction_candidate, candidates,
}
use distributed_in_memory_kv.Policy.Accounts.{is_some, tracks, memory, limit, IsSound, IsSoundBut}

-- The candidate for eviction, and the policy that its choice leaves.
pub record Candidate (tr : Tracker) (r : Bytes × Tracker) : Type 0 where
  pub sound_but : IsSoundBut r.0 r.1
  pub same_keys : (q : Bytes) → tracks q r.1 ≡ tracks q tr
  pub same_memory : memory r.1 ≡ memory tr
  pub same_limit : limit r.1 ≡ limit tr
  pub chosen : r.0 ≢ [] → tracks r.0 tr ≡ true
  pub exhausted : r.0 ≡ [] → tracks [] tr ≡ false → (q : Bytes) → tracks q tr ≡ false
  pub falls : (n : ℕ) → r.0 ≢ [] → candidates (on_delete r.0 n r.1) < candidates tr

some_of : (o : Option ℕ) → o ≢ none → is_some o ≡ true
some_of none h = absurd (h refl)
some_of (some n) h = refl

true_some : (o : Option ℕ) → is_some o ≡ true → o ≢ none
true_some none h = cc
true_some (some n) h = cc

lru_chosen :
    (p : LruPolicy)
    → Order.IsValid p
    → Lru.get_eviction_candidate p ≢ []
    → is_some (find (Lru.get_eviction_candidate p) p.key_to_iter) ≡ true
lru_chosen p v ne = elim (Order.back_key_tracked v) [
  | inl found ↦ some_of _ found
  | inr (e, nothing) ↦ absurd (ne e)
]

lru_exhausted :
    (p : LruPolicy)
    → Order.IsValid p
    → Lru.get_eviction_candidate p ≡ []
    → is_some (find [] p.key_to_iter) ≡ false
    → (q : Bytes) → is_some (find q p.key_to_iter) ≡ false
lru_exhausted p v e m q = elim (Order.back_key_tracked v) [
  | inl found ↦ ground (arith, some_of _ found, ap (λ k. is_some (find k p.key_to_iter)) e)
  | inr (_, nothing) ↦ rw (nothing q)
]

lru_falls :
    (p : LruPolicy)
    → Order.IsValid p
    → (n : ℕ) → Lru.get_eviction_candidate p ≢ []
    → length (Lru.on_delete (Lru.get_eviction_candidate p) n p).access_list < length p.access_list
lru_falls p v n ne = elim (Option-cases (find (Lru.get_eviction_candidate p) p.key_to_iter)) [
  | inl e ↦ absurd (true_some _ (lru_chosen p v ne) e)
  | inr (it, e) ↦ omega (arith, Order.length-on_delete (Lru.get_eviction_candidate p) n it v e)
]

lfu_exhausted :
    (p : LfuPolicy)
    → IsComplete p
    → (Lfu.get_eviction_candidate p).0 ≡ []
    → is_some (find [] p.key_to_count) ≡ false
    → (q : Bytes) → is_some (find q p.key_to_count) ≡ false
unfolding Lfu.get_eviction_candidate
lfu_exhausted p c e m q = elim (Option-cases (find q p.key_to_count)) [
  | inl none_here ↦ rw none_here
  | inr (n, f) ↦
      let pops = pop_current-Pops p.key_to_count p.heap in
      ground (arith, pops.exhausted e (ground arith) q n f, c.entries q n f)
]

pub get_eviction_candidate-Candidate :
    (tr : Tracker) → IsSound tr → Candidate tr (get_eviction_candidate tr)
unfolding tracks memory limit get_eviction_candidate candidates on_delete
get_eviction_candidate-Candidate (by_lru p) sound = record {
  sound_but = sound;
  same_keys = λ q. refl;
  same_memory = refl;
  same_limit = refl;
  chosen = λ ne. lru_chosen p sound ne;
  exhausted = λ e m q. lru_exhausted p sound e m q;
  falls = λ n ne. lru_falls p sound n ne;
}
get_eviction_candidate-Candidate (by_lfu p) sound =
    let pops = pop_current-Pops p.key_to_count p.heap in
    record {
      sound_but = candidate-IsCompleteBut sound;
      same_keys = λ q. unfold Lfu.get_eviction_candidate in refl;
      same_memory = unfold Lfu.get_eviction_candidate in refl;
      same_limit = unfold Lfu.get_eviction_candidate in refl;
      chosen = λ ne. unfold Lfu.get_eviction_candidate in some_of _ (pops.tracked ne);
      exhausted = λ e m q. lfu_exhausted p sound e m q;
      falls = λ n ne.
          unfold Lfu.get_eviction_candidate in
          rw (heap-on_delete _ n (record p { heap = _ })) (pops.shorter ne);
    }

-- For a sound policy, LRU or LFU: a candidate other than the empty key is a key that it tracks,
-- choosing it changes neither the memory counted nor the keys tracked, and telling the policy that
-- it is deleted leaves fewer candidates.
pub get_eviction_candidate-tracks :
    (tr : Tracker) (n : ℕ)
    → IsSound tr
    → (get_eviction_candidate tr).0 ≢ []
    → let (victim, left) = get_eviction_candidate tr in
      (tracks victim tr ≡ true)
      × (memory left ≡ memory tr)
      × ((q : Bytes) → tracks q left ≡ tracks q tr)
      × (candidates (on_delete victim n left) < candidates tr)
get_eviction_candidate-tracks tr n sound ne =
    let c = get_eviction_candidate-Candidate tr sound in
    (c.chosen ne, c.same_memory, c.same_keys, c.falls n ne)

-- A sound policy that does not track the empty key gives the empty candidate only when it tracks no
-- key at all.
pub get_eviction_candidate_exhausted :
    (tr : Tracker) (q : Bytes)
    → IsSound tr
    → tracks [] tr ≡ false
    → (get_eviction_candidate tr).0 ≡ []
    → tracks q tr ≡ false
get_eviction_candidate_exhausted tr q sound clean none_left =
    (get_eviction_candidate-Candidate tr sound).exhausted none_left clean q
