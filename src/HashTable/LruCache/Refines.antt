-- ===== src/HashTable/LruCache/Refines.antt =====
-- Each operation of an LRU table (engine/src/hash_table.cpp) acts on the cache that the table stands for.
use distributed_in_memory_kv.Prelude.{
  ℕ, zero, suc, ◌≤◌, ◌<◌, ◌≡◌, ◌≢◌, refl, sym, ap, ◌∙◌, inl, inr, Bool, true, false, Option, none,
  some, List, [], ◌∷◌, ◌++◌, Bytes, arith, length, length-append, ltb, str_eq, leb, leb→le,
  if_of_true, if_of_false, if◌then◌else◌, Bool-cases, Option-cases,
}
use mathlib.Core.Path.{subst}
use distributed_in_memory_kv.Policy.Lru.{release}
use distributed_in_memory_kv.Policy.Tracker
use distributed_in_memory_kv.Policy.Tracker.{Tracker}
use distributed_in_memory_kv.Policy.Accounts.{memory, limit, should_evict_lem}
use distributed_in_memory_kv.HashTable
use distributed_in_memory_kv.HashTable.{
  HashTable, chain_of, log, delete_record, set_record, remove_found, is_empty, next_victim,
  evict_loop, evict_if_needed, resize_if_needed, insert_found, place,
}
use distributed_in_memory_kv.HashTable.Chain.{ValueEntry, KeyValuePair, find}
use distributed_in_memory_kv.HashTable.Valid.{IsValid, lookup, lookup_of_find, remove-Updates}
use distributed_in_memory_kv.History.{payload}
use distributed_in_memory_kv.HashTable.LruCache.{
  Item, find_item, forget, total, keep, keys, IsCache, find_item-forget, forget_absent,
  forget-IsCache, total-forget, keep_all, keep_last,
}
use distributed_in_memory_kv.HashTable.LruCache.Tracked.{
  IsLru, recency, remove_key, has, last_key, Leaves, on_delete-Leaves, candidate_last,
  candidates-recency,
}
use distributed_in_memory_kv.HashTable.LruCache.Items.{
  keys-forget, has-keys, length-keys, unsnoc, last_key-keys, forget_last, last_named,
}

-- The table stands for the cache.
pub record Refines (bound : ℕ) (t : HashTable) (c : List Item) : Type 0 where
  pub valid : IsValid t
  pub lru : IsLru t.tracker
  pub cache : IsCache c
  pub order : recency t.tracker ≡ keys c
  pub bytes : memory t.tracker ≡ total c
  pub limits : limit t.tracker ≡ bound
  pub holds : (q : Bytes) → payload (lookup q t) ≡ find_item q c

-- What the search in the bucket finds is the item.
pub found_item :
    (k : Bytes) (kv : KeyValuePair) {bound : ℕ} {t : HashTable} {c : List Item}
    → Refines bound t c
    → find k (chain_of k t.buckets) ≡ some kv
    → find_item k c ≡ some (kv.value.value, kv.value.expiry_ns)
found_item k kv {t = t} r e = sym (r.holds k) ∙ ap payload (lookup_of_find k (some kv) t e)

pub absent_item :
    (k : Bytes) {bound : ℕ} {t : HashTable} {c : List Item}
    → Refines bound t c
    → find k (chain_of k t.buckets) ≡ none
    → find_item k c ≡ none
absent_item k {t = t} r e = sym (r.holds k) ∙ ap payload (lookup_of_find k none t e)

pub delete_found :
    (k : Bytes) (kv : KeyValuePair) {bound : ℕ} {t : HashTable} {c : List Item}
    → Refines bound t c
    → find k (chain_of k t.buckets) ≡ some kv
    → Leaves
        (keys (forget k c))
        (total (forget k c))
        t.tracker
        (Tracker.on_delete k (length kv.value.value) t.tracker)
unfolding release
delete_found k kv {t = t} {c} r e =
    let item = found_item k kv r e in
    let here : has k (recency t.tracker) ≡ true = ap (has k) r.order ∙ has-keys k c _ item in
    let gone = on_delete-Leaves k (length kv.value.value) t.tracker r.lru here in
    let sum = total-forget k kv.value.value kv.value.expiry_ns c r.cache item in
    record {
      lru = gone.lru;
      order = gone.order ∙ (ap (remove_key k) r.order ∙ sym (keys-forget k c));
      bytes_used = gone.bytes_used ∙ ground (arith, r.bytes, sum);
      limits = gone.limits;
    }

-- The tracker of a removal.
remove_tracker :
    (k : Bytes) {bound : ℕ} {t : HashTable} {c : List Item}
    → Refines bound t c
    → Leaves (keys (forget k c)) (total (forget k c)) t.tracker (HashTable.remove k t).1.tracker
unfolding HashTable.remove remove_found log
remove_tracker k {t = t} {c} r = elim (Option-cases (find k (chain_of k t.buckets))) [
  | inl e ↦
      let same = forget_absent k c (absent_item k r e) in
      rw (e, same) (record { lru = r.lru; order = r.order; bytes_used = r.bytes; limits = refl })
  | inr (kv, e) ↦ rw e (delete_found k kv r e)
]

if-payload :
    (b : Bool) (found held : Option ValueEntry)
    → payload (if b then found else held) ≡ (if b then payload found else payload held)
if-payload true found held = refl
if-payload false found held = refl

pub remove-Refines :
    (k : Bytes) {bound : ℕ} {t : HashTable} {c : List Item}
    → Refines bound t c
    → Refines bound (HashTable.remove k t).1 (forget k c)
remove-Refines k {bound} {t} {c} r =
    let u = remove-Updates k r.valid in
    let tr = remove_tracker k r in
    record {
      valid = u.valid;
      lru = tr.lru;
      cache = forget-IsCache k c r.cache;
      order = tr.order;
      bytes = tr.bytes_used;
      limits = tr.limits ∙ r.limits;
      holds = λ q.
          ap payload (u.reads q)
          ∙ (if-payload (str_eq k q) none (lookup q t)
              ∙ (ap (λ x. if str_eq k q then none else x) (r.holds q)
                  ∙ sym (find_item-forget k q c)));
    }

-- The candidate is the key of the last item, and the table stays as it is.
victim_last :
    (c : List Item) (x : Item) {bound : ℕ} {t : HashTable}
    → Refines bound t (c ++ x ∷ [])
    → next_victim t ≡ (x.key, t)
unfolding next_victim
victim_last c x {t = t} r =
    let e = candidate_last t.tracker r.lru in
    let key : last_key (recency t.tracker) ≡ x.key = ap last_key r.order ∙ last_key-keys c x in
    ap (λ v. (v.0, record t { tracker = v.1 })) e ∙ ap (λ k. (k, t)) key

under :
    (bound : ℕ) (t : HashTable) (c : List Item)
    → Refines bound t c
    → Tracker.should_evict t.tracker ≡ ltb bound (total c)
under bound t c r =
    should_evict_lem t.tracker
    ∙ (ap (λ b. ltb b (memory t.tracker)) r.limits ∙ ap (ltb bound) r.bytes)

not_empty : (k : Bytes) → k ≢ [] → is_empty k ≡ false
unfolding is_empty
not_empty [] h = absurd (h refl)
not_empty (b ∷ k) h = refl

abbrev after_choice : ℕ → Bytes × HashTable → HashTable
after_choice fuel v = if is_empty v.0 then v.1 else evict_loop fuel (HashTable.remove v.0 v.1).1

loop_step :
    (fuel : ℕ) (t : HashTable)
    → evict_loop (suc fuel) t
      ≡ (if Tracker.should_evict t.tracker then after_choice fuel (next_victim t) else t)
unfolding evict_loop
loop_step fuel t = refl

-- One round, while the values take more than the limit.
one_round :
    (fuel : ℕ) (c : List Item) (x : Item) {bound : ℕ} {t : HashTable}
    → Refines bound t (c ++ x ∷ [])
    → bound < total (c ++ x ∷ [])
    → evict_loop (suc fuel) t ≡ evict_loop fuel (HashTable.remove x.key t).1
one_round fuel c x {bound} {t} r over =
    let pressed : Tracker.should_evict t.tracker ≡ true =
      under bound t (c ++ x ∷ []) r ∙ ground arith in
    loop_step fuel t
    ∙ (if_of_true (after_choice fuel (next_victim t)) t pressed
        ∙ (ap (after_choice fuel) (victim_last c x r)
            ∙ if_of_false t (evict_loop fuel (HashTable.remove x.key t).1)
                (not_empty x.key (last_named c x r.cache))))

fitting-Refines :
    (fuel : ℕ) (c : List Item) {bound : ℕ} {t : HashTable}
    → Refines bound t c
    → total c ≤ bound
    → Refines bound (evict_loop (suc fuel) t) (keep bound c)
fitting-Refines fuel c {bound} {t} r fits =
    let relaxed : Tracker.should_evict t.tracker ≡ false = under bound t c r ∙ ground arith in
    let same = loop_step fuel t ∙ if_of_false (after_choice fuel (next_victim t)) t relaxed in
    subst (Refines bound (evict_loop (suc fuel) t)) (sym (keep_all bound c fits))
      (subst (λ x. Refines bound x c) (sym same) r)

pressed-Refines :
    (fuel : ℕ) (c : List Item) (x : Item) {bound : ℕ} {t : HashTable}
    → Refines bound t (c ++ x ∷ [])
    → bound < total (c ++ x ∷ [])
    → ((u : HashTable) → Refines bound u c → Refines bound (evict_loop fuel u) (keep bound c))
    → Refines bound (evict_loop (suc fuel) t) (keep bound (c ++ x ∷ []))
pressed-Refines fuel c x {bound} {t} r over more =
    let u = (HashTable.remove x.key t).1 in
    let removed = subst (Refines bound u) (forget_last c x r.cache) (remove-Refines x.key r) in
    subst (Refines bound (evict_loop (suc fuel) t)) (sym (keep_last bound c x over)) (
      subst (λ y. Refines bound y (keep bound c)) (sym (one_round fuel c x r over))
        (more u removed))

evict_loop-Refines :
    (fuel : ℕ) (c : List Item) {bound : ℕ} {t : HashTable}
    → Refines bound t c
    → length c < fuel
    → Refines bound (evict_loop fuel t) (keep bound c)
evict_loop-Refines zero c r h = absurd (omega arith)
evict_loop-Refines (suc fuel) [] r h = fitting-Refines fuel [] r (unfold total in omega arith)
evict_loop-Refines (suc fuel) (i ∷ c) {bound} {t} r h =
    let (init, x, e) = unsnoc i c in
    let shorter : length init < fuel = omega (arith, h, ap length e, length-append init (x ∷ [])) in
    let more : (u : HashTable)
        → Refines bound u init
        → Refines bound (evict_loop fuel u) (keep bound init) =
      λ u s. evict_loop-Refines fuel init {t = u} s shorter in
    elim (Bool-cases (leb (total (i ∷ c)) bound)) [
      | inl fits ↦ fitting-Refines fuel (i ∷ c) r (leb→le _ _ fits)
      | inr over ↦
          subst (λ l. Refines bound (evict_loop (suc fuel) t) (keep bound l)) (sym e)
            (pressed-Refines fuel init x (subst (Refines bound t) e r)
              (subst (λ l. bound < total l) e (leb→gt over)) more)
    ]
  where
    leb→gt : leb (total (i ∷ c)) bound ≡ false → bound < total (i ∷ c)
    leb→gt over = ground arith

pub evict_if_needed-Refines :
    (c : List Item) {bound : ℕ} {t : HashTable}
    → Refines bound t c
    → Refines bound (evict_if_needed t) (keep bound c)
unfolding evict_if_needed
evict_if_needed-Refines c {t = t} r =
    evict_loop-Refines (suc (Tracker.candidates t.tracker)) c r
      (omega (arith, candidates-recency t.tracker r.lru, ap length r.order, length-keys c))
