-- ===== src/Recovery/Prefix.antt =====
-- What a first part of the log of a client's calls still knows of the calls (engine/src/hash_table.cpp).
use distributed_in_memory_kv.Prelude.{
  ℕ, ◌≤◌, ◌≡◌, refl, inl, inr, ◌⊎◌, sym, ◌∙◌, ap, Bool, true, false, Option, none, some, List, [],
  ◌∷◌, ◌++◌, Bytes, arith, length, length-append, str_eq, if◌then◌else◌,
}
use mathlib.Core.Path.{subst}
use distributed_in_memory_kv.Wal.{OpType, WalRecord}
use distributed_in_memory_kv.HashTable.Chain.{ValueEntry, new_entry}
use distributed_in_memory_kv.HashTable.{delete_record, set_record}
use distributed_in_memory_kv.History.{Call, written}
use distributed_in_memory_kv.Recovery.Logs.{deletes}
use distributed_in_memory_kv.Recovery.Calls.{LogOf, changes}

-- The calls that replaying a log of set and delete records amounts to.
abbrev pub call_of : OpType → WalRecord → List Call → List Call
call_of OpType.set r calls = Call.set r.key (new_entry r.value r.ttl_ns) ∷ calls
call_of OpType.delete r calls = Call.remove r.key ∷ calls
call_of OpType.expire r calls = calls
call_of (OpType.unknown b) r calls = calls

abbrev pub calls_of : List WalRecord → List Call
calls_of [] = []
calls_of (r ∷ rs) = call_of r.op_type r (calls_of rs)

-- What is known is what was written, or nothing.
abbrev pub Knows : Option (Bytes × ℕ) → Option (Bytes × ℕ) → Type 0
Knows x spec = (x ≡ spec) ⊎ (x ≡ none)

Knows-if :
    (b : Bool) (x : Option (Bytes × ℕ)) {a spec : Option (Bytes × ℕ)}
    → Knows a spec
    → Knows (if b then x else a) (if b then x else spec)
Knows-if true x h = inl refl
Knows-if false x h = h

Knows-if_none :
    (b : Bool) {a spec : Option (Bytes × ℕ)} → Knows a spec → Knows (if b then none else a) spec
Knows-if_none true h = inr refl
Knows-if_none false h = h

split :
    {A : Type 0} (xs ys us vs : List A)
    → xs ++ ys ≡ us ++ vs
    → ((ws : List A) × (xs ≡ us ++ ws) × (vs ≡ ws ++ ys)) ⊎ ((ws : List A) × (us ≡ xs ++ ws))
split [] ys us vs e = inr (us, refl)
split (x ∷ xs) ys [] vs e = inl (x ∷ xs, refl, sym e)
split (x ∷ xs) ys (u ∷ us) vs e =
    let head : x ≡ u = cc in
    let tail : xs ++ ys ≡ us ++ vs = cc in
    elim (split xs ys us vs tail) [
      | inl (ws, e1, e2) ↦ inl (ws, (ap (λ y. y ∷ xs) head ∙ ap (λ l. u ∷ l) e1), e2)
      | inr (ws, e1) ↦ inr (ws, (ap (λ y. y ∷ us) (sym head) ∙ ap (λ l. x ∷ l) e1))
    ]

deletes-Knows :
    (ks : List Bytes) (done rest : List WalRecord) (q : Bytes) {a spec : Option (Bytes × ℕ)}
    → deletes ks ≡ done ++ rest
    → Knows a spec
    → Knows (written q (calls_of done) a) spec
unfolding deletes
deletes-Knows ks [] rest q e h = h
deletes-Knows [] (r ∷ done) rest q e h = cc
deletes-Knows (k ∷ ks) (r ∷ done) rest q {a} {spec} e h =
    let head : delete_record k ≡ r = cc in
    let tail : deletes ks ≡ done ++ rest = cc in
    subst (λ r. Knows (written q (calls_of (r ∷ done)) a) spec) head
      (deletes-Knows ks done rest q tail (Knows-if_none (str_eq k q) h))

-- Deletions in front of more records.
written-deletes :
    (ks : List Bytes) (rs : List WalRecord) (q : Bytes) (a : Option (Bytes × ℕ))
    {spec : Option (Bytes × ℕ)}
    → Knows a spec
    → (b : Option (Bytes × ℕ)) × (written q (calls_of (deletes ks ++ rs)) a
        ≡ written q (calls_of rs) b)
      × Knows b spec
unfolding deletes
written-deletes [] rs q a h = (a, refl, h)
written-deletes (k ∷ ks) rs q a h = written-deletes ks rs q _ (Knows-if_none (str_eq k q) h)

changes-LogOf :
    (calls : List Call) (rs : List WalRecord) → LogOf calls rs → changes calls ≤ length rs
unfolding changes
changes-LogOf [] rs log = omega arith
changes-LogOf (Call.set k v ∷ calls) rs (ks, more, e, log) =
    let rest = changes-LogOf calls more log in
    omega (arith, ap length e, length-append (deletes ks) more)
changes-LogOf (Call.get k n m ∷ calls) rs log = changes-LogOf calls rs log
changes-LogOf (Call.remove k ∷ calls) rs (more, e, log) =
    let rest = changes-LogOf calls more log in omega (arith, ap length e)

-- From the records `done` on, a first part of the calls is known for every key, and the calls behind it
-- make at most `n` changes.
pub record Survives (calls : List Call) (done : List WalRecord) (n : ℕ) : Type 0 where
  pub first : List Call
  pub last : List Call
  pub split : calls ≡ first ++ last
  pub lost : changes last ≤ n
  pub knows :
      (q : Bytes) (a spec : Option (Bytes × ℕ))
      → Knows a spec
      → Knows (written q (calls_of done) a) (written q first spec)

none_done : (calls : List Call) {n : ℕ} → changes calls ≤ n → Survives calls [] n
none_done calls few = record {
  first = [];
  last = calls;
  split = refl;
  lost = few;
  knows = λ q a spec h. h;
}

set-Survives :
    (k : Bytes) (v : ValueEntry) (ks : List Bytes) (ws : List WalRecord) {calls : List Call} {n : ℕ}
    → Survives calls ws n
    → Survives (Call.set k v ∷ calls) (set_record k v ∷ (deletes ks ++ ws)) n
unfolding new_entry
set-Survives k v ks ws s = record {
  first = Call.set k v ∷ s.first;
  last = s.last;
  split = ap (λ l. Call.set k v ∷ l) s.split;
  lost = s.lost;
  knows = λ q a spec h.
      let (b, e, h') =
        written-deletes ks ws q _ (Knows-if (str_eq k q) (some (v.value, v.expiry_ns)) h) in
      subst
        (λ x.
          Knows x (written q s.first (if str_eq k q then some (v.value, v.expiry_ns) else spec)))
        (sym e) (s.knows q b _ h');
}

set_only :
    (k : Bytes) (v : ValueEntry) (ks : List Bytes) (done ws : List WalRecord) {calls : List Call}
    {n : ℕ}
    → deletes ks ≡ done ++ ws
    → changes calls ≤ n
    → Survives (Call.set k v ∷ calls) (set_record k v ∷ done) n
unfolding new_entry
set_only k v ks done ws {calls} e few = record {
  first = Call.set k v ∷ [];
  last = calls;
  split = refl;
  lost = few;
  knows = λ q a spec h.
      deletes-Knows ks done ws q e (Knows-if (str_eq k q) (some (v.value, v.expiry_ns)) h);
}

remove-Survives :
    (k : Bytes) (done : List WalRecord) {calls : List Call} {n : ℕ}
    → Survives calls done n
    → Survives (Call.remove k ∷ calls) (delete_record k ∷ done) n
remove-Survives k done s = record {
  first = Call.remove k ∷ s.first;
  last = s.last;
  split = ap (λ l. Call.remove k ∷ l) s.split;
  lost = s.lost;
  knows = λ q a spec h. s.knows q _ _ (Knows-if (str_eq k q) none h);
}

get-Survives :
    (k : Bytes) (n m : ℕ) {done : List WalRecord} {calls : List Call} {i : ℕ}
    → Survives calls done i
    → Survives (Call.get k n m ∷ calls) done i
get-Survives k n m s = record {
  first = Call.get k n m ∷ s.first;
  last = s.last;
  split = ap (λ l. Call.get k n m ∷ l) s.split;
  lost = s.lost;
  knows = s.knows;
}

-- A first part of a log of the calls knows a first part of the calls, and each change that it does not
-- know of has a record of its own in the rest of the log.
pub LogOf-Survives :
    (calls : List Call) (done rest : List WalRecord)
    → LogOf calls (done ++ rest)
    → Survives calls done (length rest)
LogOf-Survives calls [] rest log = none_done calls (changes-LogOf calls rest log)
LogOf-Survives [] (r ∷ done) rest log = cc
LogOf-Survives (Call.set k v ∷ calls) (r ∷ done) rest (ks, more, e, log) =
    let head : set_record k v ≡ r = cc in
    let tail : done ++ rest ≡ deletes ks ++ more = cc in
    let whole : (ws : List WalRecord) → more ≡ ws ++ rest → Survives calls ws (length rest) =
      λ ws e'. LogOf-Survives calls ws rest (subst (LogOf calls) e' log) in
    subst (λ r. Survives (Call.set k v ∷ calls) (r ∷ done) (length rest)) head
      (elim (split done rest (deletes ks) more tail) [
        | inl (ws, e1, e2) ↦
            subst (λ d. Survives (Call.set k v ∷ calls) (set_record k v ∷ d) (length rest)) (sym e1)
              (set-Survives k v ks ws (whole ws e2))
        | inr (ws, e1) ↦ set_only k v ks done ws e1 (
            omega (
              arith,
              changes-LogOf calls more log,
              ap length tail,
              ap length e1,
              length-append done rest,
              length-append (deletes ks) more,
              length-append done ws,
            ))
      ])
LogOf-Survives (Call.get k n m ∷ calls) (r ∷ done) rest log =
    get-Survives k n m (LogOf-Survives calls (r ∷ done) rest log)
LogOf-Survives (Call.remove k ∷ calls) (r ∷ done) rest (more, e, log) =
    let head : delete_record k ≡ r = cc in
    let tail : more ≡ done ++ rest = cc in
    let s = LogOf-Survives calls done rest (subst (LogOf calls) tail log) in
    subst (λ r. Survives (Call.remove k ∷ calls) (r ∷ done) (length rest)) head
      (remove-Survives k done s)
