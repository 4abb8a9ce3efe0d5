-- ===== src/History.antt =====
-- What the engines over the table have in common (engine/include/hash_table.h, mutex_engine.h): a map
-- from keys to values that may lose entries, and a client that calls its operations one after the other.
use distributed_in_memory_kv.Prelude.{
  ℕ, ◌≡◌, refl, ap, sym, ◌∙◌, ◌⊎◌, inl, inr, Bool, false, Option, none, some, List, [], ◌∷◌, Bytes,
  str_eq, str_eq_iff, if◌then◌else◌, Bool-cases,
}
use distributed_in_memory_kv.HashTable.Chain.{ValueEntry}

-- The value and the expiry time, which reads leave alone.
abbrev pub payload : Option ValueEntry → Option (Bytes × ℕ)
payload none = none
payload (some v) = some (v.value, v.expiry_ns)

payload-none : (v : Option ValueEntry) → payload v ≡ none → v ≡ none
payload-none none e = refl
payload-none (some v) e = cc

-- An engine with the laws that a client relies on. `held` is what it holds for a key.
pub record MapEngine : Type 1 where
  pub State : Type 0
  pub IsGood : State → Type 0
  pub held : Bytes → State → Option ValueEntry
  pub put : Bytes → ValueEntry → State → State
  pub get : Bytes → ℕ → ℕ → State → Option ValueEntry × State
  pub remove : Bytes → State → Bool × State
  pub put-IsGood : (k : Bytes) (v : ValueEntry) (s : State) → IsGood s → IsGood (put k v s)
  pub put-held : (k : Bytes) (v : ValueEntry) (s : State) → IsGood s → held k (put k v s) ≡ some v
  pub put-others :
      (k q : Bytes) (v : ValueEntry) (s : State)
      → IsGood s
      → str_eq k q ≡ false
      → (held q (put k v s) ≡ held q s) ⊎ (held q (put k v s) ≡ none)
  pub remove-IsGood : (k : Bytes) (s : State) → IsGood s → IsGood (remove k s).1
  pub remove-held :
      (k q : Bytes) (s : State)
      → IsGood s
      → held q (remove k s).1 ≡ (if str_eq k q then none else held q s)
  pub get-IsGood : (k : Bytes) (n m : ℕ) (s : State) → IsGood s → IsGood (get k n m s).1
  pub get-held :
      (k q : Bytes) (n m : ℕ) (s : State)
      → IsGood s
      → payload (held q (get k n m s).1) ≡ payload (held q s)
  pub get-answer :
      (k : Bytes) (n m : ℕ) (s : State)
      → IsGood s
      → (payload (get k n m s).0 ≡ payload (held k s)) ⊎ ((get k n m s).0 ≡ none)

-- The calls of a client; the numbers are what the clock says during a read.
pub data Call : Type 0 where
  set : Bytes → ValueEntry → Call
  get : Bytes → ℕ → ℕ → Call
  remove : Bytes → Call

-- What the calls, the latest one last, make of what was written for `q` before.
abbrev pub written : Bytes → List Call → Option (Bytes × ℕ) → Option (Bytes × ℕ)
written q [] before = before
written q (set k v ∷ calls) before =
    written q calls (if str_eq k q then some (v.value, v.expiry_ns) else before)
written q (get k n m ∷ calls) before = written q calls before
written q (remove k ∷ calls) before = written q calls (if str_eq k q then none else before)

module _ (E : MapEngine) where
  unfoldable pub run : List Call → E.State → E.State
  run [] s = s
  run (set k v ∷ calls) s = run calls (E.put k v s)
  run (get k n m ∷ calls) s = run calls (E.get k n m s).1
  run (remove k ∷ calls) s = run calls (E.remove k s).1

  -- For every key the engine holds what was written or nothing.
  abbrev pub Recalls : E.State → (Bytes → Option (Bytes × ℕ)) → Type 0
  Recalls s spec = (q : Bytes) → (payload (E.held q s) ≡ spec q) ⊎ (payload (E.held q s) ≡ none)

  put-Recalls :
      (k : Bytes) (v : ValueEntry) (s : E.State) (spec : Bytes → Option (Bytes × ℕ))
      → E.IsGood s
      → Recalls s spec
      → Recalls (E.put k v s) (λ q. if str_eq k q then some (v.value, v.expiry_ns) else spec q)
  put-Recalls k v s spec good recalls q = elim (Bool-cases (str_eq k q)) [
    | inl same ↦
        let e : k ≡ q = (str_eq_iff k q).0 same in
        rw same (
          inl (
            ap (λ x. payload (E.held x (E.put k v s))) (sym e)
            ∙ ap payload (E.put-held k v s good)))
    | inr other ↦ rw other (elim (E.put-others k q v s good other) [
      | inl kept ↦ rw kept (recalls q)
      | inr lost ↦ inr (ap payload lost)
    ])
  ]

  remove-Recalls :
      (k : Bytes) (s : E.State) (spec : Bytes → Option (Bytes × ℕ))
      → E.IsGood s
      → Recalls s spec
      → Recalls (E.remove k s).1 (λ q. if str_eq k q then none else spec q)
  remove-Recalls k s spec good recalls q =
      rw (E.remove-held k q s good) (elim (Bool-cases (str_eq k q)) [
        | inl same ↦ rw same (inl refl)
        | inr other ↦ rw other (recalls q)
      ])

  get-Recalls :
      (k : Bytes) (n m : ℕ) (s : E.State) (spec : Bytes → Option (Bytes × ℕ))
      → E.IsGood s
      → Recalls s spec
      → Recalls (E.get k n m s).1 spec
  get-Recalls k n m s spec good recalls q = rw (E.get-held k q n m s good) (recalls q)

  pub run-Recalls :
      (calls : List Call) (s : E.State) (spec : Bytes → Option (Bytes × ℕ))
      → E.IsGood s
      → Recalls s spec
      → E.IsGood (run calls s) × Recalls (run calls s) (λ q. written q calls (spec q))
  unfolding run
  run-Recalls [] s spec good recalls = (good, recalls)
  run-Recalls (set k v ∷ calls) s spec good recalls =
      run-Recalls calls (E.put k v s) _ (E.put-IsGood k v s good)
        (put-Recalls k v s spec good recalls)
  run-Recalls (get k n m ∷ calls) s spec good recalls =
      run-Recalls calls _ spec (E.get-IsGood k n m s good) (get-Recalls k n m s spec good recalls)
  run-Recalls (remove k ∷ calls) s spec good recalls =
      run-Recalls calls _ _ (E.remove-IsGood k s good) (remove-Recalls k s spec good recalls)

  -- What a read answers after the calls.
  pub get-written :
      (calls : List Call) (k : Bytes) (n m : ℕ) (s : E.State)
      → E.IsGood s
      → ((q : Bytes) → E.held q s ≡ none)
      → (payload (E.get k n m (run calls s)).0 ≡ written k calls none)
        ⊎ ((E.get k n m (run calls s)).0 ≡ none)
  get-written calls k n m s good empty =
      let (good', recalls) =
        run-Recalls calls s (λ q. none) good (λ q. inl (ap payload (empty q))) in
      elim (E.get-answer k n m (run calls s) good') [
        | inl answered ↦ elim (recalls k) [
          | inl latest ↦ inl (answered ∙ latest)
          | inr lost ↦ inr (payload-none (E.get k n m (run calls s)).0 (answered ∙ lost))
        ]
        | inr silent ↦ inr silent
      ]
