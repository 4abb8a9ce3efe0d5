-- ===== src/HashTable/Expired.antt =====
-- What the scanner of expired keys takes out of the table (`scan_expired_keys` of
-- engine/src/hash_table.cpp).
use distributed_in_memory_kv.Prelude.{
  ℕ, suc, ◌+◌, ◌≤◌, ◌≡◌, refl, ap, sym, ◌∙◌, inl, inr, Bool, false, ◌&&◌, ◌||◌, Option, none, some,
  List, [], ◌∷◌, ◌++◌, Bytes, arith, length, get_or, str_eq, ◌==◌, ltb, leb, if◌then◌else◌,
  Bool-cases,
}
use mathlib.Core.Option
use distributed_in_memory_kv.HashTable.Chain.{KeyValuePair, ValueEntry, find, count, find_of_count}
use distributed_in_memory_kv.HashTable.{HashTable, home, chain_of, is_expired}
use distributed_in_memory_kv.HashTable.Buckets.{view}
use distributed_in_memory_kv.HashTable.Valid.{IsValid, lookup, remove-Updates}
use distributed_in_memory_kv.HashTable.Upkeep.{
  expired_keys, sample_keys, remove_all, scan_expired_keys,
}

-- The place of a key in its chain.
unfoldable pub position : Bytes → List KeyValuePair → ℕ
position q [] = 0
position q (kv ∷ c) = let n = position q c in if str_eq kv.key q then 0 else suc n

-- Whether a draw of bucket `b`, the draws counted from `i`, meets an entry at place `j` of its chain
-- when the clock has reached the entry's expiry time; an expiry time of 0 is none.
unfoldable pub meets_expired : (ℕ → ℕ → ℕ) → ℕ → List ℕ → ℕ → ℕ → ℕ → Bool
meets_expired clock i [] b j expiry = false
meets_expired clock i (x ∷ xs) b j expiry =
    (b == x && (ltb 0 expiry && leb expiry (clock i j)))
    || meets_expired clock (suc i) xs b j expiry

-- What a scan leaves of what is held for a key.
unfoldable pub left_of : (ℕ → ℕ → ℕ) → List ℕ → ℕ → ℕ → Option ValueEntry → Option ValueEntry
left_of clock drawn b j none = none
left_of clock drawn b j (some v) =
    if meets_expired clock 0 drawn b j v.expiry_ns then none else some v

-- `t'` is `t` less the entries that the draws met when they had expired.
pub record Expires (clock : ℕ → ℕ → ℕ) (drawn : List ℕ) (t t' : HashTable) : Type 0 where
  pub valid : IsValid t'
  pub reads :
      (q : Bytes)
      → lookup q t'
        ≡ left_of clock drawn
            (home q (length t.buckets))
            (position q (chain_of q t.buckets))
            (lookup q t)

contains : Bytes → List Bytes → Bool
contains q [] = false
contains q (k ∷ ks) = str_eq k q || contains q ks

contains-append :
    (q : Bytes) (xs ys : List Bytes) → contains q (xs ++ ys) ≡ (contains q xs || contains q ys)
unfolding contains
contains-append q [] ys = refl
contains-append q (x ∷ xs) ys = ground (arith, contains-append q xs ys)

record Removed (ks : List Bytes) (t t' : HashTable) : Type 0 where
  valid : IsValid t'
  reads : (q : Bytes) → lookup q t' ≡ (if contains q ks then none else lookup q t)

remove_all-Removed : (ks : List Bytes) {t : HashTable} → IsValid t → Removed ks t (remove_all ks t)
unfolding remove_all contains
remove_all-Removed [] v = record { valid = v; reads = λ q. refl }
remove_all-Removed (k ∷ ks) {t} v =
    let u = remove-Updates k v in
    let s = remove_all-Removed ks u.valid in
    record { valid = s.valid; reads = λ q. ground (arith, s.reads q, u.reads q) }

expired_at : ℕ → Option ValueEntry → Bool
expired_at now none = false
expired_at now (some v) = ltb 0 v.expiry_ns && leb v.expiry_ns now

abbrev held : Option KeyValuePair → Option ValueEntry
held found = Option.map (λ kv. kv.value) found

is_expired_lem :
    (now : ℕ) (v : ValueEntry) → is_expired now v ≡ (ltb 0 v.expiry_ns && leb v.expiry_ns now)
unfolding is_expired
is_expired_lem now v = ground arith

contains-expired_keys :
    (q : Bytes) (clock : ℕ → ℕ) (j : ℕ) (c : List KeyValuePair)
    → count q c ≤ 1
    → contains q (expired_keys clock j c) ≡ expired_at (clock (j + position q c)) (held (find q c))
unfolding contains expired_keys expired_at position find count
contains-expired_keys q clock j [] one = refl
contains-expired_keys q clock j (kv ∷ c) one =
    let rest = contains-expired_keys q clock (suc j) c in
    let next : clock (suc j + position q c) ≡ clock (j + suc (position q c)) =
      ap clock (omega arith) in
    let none_left = find_of_count q c in
    let here : clock (j + 0) ≡ clock j = ap clock (omega arith) in
    elim (Bool-cases (str_eq kv.key q)) [
      | inl same ↦
          let gone : count q c ≡ 0 = ground (arith, one, same) in
          let rest' : contains q (expired_keys clock (suc j) c) ≡ false =
            rest (omega (arith, gone)) ∙ rw (none_left gone) refl in
          rw same (ground (arith, rest', is_expired_lem (clock j) kv.value, here))
      | inr other ↦
          let few : count q c ≤ 1 = ground (arith, one, other) in
          rw other (ground (arith, rest few, next, other))
    ]

contains-bucket :
    (q : Bytes) (clock : ℕ → ℕ) (b : ℕ) {t : HashTable}
    → IsValid t
    → contains q (expired_keys clock 0 (get_or t.buckets b [])) ≡ (
        home q (length t.buckets) == b
        && expired_at (clock (position q (chain_of q t.buckets))) (lookup q t))
unfolding lookup view chain_of
contains-bucket q clock b {t} v =
    let c = get_or t.buckets b [] in
    let met = contains-expired_keys q clock 0 c (v.placed.once q b) in
    elim (Bool-cases (home q (length t.buckets) == b)) [
      | inl same ↦
          let eq : home q (length t.buckets) ≡ b = ground arith in rw eq (met ∙ ground arith)
      | inr other ↦
          let gone : count q c ≡ 0 = v.placed.at_home q b (ground arith) in
          rw other (met ∙ rw (find_of_count q c gone) (unfold expired_at in refl))
    ]

-- The draws' test of an entry that is not there.
meets : (ℕ → ℕ → ℕ) → ℕ → List ℕ → ℕ → ℕ → Option ValueEntry → Bool
meets clock i drawn b j none = false
meets clock i drawn b j (some v) = meets_expired clock i drawn b j v.expiry_ns

meets-cons :
    (clock : ℕ → ℕ → ℕ) (i x : ℕ) (xs : List ℕ) (b j : ℕ) (o : Option ValueEntry)
    → meets clock i (x ∷ xs) b j o
      ≡ ((b == x && expired_at (clock i j) o) || meets clock (suc i) xs b j o)
unfolding meets meets_expired expired_at
meets-cons clock i x xs b j none = ground arith
meets-cons clock i x xs b j (some v) = refl

meets-nil : (clock : ℕ → ℕ → ℕ) (i b j : ℕ) (o : Option ValueEntry) → meets clock i [] b j o ≡ false
unfolding meets meets_expired
meets-nil clock i b j none = refl
meets-nil clock i b j (some v) = refl

contains-sample_keys :
    (q : Bytes) (clock : ℕ → ℕ → ℕ) (i : ℕ) (drawn : List ℕ) {t : HashTable}
    → IsValid t
    → contains q (sample_keys clock i drawn t)
      ≡ meets clock i drawn
          (home q (length t.buckets))
          (position q (chain_of q t.buckets))
          (lookup q t)
unfolding sample_keys
contains-sample_keys q clock i [] {t} v =
    unfold contains in sym (meets-nil clock i _ _ (lookup q t))
contains-sample_keys q clock i (b ∷ bs) {t} v =
    contains-append q (expired_keys (clock i) 0 (get_or t.buckets b []))
      (sample_keys clock (suc i) bs t)
    ∙ rw (contains-bucket q (clock i) b v, contains-sample_keys q clock (suc i) bs v)
        (sym (meets-cons clock i b bs _ _ (lookup q t)))

left_of-meets :
    (clock : ℕ → ℕ → ℕ) (drawn : List ℕ) (b j : ℕ) (o : Option ValueEntry)
    → (if meets clock 0 drawn b j o then none else o) ≡ left_of clock drawn b j o
unfolding meets left_of
left_of-meets clock drawn b j none = refl
left_of-meets clock drawn b j (some v) = refl

-- A scan of a valid table keeps it valid and, whatever buckets are drawn and whatever the clock reads,
-- removes exactly the entries whose own bucket is drawn when the clock, as it is read for their place
-- in the chain, has reached their expiry time and that is not 0. All other keys read as before.
pub scan_expired_keys-Expires :
    (clock : ℕ → ℕ → ℕ) (drawn : List ℕ) {t : HashTable}
    → IsValid t
    → Expires clock drawn t (scan_expired_keys clock drawn t)
unfolding scan_expired_keys
scan_expired_keys-Expires clock drawn {t} v =
    let s = remove_all-Removed (sample_keys clock 0 drawn t) v in
    record {
      valid = s.valid;
      reads = λ q.
          s.reads q
          ∙ rw (contains-sample_keys q clock 0 drawn v)
              (left_of-meets clock drawn _ (position q (chain_of q t.buckets)) (lookup q t));
    }
