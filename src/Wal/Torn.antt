-- ===== src/Wal/Torn.antt =====
-- A log of which a crash has left more than the part that was written first (engine/src/wal.cpp).
use distributed_in_memory_kv.Prelude.{
  ℕ, suc, ◌-◌, ◌≤◌, ◌≡◌, refl, inl, inr, ap, ◌∙◌, List, [], ◌∷◌, ◌++◌, arith, length, length-append,
  length-take, take, leb, Bool-cases, le→leb,
}
use distributed_in_memory_kv.Wal.{WalRecord, record_bytes, open_reader, read_all}
use distributed_in_memory_kv.Wal.Truncated.{AllFit, encode, whole, read_all-cut_from}

-- What lies wholly in the file is a first part of the log.
pub whole_first :
    (n : ℕ) (rs : List WalRecord) → (rest : List WalRecord) × (rs ≡ whole n rs ++ rest)
unfolding whole
whole_first n [] = ([], refl)
whole_first n (r ∷ rs) =
    let (rest, e) = whole_first (n - length (record_bytes r)) rs in
    elim (Bool-cases (leb (length (record_bytes r)) n)) [
      | inl t ↦ (rest, rw t (ap (λ l. r ∷ l) e))
      | inr t ↦ (r ∷ rs, rw t refl)
    ]

-- Records whose bytes are all there are read.
pub whole-append :
    (xs ys : List WalRecord) (n : ℕ)
    → length (encode xs) ≤ n
    → whole n (xs ++ ys) ≡ xs ++ whole (n - length (encode xs)) ys
unfolding whole encode
whole-append [] ys n h = ap (λ m. whole m ys) (omega arith)
whole-append (r ∷ xs) ys n h =
    let l = length (record_bytes r) in
    let total = length-append (record_bytes r) (encode xs) in
    let e : n - l - length (encode xs) ≡ n - length (record_bytes r ++ encode xs) =
      omega (arith, total) in
    rw (le→leb l n (omega (arith, total))) (
      ap (λ l. r ∷ l)
        (whole-append xs ys (n - l) (omega (arith, total)) ∙ ap (λ m. xs ++ whole m ys) e))

record_bytes_some : (r : WalRecord) → 1 ≤ length (record_bytes r)
unfolding record_bytes
record_bytes_some r = omega arith

-- A record takes a byte at least.
length-whole_bytes :
    (n : ℕ) (rs : List WalRecord) → length (whole n rs) ≤ length (take n (encode rs))
unfolding whole encode
length-whole_bytes n [] = omega arith
length-whole_bytes n (r ∷ rs) =
    let l = length (record_bytes r) in
    let rest = length-whole_bytes (n - l) rs in
    elim (Bool-cases (leb l n)) [
      | inl t ↦ rw t (
          ground (
            arith,
            rest,
            record_bytes_some r,
            length-append (record_bytes r) (encode rs),
            length-take (n - l) (encode rs),
            length-take n (record_bytes r ++ encode rs),
          ))
      | inr t ↦ rw t (omega arith)
    ]

-- One round for each byte of the file, and one more, is enough.
pub read_all-torn :
    (rs : List WalRecord) (n : ℕ)
    → AllFit rs
    → read_all (suc (length (take n (encode rs)))) (open_reader (take n (encode rs))) ≡ whole n rs
unfolding open_reader
read_all-torn rs n fit =
    read_all-cut_from rs (suc (length (take n (encode rs)))) n 0 fit
      (omega (arith, length-whole_bytes n rs))
