-- ===== src/HashTable/Fresh.antt =====
-- The constructor of the table: its capacity, and the empty map.
use distributed_in_memory_kv.Prelude.{
  ℕ, zero, suc, ◌+◌, ◌*◌, ◌%◌, ◌^◌, ◌≤◌, ◌<◌, ◌≡◌, refl, sym, ◌∙◌, inl, inr, Option, none, List, [],
  Bytes, arith, length, replicate, length-replicate, ltb, ltb→lt, ltb→le, Bool-cases,
}
use native.Mathlib.Nat.{pow-suc}
use distributed_in_memory_kv.Policy.Tracker.{EvictionPolicy}
use distributed_in_memory_kv.HashTable.Chain.{KeyValuePair}
use distributed_in_memory_kv.HashTable.{new, round_up}
use distributed_in_memory_kv.HashTable.Rehash.{empty-IsPlaced, view-empty, length-flatten-empty}
use distributed_in_memory_kv.Policy.Accounts.{new-IsSound, tracks-new, memory-new}
use distributed_in_memory_kv.HashTable.StoredBytes.{stored_bytes, table_bytes}
use distributed_in_memory_kv.HashTable.Memory.{IsAccounted}
use distributed_in_memory_kv.HashTable.Valid.{IsValid, lookup}

-- The loop ends by its test, at a power of two that is at least the capacity asked for and less
-- than twice it.
record Rounds (initial capacity : ℕ) : Type 0 where
  exponent : ℕ
  power : capacity ≡ 2 ^ exponent
  enough : initial ≤ capacity

round_up-Rounds :
    (fuel j k initial : ℕ)
    → k ≡ j + fuel
    → initial ≤ 2 ^ 63
    → initial ≤ 2 ^ k
    → Rounds initial (round_up fuel (2 ^ j) initial)
unfolding round_up
round_up-Rounds zero j k initial e small enough =
    let same : k ≡ j = omega arith in
    record { exponent = j; power = refl; enough = rw same at enough }
round_up-Rounds (suc fuel) j k initial e small enough = elim (Bool-cases (ltb (2 ^ j) initial)) [
  | inl less ↦
      let below : 2 ^ j < initial = ltb→lt _ _ less in
      let doubled : 2 ^ j * 2 % 2 ^ 64 ≡ 2 ^ suc j = omega (arith, pow-suc 2 j) in
      rw (less, doubled) (round_up-Rounds fuel (suc j) k initial (omega arith) small enough)
  | inr done ↦ rw done (record { exponent = j; power = refl; enough = ltb→le _ _ done })
]

pow-pos : (j : ℕ) → 0 < 2 ^ j
pow-pos zero = omega arith
pow-pos (suc j) = omega (arith, pow-pos j, pow-suc 2 j)

-- A new table with an initial capacity of at most 2 ^ 63 has a power of two of buckets, at least
-- as many as asked for; it is valid and holds nothing.
pub new-IsValid :
    (initial memory_limit : ℕ) (policy : EvictionPolicy) (wal : Option Bytes)
    → initial ≤ 2 ^ 63
    → let t = new initial memory_limit policy wal in
      IsValid t
      × ((j : ℕ) × (length t.buckets ≡ 2 ^ j))
      × (initial ≤ length t.buckets)
      × ((q : Bytes) → lookup q t ≡ none)
unfolding new lookup
new-IsValid initial memory_limit policy wal small =
    let r = round_up-Rounds 64 0 64 initial (omega arith) small (omega arith) in
    let n = round_up 64 1 initial in
    let pos : 0 < n = rw r.power (pow-pos r.exponent) in
    let width : length {A = List KeyValuePair} (replicate n []) ≡ n = length-replicate n [] in
    (
      record { placed = empty-IsPlaced n pos; counted = sym (length-flatten-empty n) },
      (r.exponent, width ∙ r.power),
      rw width r.enough,
      λ q. rw (view-empty n q),
    )

table_bytes_empty : (n : ℕ) → table_bytes (replicate n []) ≡ 0
unfolding table_bytes stored_bytes replicate
table_bytes_empty zero = refl
table_bytes_empty (suc n) = omega (arith, table_bytes_empty n)

-- The policy of a new table with an initial capacity of at most 2 ^ 63 agrees with it: it tracks no key and counts no byte.
pub new-IsAccounted :
    (initial memory_limit : ℕ) (policy : EvictionPolicy) (wal : Option Bytes)
    → initial ≤ 2 ^ 63
    → IsAccounted (new initial memory_limit policy wal)
new-IsAccounted initial memory_limit policy wal small =
    let (_, _, _, nothing) = new-IsValid initial memory_limit policy wal small in
    record {
      sound = unfold new in new-IsSound policy memory_limit;
      agrees = record {
        tracked = λ q. rw (nothing q) (unfold new in tracks-new q policy memory_limit);
        counted =
            unfold new in
            memory-new policy memory_limit ∙ sym (table_bytes_empty (round_up 64 1 initial));
      };
    }
