-- ===== src/HashTable/Replays.antt =====
-- What replaying a log does to the map (`replay_wal` of engine/src/hash_table.cpp).
use distributed_in_memory_kv.Prelude.{
  ℕ, suc, ◌+◌, ◌≡◌, refl, ap, sym, ◌∙◌, inl, inr, Option, none, some, List, [], ◌∷◌, Bytes, arith,
  length, take, str_eq, if◌then◌else◌, Option-cases,
}
use mathlib.Core.Path.{subst}
use distributed_in_memory_kv.Wal.{OpType, WalRecord}
use distributed_in_memory_kv.Wal.Truncated.{AllFit, encode, whole}
use distributed_in_memory_kv.Wal.Torn.{read_all-torn}
use distributed_in_memory_kv.HashTable.Chain.{ValueEntry, new_entry}
use distributed_in_memory_kv.HashTable.{HashTable, get}
use distributed_in_memory_kv.HashTable.Valid.{IsValid, lookup, found?, remove-Updates}
use distributed_in_memory_kv.HashTable.Methods.{answer, accessed, get-Gets, insert-Updates}
use distributed_in_memory_kv.HashTable.Roomy.{Roomy, fits, insert-Roomy, get-Roomy, remove-Roomy}
use distributed_in_memory_kv.HashTable.Upkeep.{expire, replay_record, replay_records, replay_wal}

abbrev pub Map : Type 0
Map = Bytes → Option ValueEntry

-- The entry that an EXPIRE record leaves, of the entry that a lookup answers with.
unfoldable pub renewed : ℕ → Option ValueEntry → Option ValueEntry
renewed ttl_ns none = none
renewed ttl_ns (some v) = some (record {
  value = v.value;
  access_count = v.access_count;
  last_access_ns = v.last_access_ns;
  expiry_ns = ttl_ns;
})

-- What a record says of the map, where the clock reads `n` at a test and `m` at an access. EXPIRE gives the
-- entry of its key, if it has one that has not expired, a new expiry time.
unfoldable pub effect : OpType → ℕ → ℕ → WalRecord → Map → Map
effect OpType.set n m r held q =
    let written : ValueEntry = record {
      value = r.value;
      access_count = 0;
      last_access_ns = 0;
      expiry_ns = r.ttl_ns;
    } in
    if str_eq r.key q then some written else held q
effect OpType.delete n m r held q = if str_eq r.key q then none else held q
effect OpType.expire n m r held q =
    let new = renewed r.ttl_ns (answer n m (held r.key)) in
    if str_eq r.key q then (if found? new then new else held q) else held q
effect (OpType.unknown b) n m r held q = held q

unfoldable pub effects : (ℕ → ℕ × ℕ) → ℕ → List WalRecord → Map → Map
effects clock i [] held = held
effects clock i (r ∷ rs) held =
    effects clock (suc i) rs (effect r.op_type (clock i).0 (clock i).1 r held)

-- How many bytes an entry's value has.
unfoldable pub size_of : Option ValueEntry → ℕ
size_of none = 0
size_of (some v) = length v.value

-- How many bytes of values a record writes at most, and the records after one another.
unfoldable pub writes : OpType → WalRecord → Map → ℕ
unfolding size_of
writes OpType.set r held = length r.value
writes OpType.expire r held = size_of (held r.key)
writes _ r held = 0

unfoldable pub replay_volume : (ℕ → ℕ × ℕ) → ℕ → List WalRecord → Map → ℕ
replay_volume clock i [] held = 0
replay_volume clock i (r ∷ rs) held =
    writes r.op_type r held
    + replay_volume clock (suc i) rs (effect r.op_type (clock i).0 (clock i).1 r held)

abbrev pub map_of : HashTable → Map
map_of t q = lookup q t

-- One record: the table has the room that is left, and stands for the new map.
record Did (left : ℕ) (spec : Map) (t : HashTable) : Type 0 where
  roomy : Roomy left t
  reads : (q : Bytes) → lookup q t ≡ spec q

less : {n : ℕ} (k : ℕ) {t : HashTable} → Roomy (k + n) t → Roomy n t
less k r = record {
  valid = r.valid;
  accounted = r.accounted;
  room = omega (arith, r.room);
  countable = r.countable;
}

size_of-answer :
    (n m : ℕ) (o : Option ValueEntry) (v : ValueEntry)
    → answer n m o ≡ some v
    → size_of o ≡ length v.value
unfolding answer accessed size_of
size_of-answer n m none v e = cc
size_of-answer n m (some x) v e = ground (arith, ap size_of e)

expire-Did :
    (n m left : ℕ) (r : WalRecord) {t : HashTable}
    → Roomy (size_of (lookup r.key t) + left) t
    → Did left (effect OpType.expire n m r (map_of t)) (expire r (get r.key n m t))
unfolding expire effect renewed
expire-Did n m left r {t} room =
    let g = get-Gets r.key n m room.valid in
    let t₁ = (get r.key n m t).1 in
    elim (Option-cases (get r.key n m t).0) [
      | inl nothing ↦
          let silent : answer n m (lookup r.key t) ≡ none = sym g.result ∙ nothing in
          rw nothing (record {
            roomy = less (size_of (lookup r.key t)) (get-Roomy r.key n m room);
            reads = λ q. g.reads q ∙ rw (nothing, silent) (ground arith);
          })
      | inr (v, found) ↦
          let there : answer n m (lookup r.key t) ≡ some v = sym g.result ∙ found in
          let size = size_of-answer n m (lookup r.key t) v there in
          let new : ValueEntry = record v { expiry_ns = r.ttl_ns } in
          let room₁ : Roomy (length new.value + left) t₁ =
            subst (λ s. Roomy (s + left) t₁) size (get-Roomy r.key n m room) in
          let u = insert-Updates r.key new room₁.valid (fits room₁) in
          rw found (record {
            roomy = insert-Roomy r.key new room₁;
            reads = λ q. u.reads q ∙ rw (g.reads q, found, there) (ground arith);
          })
    ]

replay_record-Did :
    (op : OpType) (n m left : ℕ) (r : WalRecord) {t : HashTable}
    → Roomy (writes op r (map_of t) + left) t
    → Did left (effect op n m r (map_of t)) (replay_record op n m r t)
unfolding replay_record effect writes new_entry
replay_record-Did OpType.set n m left r room = record {
  roomy = insert-Roomy r.key _ room;
  reads = λ q. (insert-Updates r.key _ room.valid (fits room)).reads q;
}
replay_record-Did OpType.delete n m left r room = record {
  roomy = less 0 (remove-Roomy r.key room);
  reads = λ q. (remove-Updates r.key room.valid).reads q;
}
replay_record-Did OpType.expire n m left r room = expire-Did n m left r room
replay_record-Did (OpType.unknown b) n m left r room = record {
  roomy = less 0 room;
  reads = λ q. refl;
}

replay_records-Did :
    (clock : ℕ → ℕ × ℕ) (i : ℕ) (rs : List WalRecord) {t : HashTable}
    → Roomy (replay_volume clock i rs (map_of t)) t
    → Did 0 (effects clock i rs (map_of t)) (replay_records clock i rs t)
unfolding replay_records effects replay_volume
replay_records-Did clock i [] {t} room = record { roomy = room; reads = λ q. refl }
replay_records-Did clock i (r ∷ rs) {t} room =
    let spec = effect r.op_type (clock i).0 (clock i).1 r (map_of t) in
    let t₁ = replay_record r.op_type (clock i).0 (clock i).1 r t in
    let first =
      replay_record-Did r.op_type (clock i).0 (clock i).1 (replay_volume clock (suc i) rs spec) r
        room in
    let same : map_of t₁ ≡ spec = λ j q. first.reads q j in
    let rest =
      replay_records-Did clock (suc i) rs {t = t₁}
        (subst (λ held. Roomy (replay_volume clock (suc i) rs held) t₁) (sym same) first.roomy) in
    subst (λ held. Did 0 (effects clock (suc i) rs held) (replay_records clock (suc i) rs t₁)) same
      rest

-- What a replay leaves: the count of the records replayed, a valid table, and the map they say.
pub record Replays (clock : ℕ → ℕ × ℕ) (rs : List WalRecord) (t : HashTable) (r : ℕ × HashTable)
    : Type 0 where
  pub replayed : r.0 ≡ length rs
  pub valid : IsValid r.1
  pub reads : (q : Bytes) → lookup q r.1 ≡ effects clock 0 rs (map_of t) q

-- For any records that fit the log's format, the first `n` bytes of their encoding are replayed into
-- a valid table whose limit is below 2 ^ 64, whose policy agrees with it and whose limit leaves room for
-- what the records write: the records that are whole in those bytes are counted and, in their order,
-- take effect. SET puts a new entry, DELETE takes the entry out, EXPIRE sets the expiry time of an
-- entry that has not expired, an unknown kind does nothing, and other keys stay.
pub replay_wal-Replays :
    (clock : ℕ → ℕ × ℕ) (rs : List WalRecord) (n : ℕ) {t : HashTable}
    → AllFit rs
    → Roomy (replay_volume clock 0 (whole n rs) (map_of t)) t
    → Replays clock (whole n rs) t (replay_wal clock (take n (encode rs)) t)
unfolding replay_wal
replay_wal-Replays clock rs n {t} fit room =
    let did = replay_records-Did clock 0 (whole n rs) room in
    subst
      (λ records. Replays clock (whole n rs) t (length records, replay_records clock 0 records t))
      (sym (read_all-torn rs n fit))
      (record { replayed = refl; valid = did.roomy.valid; reads = did.reads })
