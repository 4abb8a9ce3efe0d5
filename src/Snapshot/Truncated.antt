-- ===== src/Snapshot/Truncated.antt =====
-- A snapshot that was cut off, as a crash during its writing leaves it (engine/src/snapshot.cpp).
use distributed_in_memory_kv.Prelude.{
  ℕ, ◌+◌, ◌-◌, ◌<◌, ◌≤◌, ◌^◌, ◌≡◌, refl, ap, ◌∙◌, inl, inr, Bool, true, false, Option, none, some,
  List, [], ◌∷◌, ◌++◌, Bytes, arith, length, length-append, take, take-append, leb, leb→le,
  if◌then◌else◌, ◌&&◌, ◌==◌, Bool-cases, append_assoc, flatten, le_bytes, length-le_bytes,
  of_le_bytes-le_bytes,
}
use distributed_in_memory_kv.HashTable.Chain.{KeyValuePair, ValueEntry}
use distributed_in_memory_kv.HashTable
use distributed_in_memory_kv.HashTable.{HashTable}
use distributed_in_memory_kv.HashTable.Valid.{IsValid}
use distributed_in_memory_kv.Wal.Input.{cut, spoilt}
use distributed_in_memory_kv.Wal.Truncated.{exactly-cut}
use distributed_in_memory_kv.Snapshot.{
  update, Writer, Reader, Load, continue, ◌>>=◌, field, count_in, read_entry, write_entry,
  read_entries, load, write, write_entries, read, load_snapshot, emit, crc_start, magic_number,
}
use distributed_in_memory_kv.Snapshot.RoundTrip.{
  before, FitsEntry, entry_bytes, read_entry-write_entry, AllFitEntries, entries_bytes, insert_all,
  written-write_entries, update-lt, write_entries-lt, read-header,
}

-- A reader whose stream has failed.
abbrev failed : ℕ → ℕ → Reader
failed stored crc = record { stream = spoilt; stored_crc = stored; computed_crc = crc }

count_in-if :
    {B : Type 0} (t : Bool) (a b : Bytes) (stored crc : ℕ) (f : Bytes → Load B)
    → continue
        (count_in
          (before b stored crc)
          (if t then (some a, record { rest = b; good = true }) else (none, spoilt)))
        f
      ≡ (if t then f a (before b stored (update crc a)) else (none, failed stored crc))
unfolding count_in
count_in-if true a b stored crc f = refl
count_in-if false a b stored crc f = refl

bind-field :
    {B : Type 0} (k n : ℕ) (a b : Bytes) (stored crc : ℕ) (f : Bytes → Load B)
    → length a ≡ k
    → (field k >>= f) (before (take n (a ++ b)) stored crc) ≡ (
        if leb k n
        then f a (before (take (n - k) b) stored (update crc a))
        else (none, failed stored crc))
unfolding field
bind-field k n a b stored crc f e =
    ap (λ p. continue (count_in (before (take (n - k) b) stored crc) p) f) (exactly-cut k n a b e)
    ∙ count_in-if (leb k n) a (take (n - k) b) stored crc f

-- An entry that the cut damaged is not read.
read_entry-cut :
    (kv : KeyValuePair) (n stored crc : ℕ) (rest : Bytes)
    → FitsEntry kv
    → n < length (entry_bytes kv)
    → (read_entry (before (take n (entry_bytes kv ++ rest)) stored crc)).0 ≡ none
unfolding read_entry entry_bytes
read_entry-cut kv n stored crc rest h short =
    let total : length (entry_bytes kv) ≡ 32 + length kv.key + length kv.value.value =
      unfold entry_bytes in simp (length-append, length-le_bytes) (omega arith) in
    simp append_assoc (
      rw
        (
          bind-field 4 n (le_bytes 4 (length kv.key)) _ stored crc _ (length-le_bytes 4 _),
          of_le_bytes-le_bytes 4 (length kv.key) h.key,
          bind-field (length kv.key) _ kv.key _ stored _ _ refl,
          bind-field 4 _ (le_bytes 4 (length kv.value.value)) _ stored _ _ (length-le_bytes 4 _),
          of_le_bytes-le_bytes 4 (length kv.value.value) h.value,
          bind-field (length kv.value.value) _ kv.value.value _ stored _ _ refl,
          bind-field 8 _ (le_bytes 8 kv.value.expiry_ns) _ stored _ _ (length-le_bytes 8 _),
          bind-field 8 _ (le_bytes 8 kv.value.access_count) _ stored _ _ (length-le_bytes 8 _),
          bind-field 8 _ (le_bytes 8 kv.value.last_access_ns) rest stored _ _ (length-le_bytes 8 _),
        )
        (ground (arith, total)))

-- The entries that lie wholly within the first `n` bytes of those that the entries take.
unfoldable pub whole_entries : ℕ → List KeyValuePair → List KeyValuePair
whole_entries n [] = []
whole_entries n (kv ∷ kvs) =
    let more = kv ∷ whole_entries (n - length (entry_bytes kv)) kvs in
    if leb (length (entry_bytes kv)) n then more else []

load-none :
    (more : Reader → HashTable → Bool × (Reader × HashTable)) (t : HashTable)
    (r : Option (Bytes × ValueEntry) × Reader)
    → r.0 ≡ none
    → ((load more t r).0 ≡ false) × ((load more t r).1.1 ≡ t)
unfolding load
load-none more t (none, r) e = (refl, refl)
load-none more t (some kv, r) e = cc

-- The loop stops at the damaged entry, and has inserted those before it.
read_entries-cut :
    (kvs : List KeyValuePair) (w : Writer) (n stored : ℕ) (t : HashTable)
    → AllFitEntries kvs
    → n < length (entries_bytes kvs)
    → let r = read_entries (length kvs) (before (take n (entries_bytes kvs)) stored w.crc) t in
      (r.0 ≡ false) × (r.1.1 ≡ insert_all (whole_entries n kvs) t)
unfolding read_entries entries_bytes whole_entries insert_all
read_entries-cut [] w n stored t h short = absurd (omega arith)
read_entries-cut (kv ∷ kvs) w n stored t h short =
    let l = length (entry_bytes kv) in
    let total = length-append (entry_bytes kv) (entries_bytes kvs) in
    let rest : n - l < length (entries_bytes kvs) → _ =
      read_entries-cut kvs (write_entry kv w) (n - l) stored (HashTable.insert kv.key kv.value t)
        h.1 in
    elim (Bool-cases (leb l n)) [
      | inl there ↦
          let fits : l ≤ n = leb→le l n there in
          rw
            (
              there,
              take-append n (entry_bytes kv) (entries_bytes kvs) fits,
              (read_entry-write_entry kv w (take (n - l) (entries_bytes kvs)) stored h.0).1,
              load,
            )
            (rest (omega (arith, total)))
      | inr cut ↦ rw cut (
          load-none (read_entries (length kvs)) t _
            (read_entry-cut kv n stored w.crc (entries_bytes kvs) h.0 (ground arith)))
    ]

-- The checksum so far behind the header.
abbrev pub headed : HashTable → Writer
headed t = record {
  written = le_bytes 8 t.num_entries;
  crc = update (update crc_start (le_bytes 8 magic_number)) (le_bytes 8 t.num_entries);
}

pub write_bytes :
    (t : HashTable)
    → AllFitEntries (flatten t.buckets)
    → write t
      ≡ le_bytes 8 magic_number
        ++ (le_bytes 8 (write_entries (flatten t.buckets) (headed t)).crc
            ++ (le_bytes 8 t.num_entries ++ entries_bytes (flatten t.buckets)))
unfolding write emit
write_bytes t fits =
    ap
      (λ b.
        le_bytes 8 magic_number
        ++ (le_bytes 8 (write_entries (flatten t.buckets) (headed t)).crc ++ b))
      (written-write_entries (flatten t.buckets) (headed t) fits)

pub take_header :
    (n magic crc count : ℕ) (body : Bytes)
    → 24 ≤ n
    → take n (le_bytes 8 magic ++ (le_bytes 8 crc ++ (le_bytes 8 count ++ body)))
      ≡ le_bytes 8 magic ++ (le_bytes 8 crc ++ (le_bytes 8 count ++ take (n - 24) body))
take_header n magic crc count body h =
    let l = λ (x : ℕ). length-le_bytes 8 x in
    let e : n - length (le_bytes 8 magic) - length (le_bytes 8 crc) - length (le_bytes 8 count)
        ≡ n - 24 =
      omega (arith, l magic, l crc, l count) in
    rw
      (
        take-append n (le_bytes 8 magic) (le_bytes 8 crc ++ (le_bytes 8 count ++ body))
            (omega (arith, l magic)),
        take-append (n - length (le_bytes 8 magic)) (le_bytes 8 crc) (le_bytes 8 count ++ body)
            (omega (arith, l magic, l crc)),
        take-append (n - length (le_bytes 8 magic) - length (le_bytes 8 crc)) (le_bytes 8 count)
            body (omega (arith, l magic, l crc, l count)),
        e,
      )
      refl

-- What load_snapshot makes of what was read.
abbrev pub answered : Bool × (Reader × HashTable) → Bool × HashTable
answered x = (x.0 && (x.1.0.computed_crc == x.1.0.stored_crc), x.1.1)

refused :
    (x : Bool × (Reader × HashTable)) (t : HashTable)
    → x.0 ≡ false
    → x.1.1 ≡ t
    → answered x ≡ (false, t)
refused (b, (r, t')) t e f = rw (e, f) refl

-- The snapshot of a valid table with fewer than 2 ^ 64 entries, each of which fits the format, is refused
-- if it is cut off anywhere behind its header of 24 bytes; the entries that lie wholly before the cut
-- have then been inserted, in their order, and nothing else.
pub load_snapshot-cut :
    (t u : HashTable) (n : ℕ)
    → IsValid t
    → t.num_entries < 2 ^ 64
    → AllFitEntries (flatten t.buckets)
    → 24 ≤ n
    → n < length (write t)
    → load_snapshot (take n (write t)) u
      ≡ (false, insert_all (whole_entries (n - 24) (flatten t.buckets)) u)
unfolding load_snapshot
load_snapshot-cut t u n v small fits header short =
    let kvs = flatten t.buckets in
    let w = headed t in
    let stored = (write_entries kvs w).crc in
    let bound : stored < 2 ^ 64 =
      write_entries-lt kvs w (update-lt _ _ (update-lt _ _ (omega arith))) in
    let l = λ (x : ℕ). length-le_bytes 8 x in
    let size = ap length (write_bytes t fits) in
    let inside : n - 24 < length (entries_bytes kvs) = omega (
      arith,
      size,
      l magic_number,
      l stored,
      l t.num_entries,
      length-append (le_bytes 8 magic_number)
          (le_bytes 8 stored ++ (le_bytes 8 t.num_entries ++ entries_bytes kvs)),
      length-append (le_bytes 8 stored) (le_bytes 8 t.num_entries ++ entries_bytes kvs),
      length-append (le_bytes 8 t.num_entries) (entries_bytes kvs),
    ) in
    let contents =
      ap (take n) (write_bytes t fits)
      ∙ take_header n magic_number stored t.num_entries (entries_bytes kvs) header in
    let opened =
      ap (λ b. read b u) contents
      ∙ read-header stored t.num_entries (take (n - 24) (entries_bytes kvs)) u bound small in
    let counted =
      ap (λ m. read_entries m (before (take (n - 24) (entries_bytes kvs)) stored w.crc) u)
        v.counted in
    let (stops, inserted) = read_entries-cut kvs w (n - 24) stored u fits inside in
    ap answered (opened ∙ counted)
    ∙ refused
        (read_entries (length kvs) (before (take (n - 24) (entries_bytes kvs)) stored w.crc) u) _
        stops inserted
