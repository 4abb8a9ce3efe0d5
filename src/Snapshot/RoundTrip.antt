-- ===== src/Snapshot/RoundTrip.antt =====
-- What a snapshot wrote of an entry is read back (engine/src/snapshot.cpp).
use distributed_in_memory_kv.Prelude.{
  ℕ, ◌<◌, ◌^◌, ◌%◌, ◌≡◌, refl, sym, ap, ◌∙◌, some, List, [], ◌∷◌, ◌++◌, Bytes, arith, length, true,
  append_assoc, append-nil, flatten, ◌==◌, le_bytes, of_le_bytes, length-le_bytes,
  of_le_bytes-le_bytes, take_of_length-le,
}
use distributed_in_memory_kv.HashTable.Chain.{KeyValuePair}
use distributed_in_memory_kv.HashTable
use distributed_in_memory_kv.HashTable.{HashTable}
use distributed_in_memory_kv.HashTable.Valid.{IsValid}
use distributed_in_memory_kv.Wal.Truncated.{exactly-append}
use distributed_in_memory_kv.Snapshot.{
  update, Writer, emit, write_entry, write_entries, Reader, field, count_in, read_entry,
  read_entries, load, crc_start, magic_number, write, read, read_magic, read_stored, read_count,
  open_reader, load_snapshot,
}

-- A reader before `bytes`.
abbrev pub before : Bytes → ℕ → ℕ → Reader
before bytes stored crc = record {
  stream = record { rest = bytes; good = true };
  stored_crc = stored;
  computed_crc = crc;
}

field-append :
    (k : ℕ) (a b : Bytes) (stored crc : ℕ)
    → length a ≡ k
    → field k (before (a ++ b) stored crc) ≡ (some a, before b stored (update crc a))
unfolding field count_in
field-append k a b stored crc e = rw (exactly-append k a b e) refl

-- The format has room for the entry.
pub record FitsEntry (kv : KeyValuePair) : Type 0 where
  pub key : length kv.key < 2 ^ 32
  pub value : length kv.value.value < 2 ^ 32
  pub ttl : kv.value.expiry_ns < 2 ^ 64
  pub count : kv.value.access_count < 2 ^ 64
  pub last : kv.value.last_access_ns < 2 ^ 64

unfoldable pub entry_bytes : KeyValuePair → Bytes
entry_bytes kv =
    le_bytes 4 (length kv.key)
    ++ (kv.key
        ++ (le_bytes 4 (length kv.value.value)
            ++ (kv.value.value
                ++ (le_bytes 8 kv.value.expiry_ns
                    ++ (le_bytes 8 kv.value.access_count ++ le_bytes 8 kv.value.last_access_ns)))))

written-write_entry :
    (kv : KeyValuePair) (w : Writer)
    → FitsEntry kv
    → (write_entry kv w).written ≡ w.written ++ entry_bytes kv
unfolding write_entry emit entry_bytes
written-write_entry kv w h =
    let k : length kv.key % 2 ^ 32 ≡ length kv.key = omega (arith, h.key) in
    let v : length kv.value.value % 2 ^ 32 ≡ length kv.value.value = omega (arith, h.value) in
    rw
      (
        k,
        v,
        take_of_length-le (length kv.key) kv.key (omega arith),
        take_of_length-le (length kv.value.value) kv.value.value (omega arith),
      )
      (simp append_assoc refl)

-- Of an entry that fits the format, `read_entry` reads what `write_entry` wrote, leaves what comes
-- after it, and comes to the same checksum.
pub read_entry-write_entry :
    (kv : KeyValuePair) (w : Writer) (rest : Bytes) (stored : ℕ)
    → FitsEntry kv
    → ((write_entry kv w).written ≡ w.written ++ entry_bytes kv)
      × (read_entry (before (entry_bytes kv ++ rest) stored w.crc)
          ≡ (some (kv.key, kv.value), before rest stored (write_entry kv w).crc))
unfolding read_entry write_entry emit entry_bytes
read_entry-write_entry kv w rest stored h =
    let k : length kv.key % 2 ^ 32 ≡ length kv.key = omega (arith, h.key) in
    let v : length kv.value.value % 2 ^ 32 ≡ length kv.value.value = omega (arith, h.value) in
    (
      written-write_entry kv w h,
      simp append_assoc (
          rw
            (
              field-append 4 (le_bytes 4 (length kv.key)) _ stored _ (length-le_bytes 4 _),
              of_le_bytes-le_bytes 4 (length kv.key) h.key,
              field-append (length kv.key) kv.key _ stored _ refl,
              field-append 4 (le_bytes 4 (length kv.value.value)) _ stored _ (length-le_bytes 4 _),
              of_le_bytes-le_bytes 4 (length kv.value.value) h.value,
              field-append (length kv.value.value) kv.value.value _ stored _ refl,
              field-append 8 (le_bytes 8 kv.value.expiry_ns) _ stored _ (length-le_bytes 8 _),
              field-append 8 (le_bytes 8 kv.value.access_count) _ stored _ (length-le_bytes 8 _),
              field-append 8 (le_bytes 8 kv.value.last_access_ns) rest stored _
                  (length-le_bytes 8 _),
              of_le_bytes-le_bytes 8 kv.value.expiry_ns h.ttl,
              of_le_bytes-le_bytes 8 kv.value.access_count h.count,
              of_le_bytes-le_bytes 8 kv.value.last_access_ns h.last,
              k,
              v,
              take_of_length-le (length kv.key) kv.key (omega arith),
              take_of_length-le (length kv.value.value) kv.value.value (omega arith),
            )
            refl),
    )

abbrev pub AllFitEntries : List KeyValuePair → Type 0
AllFitEntries [] = Unit
AllFitEntries (kv ∷ kvs) = FitsEntry kv × AllFitEntries kvs

unfoldable pub entries_bytes : List KeyValuePair → Bytes
entries_bytes [] = []
entries_bytes (kv ∷ kvs) = entry_bytes kv ++ entries_bytes kvs

-- Insertions in the order of the list.
unfoldable pub insert_all : List KeyValuePair → HashTable → HashTable
insert_all [] t = t
insert_all (kv ∷ kvs) t = insert_all kvs (HashTable.insert kv.key kv.value t)

pub written-write_entries :
    (kvs : List KeyValuePair) (w : Writer)
    → AllFitEntries kvs
    → (write_entries kvs w).written ≡ w.written ++ entries_bytes kvs
unfolding write_entries entries_bytes
written-write_entries [] w h = sym (append-nil w.written)
written-write_entries (kv ∷ kvs) w h =
    written-write_entries kvs (write_entry kv w) h.1
    ∙ rw (written-write_entry kv w h.0)
        (append_assoc w.written (entry_bytes kv) (entries_bytes kvs))

pub read_entries-write_entries :
    (kvs : List KeyValuePair) (w : Writer) (stored : ℕ) (t : HashTable)
    → AllFitEntries kvs
    → read_entries (length kvs) (before (entries_bytes kvs) stored w.crc) t
      ≡ (true, (before [] stored (write_entries kvs w).crc, insert_all kvs t))
unfolding read_entries load write_entries entries_bytes insert_all
read_entries-write_entries [] w stored t h = refl
read_entries-write_entries (kv ∷ kvs) w stored t h =
    rw ((read_entry-write_entry kv w (entries_bytes kvs) stored h.0).1) (
      read_entries-write_entries kvs (write_entry kv w) stored (HashTable.insert kv.key kv.value t)
        h.1)

pub update-lt : (s : Bytes) (crc : ℕ) → crc < 2 ^ 64 → update crc s < 2 ^ 64
unfolding update
update-lt [] crc h = h
update-lt (b ∷ s) crc h = update-lt s _ (omega arith)

pub write_entries-lt :
    (kvs : List KeyValuePair) (w : Writer) → w.crc < 2 ^ 64 → (write_entries kvs w).crc < 2 ^ 64
unfolding write_entries write_entry emit
write_entries-lt [] w h = h
write_entries-lt (kv ∷ kvs) w h = write_entries-lt kvs (write_entry kv w) (
    update-lt _ _ (
      update-lt _ _
        (update-lt _ _ (update-lt _ _ (update-lt _ _ (update-lt _ _ (update-lt _ _ h)))))))

-- A header that is whole.
pub read-header :
    (crc n : ℕ) (body : Bytes) (u : HashTable)
    → crc < 2 ^ 64
    → n < 2 ^ 64
    → read (le_bytes 8 magic_number ++ (le_bytes 8 crc ++ (le_bytes 8 n ++ body))) u
      ≡ read_entries n
          (before body crc (update (update crc_start (le_bytes 8 magic_number)) (le_bytes 8 n)))
          u
unfolding read read_magic read_stored read_count open_reader
read-header crc n body u c m =
    let known : of_le_bytes (le_bytes 8 magic_number) ≡ magic_number =
      of_le_bytes-le_bytes 8 magic_number (omega arith) in
    let hit : (of_le_bytes (le_bytes 8 magic_number) == magic_number) ≡ true =
      ground (arith, known) in
    rw
      (
        field-append 8 (le_bytes 8 magic_number) _ 0 crc_start (length-le_bytes 8 _),
        hit,
        exactly-append 8 (le_bytes 8 crc) _ (length-le_bytes 8 _),
        of_le_bytes-le_bytes 8 crc c,
        field-append 8 (le_bytes 8 n) body crc _ (length-le_bytes 8 _),
        of_le_bytes-le_bytes 8 n m,
      )
      refl

-- The snapshot of a valid table with fewer than 2 ^ 64 entries, each of which fits the format, loads
-- with success, the checksum included: it inserts the entries, each with its metadata, in their order.
pub load_snapshot-write :
    (t u : HashTable)
    → IsValid t
    → t.num_entries < 2 ^ 64
    → AllFitEntries (flatten t.buckets)
    → load_snapshot (write t) u ≡ (true, insert_all (flatten t.buckets) u)
unfolding load_snapshot write emit
load_snapshot-write t u v small fits =
    let kvs = flatten t.buckets in
    let start = update crc_start (le_bytes 8 magic_number) in
    let w : Writer = record {
      written = le_bytes 8 t.num_entries;
      crc = update start (le_bytes 8 t.num_entries);
    } in
    let bound : (write_entries kvs w).crc < 2 ^ 64 =
      write_entries-lt kvs w (update-lt _ _ (update-lt _ _ (omega arith))) in
    let stored = (write_entries kvs w).crc in
    let loaded =
      ap (λ n. read_entries n (before (entries_bytes kvs) stored w.crc) u) v.counted
      ∙ read_entries-write_entries kvs w stored u fits in
    let right : (stored == stored) ≡ true = ground arith in
    rw
      (
        written-write_entries kvs w fits,
        read-header stored t.num_entries (entries_bytes kvs) u bound small,
        loaded,
        right,
      )
      refl
