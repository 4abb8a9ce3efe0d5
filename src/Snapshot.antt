-- ===== src/Snapshot.antt =====
-- Snapshots: engine/src/snapshot.cpp and engine/include/snapshot.h. The file is the list of its
-- bytes; the writer fills in the checksum at the end, where the source seeks back.
pub mod RoundTrip
pub mod Truncated
pub mod Restored
pub mod Xor
pub mod Checksum
pub mod Altered
use distributed_in_memory_kv.Prelude.{
  ℕ, zero, suc, ◌+◌, ◌-◌, ◌*◌, ◌/◌, ◌%◌, ◌^◌, Bool, true, false, Option, none, some, List, [], ◌∷◌,
  ◌++◌, Bytes, bit_xor, length, take, le_bytes, of_le_bytes, flatten, ◌==◌, ◌&&◌, if◌then◌else◌,
}
use distributed_in_memory_kv.Wal.Input.{Stream, exactly}
use distributed_in_memory_kv.HashTable.Chain.{ValueEntry, KeyValuePair}
use distributed_in_memory_kv.HashTable
use distributed_in_memory_kv.HashTable.{HashTable}

-- `SNAPSHOT_MAGIC`
abbrev pub magic_number : ℕ
magic_number = 0x4B56534E41503031

abbrev pub crc_start : ℕ
crc_start = 0xFFFFFFFFFFFFFFFF

-- The inner loop of init_table.
unfoldable pub shift_bits : ℕ → ℕ → ℕ
shift_bits zero crc = crc
shift_bits (suc n) crc =
    shift_bits n (if crc % 2 == 1 then bit_xor (crc / 2) 0x42F0E1EBA9EA3693 else crc / 2)

unfoldable pub table_entry : ℕ → ℕ
unfolding shift_bits
table_entry i = shift_bits 8 i

-- CRC64::update
unfoldable pub update : ℕ → Bytes → ℕ
unfolding table_entry
update crc [] = crc
update crc (b ∷ s) = update (bit_xor (crc / 256) (table_entry (bit_xor crc b % 256)) % 2 ^ 64) s

-- What has been written after the place of the checksum, and the checksum so far.
pub record Writer : Type 0 where
  pub written : Bytes
  pub crc : ℕ

unfoldable pub emit : Bytes → Writer → Writer
emit bytes w = record { written = w.written ++ bytes; crc = update w.crc bytes }

unfoldable pub write_entry : KeyValuePair → Writer → Writer
unfolding emit
write_entry kv w =
    let v = kv.value in
    let key_len = length kv.key % 2 ^ 32 in
    let value_len = length v.value % 2 ^ 32 in
    let w = emit (take key_len kv.key) (emit (le_bytes 4 key_len) w) in
    let w = emit (take value_len v.value) (emit (le_bytes 4 value_len) w) in
    emit (le_bytes 8 v.last_access_ns)
      (emit (le_bytes 8 v.access_count) (emit (le_bytes 8 v.expiry_ns) w))

unfoldable pub write_entries : List KeyValuePair → Writer → Writer
unfolding write_entry
write_entries [] w = w
write_entries (kv ∷ kvs) w = write_entries kvs (write_entry kv w)

-- SnapshotWriter::write
unfoldable pub write : HashTable → Bytes
unfolding write_entries
write t =
    let start : Writer = record {
      written = [];
      crc = update crc_start (le_bytes 8 magic_number);
    } in
    let w = write_entries (flatten t.buckets) (emit (le_bytes 8 t.num_entries) start) in
    le_bytes 8 magic_number ++ (le_bytes 8 w.crc ++ w.written)

-- HashTable::create_snapshot, as what the file holds.
unfoldable pub create_snapshot : HashTable → Bytes
unfolding write
create_snapshot t = write t

pub record Reader : Type 0 where
  pub stream : Stream
  pub stored_crc : ℕ
  pub computed_crc : ℕ

abbrev pub Load : Type 0 → Type 0
Load A = Reader → Option A × Reader

abbrev pub pure : {A : Type 0} → A → Load A
pure a r = (some a, r)

abbrev pub continue : {A B : Type 0} → Option A × Reader → (A → Load B) → Option B × Reader
continue (none, r) f = (none, r)
continue (some a, r) f = f a r

infixl 5 ◌>>=◌
abbrev pub ◌>>=◌ : {A B : Type 0} → Load A → (A → Load B) → Load B
◌>>=◌ m f r = continue (m r) f

unfoldable pub count_in : Reader → Option Bytes × Stream → Option Bytes × Reader
count_in r (none, s) = (none, record r { stream = s })
count_in r (some b, s) = (some b, record r { stream = s; computed_crc = update r.computed_crc b })

-- A checked read, and the update of the checksum.
unfoldable pub field : ℕ → Load Bytes
unfolding count_in
field n r = count_in r (exactly n r.stream)

-- The entry of a ValueEntry, and its key.
unfoldable pub read_entry : Load (Bytes × ValueEntry)
unfolding field
read_entry = do
  key_len ← field 4
  key ← field (of_le_bytes key_len)
  value_len ← field 4
  value ← field (of_le_bytes value_len)
  ttl ← field 8
  count ← field 8
  last ← field 8
  pure (
    key,
    record {
      value = value;
      access_count = of_le_bytes count;
      last_access_ns = of_le_bytes last;
      expiry_ns = of_le_bytes ttl;
    },
  )

-- The loop of SnapshotReader::read: it inserts as it reads.
unfoldable pub load :
    (Reader → HashTable → Bool × (Reader × HashTable))
    → HashTable
    → Option (Bytes × ValueEntry) × Reader
    → Bool × (Reader × HashTable)
load more t (none, r) = (false, (r, t))
load more t (some (key, v), r) = more r (HashTable.insert key v t)

unfoldable pub read_entries : ℕ → Reader → HashTable → Bool × (Reader × HashTable)
unfolding load read_entry
read_entries zero r t = (true, (r, t))
read_entries (suc n) r t = load (read_entries n) t (read_entry r)

unfoldable pub open_reader : Bytes → Reader
open_reader contents = record {
  stream = record { rest = contents; good = true };
  stored_crc = 0;
  computed_crc = crc_start;
}

unfoldable pub read_count : Option Bytes × Reader → HashTable → Bool × (Reader × HashTable)
unfolding read_entries
read_count (none, r) t = (false, (r, t))
read_count (some n, r) t = read_entries (of_le_bytes n) r t

-- The stored checksum is not part of the checksum.
unfoldable pub read_stored :
    Option Bytes × Stream → Reader → HashTable → Bool × (Reader × HashTable)
unfolding read_count field
read_stored (none, s) r t = (false, (record r { stream = s }, t))
read_stored (some crc, s) r t =
    read_count (field 8 (record r { stream = s; stored_crc = of_le_bytes crc })) t

unfoldable pub read_magic : Option Bytes × Reader → HashTable → Bool × (Reader × HashTable)
unfolding read_stored
read_magic (none, r) t = (false, (r, t))
read_magic (some magic, r) t =
    let rest = read_stored (exactly 8 r.stream) r t in
    if of_le_bytes magic == magic_number then rest else (false, (r, t))

-- SnapshotReader::read on the bytes of a file. The reads of the header are not checked in the
-- source, which goes on with indeterminate values if the file ends there; here that is a failure.
unfoldable pub read : Bytes → HashTable → Bool × (Reader × HashTable)
unfolding read_magic open_reader
read contents t = read_magic (field 8 (open_reader contents)) t

unfoldable pub verify_checksum : Reader → Bool
verify_checksum r = r.computed_crc == r.stored_crc

-- SnapshotReader::is_valid
unfoldable pub is_valid : Reader → Bool
is_valid r = r.stream.good

-- SnapshotWriter::size, of the file that has been written.
unfoldable pub size : Bytes → ℕ
size contents = length contents

-- The entries stay in the table also if the checksum is wrong.
unfoldable pub load_snapshot : Bytes → HashTable → Bool × HashTable
unfolding read verify_checksum
load_snapshot contents t =
    let (success, (r, t)) = read contents t in (success && verify_checksum r, t)
