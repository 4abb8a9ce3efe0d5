-- ===== src/Wal.antt =====
-- The write-ahead log: engine/include/wal.h and engine/src/wal.cpp.
-- `WalWriter` is the class WALWriter with the file it appends to, `Reader` is WALReader with the
-- bytes of the file that it has not read.
pub mod Input
pub mod Truncated
pub mod Torn
pub mod Durable
use distributed_in_memory_kv.Prelude.{
  ℕ, zero, suc, ◌+◌, ◌%◌, ◌^◌, Bool, true, false, Option, none, some, List, [], ◌∷◌, ◌++◌, Bytes,
  length, leb, ltb, ◌==◌, if◌then◌else◌, le_bytes, of_le_bytes, take,
}
use Input.{Stream, Read, exactly, pure, ◌>>=◌}

-- `enum class WALOpType : uint8_t`; the cast from a byte of the file admits every other value too.
pub data OpType : Type 0 where
  set delete expire : OpType
  unknown : ℕ → OpType

unfoldable pub op_byte : OpType → ℕ
op_byte set = 1
op_byte delete = 2
op_byte expire = 3
op_byte (unknown b) = b

unfoldable pub of_op_byte : ℕ → OpType
of_op_byte b =
    if b == 1 then set else if b == 2 then delete else if b == 3 then expire else unknown b

-- `ttl_ns`, an int64_t, is its 64-bit pattern.
pub record WalRecord : Type 0 where
  pub op_type : OpType
  pub key : Bytes
  pub value : Bytes
  pub ttl_ns : ℕ

-- The bytes that `write_record` writes: the lengths are cut to 32 bits.
unfoldable pub record_bytes : WalRecord → Bytes
record_bytes r =
    let key_len = length r.key % 2 ^ 32 in
    let value_len = length r.value % 2 ^ 32 in
    (op_byte r.op_type ∷ [])
    ++ (le_bytes 4 key_len
        ++ (take key_len r.key
            ++ (le_bytes 4 value_len ++ (take value_len r.value ++ le_bytes 8 r.ttl_ns))))

pub record WalWriter : Type 0 where
  pub batch_size : ℕ
  pub buffer : List WalRecord
  pub file : Bytes
  pub file_size : ℕ

-- The constructor opens the file for appending.
unfoldable pub new : Bytes → ℕ → WalWriter
new contents batch_size = record {
  batch_size = batch_size;
  buffer = [];
  file = contents;
  file_size = length contents;
}

-- The sum of the lengths is computed in uint32_t and added to a size_t.
unfoldable pub write_record : WalWriter → WalRecord → WalWriter
write_record w r =
    let key_len = length r.key % 2 ^ 32 in
    let value_len = length r.value % 2 ^ 32 in
    record w {
      file = w.file ++ record_bytes r;
      file_size = (w.file_size + (1 + 4 + key_len + 4 + value_len + 8) % 2 ^ 32) % 2 ^ 64;
    }

unfoldable pub write_records : WalWriter → List WalRecord → WalWriter
write_records w [] = w
write_records w (r ∷ rs) = write_records (write_record w r) rs

-- With the fsync that `flush` ends by, what it writes is on disk.
unfoldable pub flush : WalWriter → WalWriter
flush w = record (write_records w w.buffer) { buffer = [] }

unfoldable pub append : WalWriter → WalRecord → WalWriter
append w r =
    let w' = record w { buffer = w.buffer ++ r ∷ [] } in
    if leb w'.batch_size (length w'.buffer) then flush w' else w'

-- The destructor, which suppresses what `flush` throws, and closes the file.
unfoldable pub close : WalWriter → WalWriter
unfolding flush
close w = flush w

unfoldable pub size : WalWriter → ℕ
size w = w.file_size

unfoldable pub pending_count : WalWriter → ℕ
pending_count w = length w.buffer

pub record Reader : Type 0 where
  pub stream : Stream
  pub records_read : ℕ

unfoldable pub open_reader : Bytes → Reader
open_reader contents = record { stream = record { rest = contents; good = true }; records_read = 0 }

unfoldable pub is_valid : Reader → Bool
is_valid r = r.stream.good

-- WALReader::read_string, which nothing calls.
unfoldable pub read_string : Read Bytes
read_string = do len ← exactly 4; exactly (of_le_bytes len)

-- The value is read only if its length is not 0.
unfoldable pub read_value : ℕ → Read Bytes
read_value value_len = if ltb 0 value_len then exactly value_len else pure []

unfoldable pub read_fields : Read WalRecord
read_fields = do
  op ← exactly 1
  key_len ← exactly 4
  key ← exactly (of_le_bytes key_len)
  value_len ← exactly 4
  value ← read_value (of_le_bytes value_len)
  ttl ← exactly 8
  pure (record {
    op_type = of_op_byte (of_le_bytes op);
    key = key;
    value = value;
    ttl_ns = of_le_bytes ttl;
  })

count_record : ℕ → Option WalRecord × Stream → Option WalRecord × Reader
count_record n (none, s) = (none, record { stream = s; records_read = n })
count_record n (some x, s) = (some x, record { stream = s; records_read = n + 1 })

-- `none` is the result false, after which the caller does not look at the record.
unfoldable pub read_next : Reader → Option WalRecord × Reader
unfolding count_record
read_next r =
    if r.stream.good then count_record r.records_read (read_fields r.stream) else (none, r)

go_on : (Reader → List WalRecord) → Option WalRecord × Reader → List WalRecord
go_on more (none, r) = []
go_on more (some x, r) = x ∷ more r

-- `while (reader.read_next(record))`, the records that the loop sees.
unfoldable pub read_all : ℕ → Reader → List WalRecord
unfolding go_on
read_all zero r = []
read_all (suc fuel) r = go_on (read_all fuel) (read_next r)
