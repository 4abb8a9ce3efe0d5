-- ===== src/Snapshot/Altered.antt =====
-- A snapshot in which a byte was altered (engine/src/snapshot.cpp).
use distributed_in_memory_kv.Prelude.{
  ℕ, ◌%◌, ◌<◌, ◌^◌, ◌≡◌, ◌≢◌, refl, sym, ap, ◌∙◌, inl, inr, Bool, true, false, List, [], ◌∷◌, ◌++◌,
  Bytes, arith, length, take, flatten, take_of_length-le, append_assoc, le_bytes, ◌==◌, Bool-cases,
}
use distributed_in_memory_kv.HashTable.Chain.{KeyValuePair}
use distributed_in_memory_kv.HashTable.{HashTable}
use distributed_in_memory_kv.HashTable.Valid.{IsValid}
use distributed_in_memory_kv.Snapshot.{
  update, Writer, Reader, emit, write_entry, write_entries, write, read, read_entries,
  load_snapshot, magic_number, crc_start,
}
use distributed_in_memory_kv.Snapshot.RoundTrip.{
  before, FitsEntry, AllFitEntries, entry_bytes, entries_bytes, insert_all,
  read_entries-write_entries, write_entries-lt, read-header,
}
use distributed_in_memory_kv.Snapshot.Truncated.{headed, write_bytes, take_header, answered}
use distributed_in_memory_kv.Snapshot.Checksum.{
  update-append, update_small, update_first, update_sees,
}

-- The checksum of an entry is that of its bytes.
crc-write_entry :
    (kv : KeyValuePair) (w : Writer)
    → FitsEntry kv
    → (write_entry kv w).crc ≡ update w.crc (entry_bytes kv)
unfolding write_entry emit entry_bytes
crc-write_entry kv w h =
    let k : length kv.key % 2 ^ 32 ≡ length kv.key = omega (arith, h.key) in
    let v : length kv.value.value % 2 ^ 32 ≡ length kv.value.value = omega (arith, h.value) in
    rw
      (
        k,
        v,
        take_of_length-le (length kv.key) kv.key (omega arith),
        take_of_length-le (length kv.value.value) kv.value.value (omega arith),
      )
      (simp update-append refl)

crc-write_entries :
    (kvs : List KeyValuePair) (w : Writer)
    → AllFitEntries kvs
    → (write_entries kvs w).crc ≡ update w.crc (entries_bytes kvs)
unfolding write_entries entries_bytes update
crc-write_entries [] w h = refl
crc-write_entries (kv ∷ kvs) w h =
    crc-write_entries kvs (write_entry kv w) h.1
    ∙ (ap (λ c. update c (entries_bytes kvs)) (crc-write_entry kv w h.0)
        ∙ sym (update-append (entry_bytes kv) (entries_bytes kvs) w.crc))

headed-lt : (t : HashTable) → (headed t).crc < 2 ^ 63
unfolding le_bytes
headed-lt t = update_small (le_bytes 8 t.num_entries) _ (update_first _ _ crc_start (omega arith))

altered_bytes :
    (t : HashTable) (body : Bytes)
    → AllFitEntries (flatten t.buckets)
    → take 24 (write t) ++ body
      ≡ le_bytes 8 magic_number
        ++ (le_bytes 8 (write_entries (flatten t.buckets) (headed t)).crc
            ++ (le_bytes 8 t.num_entries ++ body))
altered_bytes t body fits =
    let stored = (write_entries (flatten t.buckets) (headed t)).crc in
    let header =
      ap (take 24) (write_bytes t fits)
      ∙ take_header 24 magic_number stored t.num_entries (entries_bytes (flatten t.buckets))
          (omega arith) in
    ap (λ h. h ++ body) header ∙ simp append_assoc refl

refused :
    (x : Bool × (Reader × HashTable)) (t : HashTable)
    → x.1.0.computed_crc ≢ x.1.0.stored_crc
    → x.1.1 ≡ t
    → answered x ≡ (false, t)
refused (b, (r, t')) t ne f = elim (Bool-cases (r.computed_crc == r.stored_crc)) [
  | inl same ↦ absurd (ne (ground arith))
  | inr other ↦ rw (other, f) (ground arith)
]

-- The snapshot of a valid table with fewer than 2 ^ 64 entries, each of which fits the format, is
-- refused if one byte behind its header is replaced by a different one, so that what stands there
-- are the bytes of as many entries that fit the format; these have then been inserted.
pub load_snapshot-altered :
    (t u : HashTable) (kvs : List KeyValuePair) (front back : Bytes) (b b' : ℕ)
    → IsValid t
    → t.num_entries < 2 ^ 64
    → AllFitEntries (flatten t.buckets)
    → AllFitEntries kvs
    → length kvs ≡ t.num_entries
    → entries_bytes (flatten t.buckets) ≡ front ++ b ∷ back
    → entries_bytes kvs ≡ front ++ b' ∷ back
    → b < 256
    → b' < 256
    → b ≢ b'
    → load_snapshot (take 24 (write t) ++ (front ++ b' ∷ back)) u ≡ (false, insert_all kvs u)
unfolding load_snapshot
load_snapshot-altered t u kvs front back b b' v small fits fits' many old new byte byte' ne =
    let w = headed t in
    let stored = (write_entries (flatten t.buckets) w).crc in
    let bound : stored < 2 ^ 64 =
      write_entries-lt (flatten t.buckets) w (omega (arith, headed-lt t)) in
    let contents =
      ap (λ s. take 24 (write t) ++ s) (sym new) ∙ altered_bytes t (entries_bytes kvs) fits in
    let opened =
      ap (λ s. read s u) contents
      ∙ read-header stored t.num_entries (entries_bytes kvs) u bound small in
    let counted = ap (λ m. read_entries m (before (entries_bytes kvs) stored w.crc) u) (sym many) in
    let loaded = read_entries-write_entries kvs w stored u fits' in
    let seen : (write_entries kvs w).crc ≢ stored = λ e. ne (
      sym (
        update_sees front back w.crc b' b (headed-lt t) byte' byte (
          ap (update w.crc) (sym new)
          ∙ (sym (crc-write_entries kvs w fits')
              ∙ (e ∙ (crc-write_entries (flatten t.buckets) w fits ∙ ap (update w.crc) old)))))) in
    ap answered (opened ∙ (counted ∙ loaded))
    ∙ refused (true, (before [] stored (write_entries kvs w).crc, insert_all kvs u))
        (insert_all kvs u) seen refl
