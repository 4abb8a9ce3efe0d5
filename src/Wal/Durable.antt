-- ===== src/Wal/Durable.antt =====
-- What WALWriter has put on disk at each moment, and what a restart reads back.
use distributed_in_memory_kv.Prelude.{
  ℕ, suc, ◌+◌, ◌-◌, ◌<◌, ◌≡◌, refl, List, [], ◌∷◌, ◌++◌, arith, length, length-append,
  take_of_length-le, append-nil, append_assoc, sym, ap, ◌∙◌, Bool-cases, leb, inl, inr, le→leb,
}
use mathlib.Core.Path.{subst}
use native.Mathlib.Nat.{le_refl, le-add_right}
use distributed_in_memory_kv.Wal.{
  WalRecord, WalWriter, record_bytes, new, write_record, write_records, flush, append,
  pending_count, open_reader, read_all,
}
use distributed_in_memory_kv.Wal.Truncated.{AllFit, encode, whole, read_all-cut}

encode-append : (xs ys : List WalRecord) → encode (xs ++ ys) ≡ encode xs ++ encode ys
unfolding encode
encode-append [] ys = refl
encode-append (x ∷ xs) ys = rw (encode-append xs ys) (sym (append_assoc (record_bytes x) _ _))

write_records-file :
    (w : WalWriter) (rs : List WalRecord) → (write_records w rs).file ≡ w.file ++ encode rs
unfolding write_records write_record encode
write_records-file w [] = sym (append-nil w.file)
write_records-file w (r ∷ rs) =
    write_records-file (write_record w r) rs ∙ append_assoc w.file (record_bytes r) (encode rs)

write_records_keeps :
    (w : WalWriter) (rs : List WalRecord) → (write_records w rs).batch_size ≡ w.batch_size
unfolding write_records write_record
write_records_keeps w [] = refl
write_records_keeps w (r ∷ rs) = write_records_keeps (write_record w r) rs

-- The writer has been given `rs`: the first of them, `written`, stand in the file, the rest wait
-- in the buffer, which is shorter than a batch.
pub record Logged (batch : ℕ) (rs written : List WalRecord) (w : WalWriter) : Type 0 where
  pub split : rs ≡ written ++ w.buffer
  pub on_disk : w.file ≡ encode written
  pub batches : w.batch_size ≡ batch
  pub pending : length w.buffer < batch

pub flush-Logged :
    {batch : ℕ} {rs : List WalRecord} (written : List WalRecord) (w : WalWriter)
    → 0 < batch
    → rs ≡ written ++ w.buffer
    → w.file ≡ encode written
    → w.batch_size ≡ batch
    → Logged batch rs rs (flush w)
unfolding flush
flush-Logged {rs = rs} written w pos e f b = record {
  split = sym (append-nil rs);
  on_disk = write_records-file w w.buffer ∙ (rw (f, e) (sym (encode-append written w.buffer)));
  batches = write_records_keeps w w.buffer ∙ b;
  pending = pos;
}

abbrev pub SomeLogged : ℕ → List WalRecord → WalWriter → Type 0
SomeLogged batch rs w = (written : List WalRecord) × Logged batch rs written w

append-Logged :
    {batch : ℕ} {rs written : List WalRecord} (w : WalWriter) (r : WalRecord)
    → Logged batch rs written w
    → SomeLogged batch (rs ++ r ∷ []) (append w r)
unfolding append
append-Logged {batch} {rs} {written} w r h =
    let w' = record w { buffer = w.buffer ++ r ∷ [] } in
    let e : rs ++ r ∷ [] ≡ written ++ w'.buffer =
      rw h.split (append_assoc written w.buffer (r ∷ [])) in
    elim (Bool-cases (leb w.batch_size (length (w.buffer ++ r ∷ [])))) [
      | inl t ↦ (
        rs ++ r ∷ [],
        rw t (flush-Logged written w' (omega (arith, h.pending)) e h.on_disk h.batches),
      )
      | inr t ↦ (
        written,
        rw t (record {
          split = e;
          on_disk = h.on_disk;
          batches = h.batches;
          pending = ground (arith, h.batches);
        }),
      )
    ]

unfoldable pub append_all : WalWriter → List WalRecord → WalWriter
append_all w [] = w
append_all w (r ∷ rs) = append_all (append w r) rs

pub append_all-Logged :
    {batch : ℕ} (before rs : List WalRecord) {written : List WalRecord} (w : WalWriter)
    → Logged batch before written w
    → SomeLogged batch (before ++ rs) (append_all w rs)
unfolding append_all
append_all-Logged before [] {written} w h = rw (append-nil before) (written, h)
append_all-Logged before (r ∷ rs) w h =
    let (written, h') = append-Logged w r h in
    rw (sym (append_assoc before (r ∷ []) rs))
      (append_all-Logged (before ++ r ∷ []) rs (append w r) h')

pub new-Logged : (batch : ℕ) → 0 < batch → Logged batch [] [] (new [] batch)
unfolding new encode
new-Logged batch pos = record { split = refl; on_disk = refl; batches = refl; pending = pos }

AllFit-append : (xs ys : List WalRecord) → AllFit (xs ++ ys) → AllFit xs
AllFit-append [] ys h = tt
AllFit-append (x ∷ xs) ys h = (h.0, AllFit-append xs ys h.1)

pub whole_all : (rs : List WalRecord) → whole (length (encode rs)) rs ≡ rs
unfolding whole encode
whole_all [] = refl
whole_all (r ∷ rs) =
    let e : length (record_bytes r) + length (encode rs) - length (record_bytes r)
        ≡ length (encode rs) =
      omega arith in
    rw
      (
        length-append (record_bytes r) (encode rs),
        e,
        le→leb _ _ (le-add_right (length (record_bytes r)) (length (encode rs))),
      )
      (ap (◌∷◌ r) (whole_all rs))

read_all-encode :
    (rs : List WalRecord) → AllFit rs → read_all (suc (length rs)) (open_reader (encode rs)) ≡ rs
read_all-encode rs h =
    ap (λ b. read_all (suc (length rs)) (open_reader b))
      (sym (take_of_length-le _ (encode rs) (le_refl _)))
    ∙ (read_all-cut rs (suc (length rs)) (length (encode rs)) h (omega arith) ∙ whole_all rs)

-- However many records that fit the format are appended to a new log in batches of at least one, its file reads
-- back as a first part of them, in order, and what is missing at the end is the fewer than a batch
-- of records that wait in the buffer; after one more flush the file reads back as all of them.
pub recovery_window :
    (batch : ℕ) (rs : List WalRecord)
    → 0 < batch
    → AllFit rs
    → let w = append_all (new [] batch) rs in
      (written : List WalRecord) × (rs ≡ written ++ w.buffer)
      × (pending_count w < batch)
      × (read_all (suc (length written)) (open_reader w.file) ≡ written)
      × (read_all (suc (length rs)) (open_reader (flush w).file) ≡ rs)
unfolding pending_count
recovery_window batch rs pos fit =
    let w = append_all (new [] batch) rs in
    let (written, h) = append_all-Logged [] rs (new [] batch) (new-Logged batch pos) in
    let flushed = flush-Logged written w pos h.split h.on_disk h.batches in
    (
      written,
      h.split,
      h.pending,
      rw h.on_disk
          (read_all-encode written (AllFit-append written w.buffer (subst AllFit h.split fit))),
      rw flushed.on_disk (read_all-encode rs fit),
    )
