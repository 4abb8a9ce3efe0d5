-- ===== src/Wal/Truncated.antt =====
-- What WALReader finds in a log that was cut off at any byte, as a crash leaves it.
use distributed_in_memory_kv.Prelude.{
  ℕ, zero, suc, ◌+◌, ◌-◌, ◌%◌, ◌^◌, ◌<◌, ◌≤◌, ◌≡◌, refl, Bool, true, false, none, some, List, [],
  ◌∷◌, ◌++◌, Bytes, arith, length, take, leb, ltb, if◌then◌else◌, take-append, length-take,
  length-append, Bool-cases, inl, inr, append_assoc, le_bytes, of_le_bytes, length-le_bytes,
  of_le_bytes-le_bytes, take_of_length-le, take-length-append, leb→le, le→leb, ◌∙◌,
  drop-length-append, ap,
}
use native.Mathlib.Nat.{le_refl, sub-zero}
use Prim.Native.Nat.{zero-le}
use distributed_in_memory_kv.Wal.Input.{Stream, Read, read, exactly, continue, ◌>>=◌, cut, spoilt}
use distributed_in_memory_kv.Wal.{
  op_byte, of_op_byte, WalRecord, record_bytes, open_reader, read_value, read_fields, count_record,
  read_next, read_all,
}

-- The record is one that the file format can hold.
pub record Fits (r : WalRecord) : Type 0 where
  pub op : of_op_byte (op_byte r.op_type) ≡ r.op_type
  pub op_small : op_byte r.op_type < 256
  pub key : length r.key < 2 ^ 32
  pub value : length r.value < 2 ^ 32
  pub ttl : r.ttl_ns < 2 ^ 64

take_short_append : (n : ℕ) (a b : Bytes) → n < length a → length (take n (a ++ b)) ≡ n
take_short_append n a b h = omega (arith, length-take n (a ++ b), length-append a b)

pub exactly-append :
    (k : ℕ) (a b : Bytes)
    → length a ≡ k
    → exactly k (record { rest = a ++ b; good = true }) ≡ (some a, record { rest = b; good = true })
unfolding exactly read
exactly-append k a b e =
    rw (← e) (ground (arith, length-append a b, take-length-append a b, drop-length-append a b))

exactly_short :
    (k : ℕ) (s : Bytes)
    → length s < k
    → exactly k (record { rest = s; good = true }) ≡ (none, spoilt)
unfolding exactly read
exactly_short k s h = ground arith

leb→gt : (a b : ℕ) → leb a b ≡ false → b < a
leb→gt a b h = ground arith

-- A read of a field that the cut left whole, or did not.
pub exactly-cut :
    (k n : ℕ) (a b : Bytes)
    → length a ≡ k
    → exactly k (cut n (a ++ b)) ≡ (if leb k n then (some a, cut (n - k) b) else (none, spoilt))
exactly-cut k n a b e = elim (Bool-cases (leb k n)) [
  | inl h ↦ rw (h, take-append n a b (omega (arith, leb→le k n h)), e) (exactly-append k a _ e)
  | inr h ↦
      rw h
        (exactly_short k _ (omega (arith, take_short_append n a b (ground arith), e, leb→gt k n h)))
]

continue-if :
    {A B : Type 0} (t : Bool) (a : A) (s s' : Stream) (f : A → Read B)
    → continue (if t then (some a, s) else (none, s')) f ≡ (if t then f a s else (none, s'))
continue-if true a s s' f = refl
continue-if false a s s' f = refl

bind-cut :
    {B : Type 0} (k n : ℕ) (a b : Bytes) (f : Bytes → Read B)
    → length a ≡ k
    → (exactly k >>= f) (cut n (a ++ b)) ≡ (if leb k n then f a (cut (n - k) b) else (none, spoilt))
bind-cut k n a b f e =
    ap (λ p. continue p f) (exactly-cut k n a b e) ∙ continue-if (leb k n) a _ spoilt f

-- The record's bytes, where the lengths fit.
record_bytes_fitting :
    (r : WalRecord)
    → Fits r
    → record_bytes r
      ≡ (op_byte r.op_type ∷ [])
        ++ (le_bytes 4 (length r.key)
            ++ (r.key ++ (le_bytes 4 (length r.value) ++ (r.value ++ le_bytes 8 r.ttl_ns))))
unfolding record_bytes
record_bytes_fitting r h =
    let k : length r.key % 2 ^ 32 ≡ length r.key = omega arith in
    let v : length r.value % 2 ^ 32 ≡ length r.value = omega arith in
    rw (k, v, take_of_length-le _ r.key (le_refl _), take_of_length-le _ r.value (le_refl _))

pub length-record_bytes :
    (r : WalRecord) → Fits r → length (record_bytes r) ≡ 17 + length r.key + length r.value
length-record_bytes r h =
    rw (record_bytes_fitting r h) (simp (length-append, length-le_bytes) (omega arith))

bind-read_value :
    {B : Type 0} (n : ℕ) (a b : Bytes) (f : Bytes → Read B)
    → (read_value (length a) >>= f) (cut n (a ++ b))
      ≡ (if leb (length a) n then f a (cut (n - length a) b) else (none, spoilt))
unfolding read_value
bind-read_value n [] b f = rw (le→leb 0 n (zero-le), sub-zero)
bind-read_value n (x ∷ a) b f =
    let e : ltb 0 (length (x ∷ a)) ≡ true = ground arith in
    rw e (bind-cut (length (x ∷ a)) n (x ∷ a) b f refl)

of_le_bytes_single : (b : ℕ) → of_le_bytes (b ∷ []) ≡ b
unfolding of_le_bytes
of_le_bytes_single b = omega arith

-- A record that the cut left whole is read, and the reader stands behind it; one that the cut
-- damaged is not.
read_fields-cut :
    (r : WalRecord) (n : ℕ) (tail : Bytes)
    → Fits r
    → read_fields (cut n (record_bytes r ++ tail)) ≡ (
        if leb (length (record_bytes r)) n
        then (some r, cut (n - length (record_bytes r)) tail)
        else (none, spoilt))
unfolding read_fields
read_fields-cut r n tail h =
    rw (length-record_bytes r h, record_bytes_fitting r h)
      (simp append_assoc (
        rw
          (
            bind-cut 1 n (op_byte r.op_type ∷ []) _ _ refl,
            bind-cut 4 _ (le_bytes 4 (length r.key)) _ _ (length-le_bytes 4 _),
            of_le_bytes-le_bytes 4 (length r.key) h.key,
            bind-cut (length r.key) _ r.key _ _ refl,
            bind-cut 4 _ (le_bytes 4 (length r.value)) _ _ (length-le_bytes 4 _),
            of_le_bytes-le_bytes 4 (length r.value) h.value,
            bind-read_value _ r.value _ _,
            bind-cut 8 _ (le_bytes 8 r.ttl_ns) tail _ (length-le_bytes 8 _),
            of_le_bytes-le_bytes 8 r.ttl_ns h.ttl,
            of_le_bytes_single (op_byte r.op_type),
            h.op,
          )
          (ground arith)))

count_record-if :
    (k : ℕ) (t : Bool) (x : WalRecord) (s s' : Stream)
    → count_record k (if t then (some x, s) else (none, s')) ≡ (
        if t
        then (some x, record { stream = s; records_read = k + 1 })
        else (none, record { stream = s'; records_read = k }))
unfolding count_record
count_record-if k true x s s' = refl
count_record-if k false x s s' = refl

pub read_next-cut :
    (r : WalRecord) (n k : ℕ) (tail : Bytes)
    → Fits r
    → read_next (record { stream = cut n (record_bytes r ++ tail); records_read = k }) ≡ (
        if leb (length (record_bytes r)) n
        then (
          some r,
          record { stream = cut (n - length (record_bytes r)) tail; records_read = k + 1 },
        )
        else (none, record { stream = spoilt; records_read = k }))
unfolding read_next
read_next-cut r n k tail h =
    ap (count_record k) (read_fields-cut r n tail h)
    ∙ count_record-if k (leb (length (record_bytes r)) n) r _ spoilt

read_next_end :
    (n k : ℕ)
    → read_next (record { stream = cut n []; records_read = k })
      ≡ (none, record { stream = spoilt; records_read = k })
unfolding read_next read_fields
read_next_end zero k = rw (exactly_short 1 [] (omega arith))
read_next_end (suc n) k = rw (exactly_short 1 [] (omega arith))

-- The bytes of a whole log.
unfoldable pub encode : List WalRecord → Bytes
encode [] = []
encode (r ∷ rs) = record_bytes r ++ encode rs

-- The records that lie wholly within the first `n` bytes.
unfoldable pub whole : ℕ → List WalRecord → List WalRecord
whole n [] = []
whole n (r ∷ rs) =
    let more = r ∷ whole (n - length (record_bytes r)) rs in
    if leb (length (record_bytes r)) n then more else []

abbrev pub AllFit : List WalRecord → Type 0
AllFit [] = Unit
AllFit (r ∷ rs) = Fits r × AllFit rs

-- Enough rounds are one more than the records that are there.
pub read_all-cut_from :
    (rs : List WalRecord) (fuel n k : ℕ)
    → AllFit rs
    → length (whole n rs) < fuel
    → read_all fuel (record { stream = cut n (encode rs); records_read = k }) ≡ whole n rs
unfolding read_all encode whole
read_all-cut_from rs zero n k h f = absurd (omega arith)
read_all-cut_from [] (suc fuel) n k h f = rw (read_next_end n k)
read_all-cut_from (r ∷ rs) (suc fuel) n k h f =
    let left = n - length (record_bytes r) in
    let rest : length (whole left rs) < fuel → _ =
      λ f'. read_all-cut_from rs fuel left (k + 1) h.1 f' in
    elim (Bool-cases (leb (length (record_bytes r)) n)) [
      | inl t ↦ rw (read_next-cut r n k (encode rs) h.0, t) (ap (◌∷◌ r) (rest (ground arith)))
      | inr t ↦ rw (read_next-cut r n k (encode rs) h.0, t)
    ]

length-whole : (n : ℕ) (rs : List WalRecord) → length (whole n rs) ≤ length rs
unfolding whole
length-whole n [] = omega arith
length-whole n (r ∷ rs) = let rest = length-whole (n - length (record_bytes r)) rs in ground arith

-- A log cut at any byte reads back as exactly the records that lie wholly before the cut, in
-- order, given that each record fits the format and that the loop has more rounds than records.
pub read_all-cut :
    (rs : List WalRecord) (fuel n : ℕ)
    → AllFit rs
    → length rs < fuel
    → read_all fuel (open_reader (take n (encode rs))) ≡ whole n rs
unfolding open_reader
read_all-cut rs fuel n h f = read_all-cut_from rs fuel n 0 h (omega (arith, length-whole n rs))
