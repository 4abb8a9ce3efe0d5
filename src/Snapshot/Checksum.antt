-- ===== src/Snapshot/Checksum.antt =====
-- The checksum of a snapshot (CRC64 of engine/src/snapshot.cpp): which changes it sees.
use distributed_in_memory_kv.Prelude.{
  ℕ, zero, suc, ◌/◌, ◌%◌, ◌^◌, ◌<◌, ◌≡◌, refl, sym, ap, ◌∙◌, Bool, true, ◌&&◌, [], ◌∷◌, ◌++◌, Bytes,
  arith, bit_xor, ◌==◌, ltb, if◌then◌else◌,
}
use distributed_in_memory_kv.Snapshot.{update, table_entry}
use distributed_in_memory_kv.Snapshot.Xor.{
  shift, shift-bit_xor, shift_small, bit_xor-lt, bit_xor_cancel, bit_xor_comm, zero-bit_xor,
}

-- The eight digits of an entry of the table that tell which entry it is.
unfoldable top : ℕ → ℕ
unfolding shift table_entry
top i = shift 55 (table_entry i)

unfoldable search : ℕ → ℕ → ℕ
unfolding top
search zero v = 0
search (suc n) v = let rest = search n v in if top n == v then n else rest

unfoldable all_below : ℕ → (ℕ → Bool) → Bool
all_below zero p = true
all_below (suc n) p = let rest = all_below n p in p n && rest

all_below_lem : (n : ℕ) (p : ℕ → Bool) (x : ℕ) → all_below n p ≡ true → x < n → p x ≡ true
unfolding all_below
all_below_lem zero p x h lt = absurd (omega arith)
all_below_lem (suc n) p x h lt = ground (arith, all_below_lem n p x)

tops : all_below 256 (λ i. search 256 (top i) == i) ≡ true
unfolding all_below search
tops = refl

bounds : all_below 256 (λ i. ltb (table_entry i) (2 ^ 63)) ≡ true
unfolding all_below table_entry
bounds = refl

top_injective : (i j : ℕ) → i < 256 → j < 256 → top i ≡ top j → i ≡ j
top_injective i j p q e =
    let at = λ (x : ℕ) (h : x < 256). all_below_lem 256 (λ i. search 256 (top i) == i) x tops h in
    let here : search 256 (top i) ≡ i = ==→≡ _ _ (at i p) in
    let there : search 256 (top j) ≡ j = ==→≡ _ _ (at j q) in sym here ∙ (ap (search 256) e ∙ there)
  where
    ==→≡ : (x y : ℕ) → (x == y) ≡ true → x ≡ y
    ==→≡ x y h = ground arith

table_entry-lt : (i : ℕ) → i < 256 → table_entry i < 2 ^ 63
table_entry-lt i h = ltb→lt _ _ (all_below_lem 256 (λ i. ltb (table_entry i) (2 ^ 63)) i bounds h)
  where
    ltb→lt : (x y : ℕ) → ltb x y ≡ true → x < y
    ltb→lt x y h = ground arith

-- What `update` does with one byte.
abbrev index_at : ℕ → ℕ → ℕ
index_at crc b = bit_xor crc b % 256

abbrev next : ℕ → ℕ → ℕ
next crc b = bit_xor (crc / 256) (table_entry (index_at crc b)) % 2 ^ 64

unwrapped-lt :
    (crc b : ℕ) → crc < 2 ^ 64 → bit_xor (crc / 256) (table_entry (index_at crc b)) < 2 ^ 63
unwrapped-lt crc b h =
    bit_xor-lt 63 (crc / 256) (table_entry (index_at crc b)) (omega arith)
      (table_entry-lt (index_at crc b) (omega arith))

next_unwrapped :
    (crc b : ℕ) → crc < 2 ^ 64 → next crc b ≡ bit_xor (crc / 256) (table_entry (index_at crc b))
next_unwrapped crc b h = omega (arith, unwrapped-lt crc b h)

next-lt : (crc b : ℕ) → crc < 2 ^ 64 → next crc b < 2 ^ 63
next-lt crc b h = omega (arith, unwrapped-lt crc b h)

shift-next : (crc b : ℕ) → crc < 2 ^ 63 → shift 55 (next crc b) ≡ top (index_at crc b)
unfolding top
shift-next crc b h =
    ap (shift 55) (next_unwrapped crc b (omega arith))
    ∙ (shift-bit_xor 55 (crc / 256) (table_entry (index_at crc b))
        ∙ (ap (λ x. bit_xor x (top (index_at crc b))) (shift_small 55 (crc / 256) (omega arith))
            ∙ zero-bit_xor (top (index_at crc b))))

same_index :
    (crc crc' b b' : ℕ)
    → crc < 2 ^ 63
    → crc' < 2 ^ 63
    → next crc b ≡ next crc' b'
    → index_at crc b ≡ index_at crc' b'
same_index crc crc' b b' p q e =
    top_injective (index_at crc b) (index_at crc' b') (omega arith) (omega arith)
      (sym (shift-next crc b p) ∙ (ap (shift 55) e ∙ shift-next crc' b' q))

cancel_right : (a b c : ℕ) → bit_xor a c ≡ bit_xor b c → a ≡ b
cancel_right a b c e = bit_xor_cancel c a b (bit_xor_comm c a ∙ (e ∙ bit_xor_comm b c))

same_high :
    (crc crc' b b' : ℕ)
    → crc < 2 ^ 63
    → crc' < 2 ^ 63
    → next crc b ≡ next crc' b'
    → crc / 256 ≡ crc' / 256
same_high crc crc' b b' p q e =
    cancel_right (crc / 256) (crc' / 256) (table_entry (index_at crc' b')) (
      ap (λ i. bit_xor (crc / 256) (table_entry i)) (sym (same_index crc crc' b b' p q e))
      ∙ (sym (next_unwrapped crc b (omega arith)) ∙ (e ∙ next_unwrapped crc' b' (omega arith))))

shift_eight : (a : ℕ) → shift 8 a ≡ a / 256
unfolding shift
shift_eight a = omega arith

bit_xor-high : (a b : ℕ) → bit_xor a b / 256 ≡ bit_xor (a / 256) (b / 256)
bit_xor-high a b =
    sym (shift_eight (bit_xor a b))
    ∙ (shift-bit_xor 8 a b
        ∙ (ap (λ x. bit_xor x (shift 8 b)) (shift_eight a)
            ∙ ap (bit_xor (a / 256)) (shift_eight b)))

same_xor :
    (crc crc' b b' : ℕ)
    → crc < 2 ^ 63
    → crc' < 2 ^ 63
    → b / 256 ≡ b' / 256
    → next crc b ≡ next crc' b'
    → bit_xor crc b ≡ bit_xor crc' b'
same_xor crc crc' b b' p q h e =
    let high : bit_xor crc b / 256 ≡ bit_xor crc' b' / 256 =
      bit_xor-high crc b
      ∙ (ap (λ x. bit_xor x (b / 256)) (same_high crc crc' b b' p q e)
          ∙ (ap (bit_xor (crc' / 256)) h ∙ sym (bit_xor-high crc' b'))) in
    omega (arith, high, same_index crc crc' b b' p q e)

next_keeps : (crc crc' b : ℕ) → crc < 2 ^ 63 → crc' < 2 ^ 63 → next crc b ≡ next crc' b → crc ≡ crc'
next_keeps crc crc' b p q e = cancel_right crc crc' b (same_xor crc crc' b b p q refl e)

next_sees : (crc b b' : ℕ) → crc < 2 ^ 63 → b < 256 → b' < 256 → next crc b ≡ next crc b' → b ≡ b'
next_sees crc b b' p h h' e = bit_xor_cancel crc b b' (same_xor crc crc b b' p p (omega arith) e)

update_keeps :
    (s : Bytes) (crc crc' : ℕ)
    → crc < 2 ^ 63
    → crc' < 2 ^ 63
    → update crc s ≡ update crc' s
    → crc ≡ crc'
unfolding update
update_keeps [] crc crc' p q e = e
update_keeps (b ∷ s) crc crc' p q e = next_keeps crc crc' b p q (
    update_keeps s (next crc b) (next crc' b) (next-lt crc b (omega arith))
      (next-lt crc' b (omega arith)) e)

-- Bit 63 of the checksum is 0 behind the first byte.
pub update_small : (s : Bytes) (crc : ℕ) → crc < 2 ^ 63 → update crc s < 2 ^ 63
unfolding update
update_small [] crc h = h
update_small (b ∷ s) crc h = update_small s (next crc b) (next-lt crc b (omega arith))

pub update_first : (b : ℕ) (s : Bytes) (crc : ℕ) → crc < 2 ^ 64 → update crc (b ∷ s) < 2 ^ 63
unfolding update
update_first b s crc h = update_small s (next crc b) (next-lt crc b h)

pub update-append : (xs ys : Bytes) (crc : ℕ) → update crc (xs ++ ys) ≡ update (update crc xs) ys
unfolding update
update-append [] ys crc = refl
update-append (x ∷ xs) ys crc = update-append xs ys (next crc x)

-- The checksum sees a change of any one byte, from a state in which bit 63 is 0.
pub update_sees :
    (p r : Bytes) (crc b b' : ℕ)
    → crc < 2 ^ 63
    → b < 256
    → b' < 256
    → update crc (p ++ b ∷ r) ≡ update crc (p ++ b' ∷ r)
    → b ≡ b'
update_sees p r crc b b' h small small' e =
    let c = update crc p in
    let low : c < 2 ^ 63 = update_small p crc h in
    let tails : update (next c b) r ≡ update (next c b') r =
      unfold update in (sym (update-append p (b ∷ r) crc) ∙ (e ∙ update-append p (b' ∷ r) crc)) in
    next_sees c b b' low small small' (
      update_keeps r (next c b) (next c b') (next-lt c b (omega arith)) (next-lt c b' (omega arith))
        tails)
