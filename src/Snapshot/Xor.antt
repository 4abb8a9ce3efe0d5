-- ===== src/Snapshot/Xor.antt =====
-- The exclusive or of numbers, digit by digit, as CRC64 of engine/src/snapshot.cpp uses it.
use native.Mathlib.Nat.{pow-suc}
use Prim.Native.Nat.{differ, digits, bit_xor-bitwise}
use distributed_in_memory_kv.Prelude.{
  ℕ, zero, suc, ◌+◌, ◌*◌, ◌/◌, ◌%◌, ◌^◌, ◌≤◌, ◌<◌, ◌≡◌, refl, sym, ap, ◌∙◌, arith, bit_xor,
}

abbrev xor_digits : ℕ → ℕ → ℕ → ℕ
xor_digits n a b = digits (λ b. b) differ n a b

xor_digits_fuel : (n m a b : ℕ) → a ≤ n → a ≤ m → xor_digits n a b ≡ xor_digits m a b
xor_digits_fuel zero zero a b p q = refl
xor_digits_fuel zero (suc m) zero b p q = refl
xor_digits_fuel zero (suc m) (suc a) b p q = absurd (omega arith)
xor_digits_fuel (suc n) zero zero b p q = refl
xor_digits_fuel (suc n) zero (suc a) b p q = absurd (omega arith)
xor_digits_fuel (suc n) (suc m) zero b p q = refl
xor_digits_fuel (suc n) (suc m) (suc a) b p q =
    omega (arith, xor_digits_fuel n m (suc a / 2) (b / 2) (omega arith) (omega arith))

pub zero-bit_xor : (b : ℕ) → bit_xor 0 b ≡ b
zero-bit_xor b = bit_xor-bitwise 0 b

bit_xor_step : (a b : ℕ) → bit_xor a b ≡ bit_xor (a / 2) (b / 2) * 2 + differ (a % 2) (b % 2)
bit_xor_step zero b = omega (arith, zero-bit_xor b, zero-bit_xor (b / 2))
bit_xor_step (suc a) b = omega (
  arith,
  bit_xor-bitwise (suc a) b,
  bit_xor-bitwise (suc a / 2) (b / 2),
  xor_digits_fuel a (suc a / 2) (suc a / 2) (b / 2) (omega arith) (omega arith),
)

-- The operation on two digits.
differ-lt : (x y : ℕ) → x < 2 → y < 2 → differ x y < 2
differ-lt zero y p q = q
differ-lt (suc zero) zero p q = p
differ-lt (suc zero) (suc y) p q = omega arith
differ-lt (suc (suc x)) y p q = absurd (omega arith)

differ_comm : (x y : ℕ) → differ x y ≡ differ y x
differ_comm zero zero = refl
differ_comm zero (suc y) = refl
differ_comm (suc x) zero = refl
differ_comm (suc x) (suc y) = differ_comm x y

differ_cancel : (x y z : ℕ) → x < 2 → y < 2 → z < 2 → differ x y ≡ differ x z → y ≡ z
differ_cancel zero y z p q r e = e
differ_cancel (suc zero) zero zero p q r e = refl
differ_cancel (suc zero) zero (suc z) p q r e = omega arith
differ_cancel (suc zero) (suc y) zero p q r e = omega arith
differ_cancel (suc zero) (suc y) (suc z) p q r e = omega arith
differ_cancel (suc (suc x)) y z p q r e = absurd (omega arith)

bit_xor-half : (a b : ℕ) → bit_xor a b / 2 ≡ bit_xor (a / 2) (b / 2)
bit_xor-half a b =
    omega (arith, bit_xor_step a b, differ-lt (a % 2) (b % 2) (omega arith) (omega arith))

bit_xor_low : (a b : ℕ) → bit_xor a b % 2 ≡ differ (a % 2) (b % 2)
bit_xor_low a b =
    omega (arith, bit_xor_step a b, differ-lt (a % 2) (b % 2) (omega arith) (omega arith))

comm_fuel : (n a b : ℕ) → a ≤ n → b ≤ n → bit_xor a b ≡ bit_xor b a
comm_fuel zero a b p q =
    let e : a ≡ 0 = omega arith in let f : b ≡ 0 = omega arith in rw (e, f) refl
comm_fuel (suc n) a b p q = omega (
  arith,
  bit_xor_step a b,
  bit_xor_step b a,
  comm_fuel n (a / 2) (b / 2) (omega arith) (omega arith),
  differ_comm (a % 2) (b % 2),
)

pub bit_xor_comm : (a b : ℕ) → bit_xor a b ≡ bit_xor b a
bit_xor_comm a b = comm_fuel (a + b) a b (omega arith) (omega arith)

pub bit_xor-zero : (a : ℕ) → bit_xor a 0 ≡ a
bit_xor-zero a = bit_xor_comm a 0 ∙ zero-bit_xor a

cancel_fuel : (n a b c : ℕ) → b ≤ n → c ≤ n → bit_xor a b ≡ bit_xor a c → b ≡ c
cancel_fuel zero a b c p q e = omega arith
cancel_fuel (suc n) a b c p q e =
    let high =
      cancel_fuel n (a / 2) (b / 2) (c / 2) (omega arith) (omega arith)
        (sym (bit_xor-half a b) ∙ (ap (λ x. x / 2) e ∙ bit_xor-half a c)) in
    let low =
      differ_cancel (a % 2) (b % 2) (c % 2) (omega arith) (omega arith) (omega arith)
        (sym (bit_xor_low a b) ∙ (ap (λ x. x % 2) e ∙ bit_xor_low a c)) in
    omega (arith, high, low)

pub bit_xor_cancel : (a b c : ℕ) → bit_xor a b ≡ bit_xor a c → b ≡ c
bit_xor_cancel a b c e = cancel_fuel (b + c) a b c (omega arith) (omega arith) e

-- `k` digits less.
unfoldable pub shift : ℕ → ℕ → ℕ
shift zero a = a
shift (suc k) a = shift k (a / 2)

pub shift-bit_xor : (k a b : ℕ) → shift k (bit_xor a b) ≡ bit_xor (shift k a) (shift k b)
unfolding shift
shift-bit_xor zero a b = refl
shift-bit_xor (suc k) a b = ap (shift k) (bit_xor-half a b) ∙ shift-bit_xor k (a / 2) (b / 2)

pub shift_small : (k a : ℕ) → a < 2 ^ k → shift k a ≡ 0
unfolding shift
shift_small zero a h = omega arith
shift_small (suc k) a h = shift_small k (a / 2) (omega (arith, pow-suc 2 k))

small_shift : (k a : ℕ) → shift k a ≡ 0 → a < 2 ^ k
unfolding shift
small_shift zero a h = omega arith
small_shift (suc k) a h = omega (arith, small_shift k (a / 2) h, pow-suc 2 k)

pub bit_xor-lt : (k a b : ℕ) → a < 2 ^ k → b < 2 ^ k → bit_xor a b < 2 ^ k
bit_xor-lt k a b p q =
    small_shift k (bit_xor a b)
      (shift-bit_xor k a b ∙ (rw (shift_small k a p, shift_small k b q) refl))
