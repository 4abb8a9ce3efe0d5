-- ===== src/Resp/Decimal.antt =====
-- Decimal integers as the protocol writes and reads them: `oss << n` and `std::stoll`.
use distributed_in_memory_kv.Prelude.{
  ℕ, zero, suc, ◌+◌, ◌-◌, ◌*◌, ◌/◌, ◌%◌, ◌^◌, ◌≤◌, ◌<◌, ◌≡◌, refl, Bool, true, false, ◌&&◌, ◌||◌,
  Option, none, some, [], ◌∷◌, ◌++◌, Bytes, arith, leb, ltb, ◌==◌, if◌then◌else◌, append_assoc, sym,
  ap, ◌∙◌, append-nil, Bool-cases, inl, inr, ltb→lt,
}
use distributed_in_memory_kv.Prelude.Int.{ℤ, pos, negsuc}
use native.Mathlib.Nat.{pow-suc}

-- The digits of a number below 10 ^ (fuel + 1).
unfoldable pub print_digits : ℕ → ℕ → Bytes
print_digits zero n = (n + b'0') ∷ []
print_digits (suc fuel) n =
    let more = print_digits fuel (n / 10) ++ (n % 10 + b'0') ∷ [] in
    if ltb n 10 then (n + b'0') ∷ [] else more

-- A 64-bit number has at most twenty digits.
unfoldable pub print_nat : ℕ → Bytes
unfolding print_digits
print_nat n = print_digits 19 n

unfoldable pub print_int : ℤ → Bytes
unfolding print_nat
print_int (pos n) = print_nat n
print_int (negsuc n) = b'-' ∷ print_nat (suc n)

unfoldable pub is_digit : ℕ → Bool
is_digit c = leb b'0' c && leb c b'9'

unfoldable pub is_space : ℕ → Bool
is_space c = c == 32 || (leb 9 c && leb c 13)

unfoldable pub skip_space : Bytes → Bytes
unfolding is_space
skip_space [] = []
skip_space (c ∷ s) = if is_space c then skip_space s else c ∷ s

-- What comes after the digits is ignored.
unfoldable pub read_digits : ℕ → Bytes → ℕ
unfolding is_digit
read_digits acc [] = acc
read_digits acc (c ∷ s) =
    let more = read_digits (acc * 10 + (c - b'0')) s in if is_digit c then more else acc

-- Without a digit `std::stoll` throws.
unfoldable pub magnitude : Bytes → Option ℕ
unfolding read_digits
magnitude [] = none
magnitude (c ∷ s) = if is_digit c then some (read_digits 0 (c ∷ s)) else none

-- A value that an int64_t cannot hold makes `std::stoll` throw.
unfoldable pub positive : Option ℕ → Option ℤ
positive none = none
positive (some n) = if ltb n (2 ^ 63) then some (pos n) else none

unfoldable pub negative : Option ℕ → Option ℤ
negative none = none
negative (some zero) = some (pos 0)
negative (some (suc n)) = if ltb n (2 ^ 63) then some (negsuc n) else none

unfoldable pub signed : Bytes → Option ℤ
unfolding magnitude positive negative
signed [] = none
signed (c ∷ s) =
    if c == b'-'
    then negative (magnitude s)
    else if c == b'+'
    then positive (magnitude s)
    else positive (magnitude (c ∷ s))

-- `none` stands for the exceptions, all of which the code catches.
unfoldable pub parse_integer : Bytes → Option ℤ
unfolding skip_space signed
parse_integer s = signed (skip_space s)

-- The integers that an int64_t holds.
abbrev pub IsInt64 : ℤ → Type 0
IsInt64 (pos n) = n < 2 ^ 63
IsInt64 (negsuc n) = n < 2 ^ 63

digit_char : (d : ℕ) → d < 10 → is_digit (d + b'0') ≡ true
unfolding is_digit
digit_char d h = ground arith

read_digits-print_digits :
    (fuel n : ℕ) (rest : Bytes)
    → n < 10 ^ suc fuel
    → read_digits 0 (print_digits fuel n ++ rest) ≡ read_digits n rest
unfolding print_digits read_digits
read_digits-print_digits zero n rest h =
    let small : n < 10 = h in
    let same : 0 * 10 + (n + b'0' - b'0') ≡ n = omega arith in rw (digit_char n small, same)
read_digits-print_digits (suc fuel) n rest h = elim (Bool-cases (ltb n 10)) [
  | inl small ↦
      let same : 0 * 10 + (n + b'0' - b'0') ≡ n = omega arith in
      rw (small, digit_char n (ltb→lt n 10 small), same)
  | inr large ↦
      let d = n % 10 in
      let same : n / 10 * 10 + (d + b'0' - b'0') ≡ n = omega arith in
      rw (large, append_assoc (print_digits fuel (n / 10)) ((d + b'0') ∷ []) rest)
        (read_digits-print_digits fuel (n / 10) ((d + b'0') ∷ rest)
            (omega (arith, pow-suc 10 (suc fuel)))
          ∙ rw (digit_char d (omega arith), same))
]

abbrev starts_digit : Bytes → Bool
starts_digit [] = false
starts_digit (c ∷ s) = is_digit c

starts_digit-append : (s rest : Bytes) → starts_digit s ≡ true → starts_digit (s ++ rest) ≡ true
starts_digit-append [] rest h = ground arith
starts_digit-append (c ∷ s) rest h = h

-- What is printed begins with a digit.
starts_digit-print_digits :
    (fuel n : ℕ) → n < 10 ^ suc fuel → starts_digit (print_digits fuel n) ≡ true
unfolding print_digits
starts_digit-print_digits zero n h = digit_char n h
starts_digit-print_digits (suc fuel) n h = elim (Bool-cases (ltb n 10)) [
  | inl small ↦ rw small (digit_char n (ltb→lt n 10 small))
  | inr large ↦ rw large (
      starts_digit-append (print_digits fuel (n / 10)) ((n % 10 + b'0') ∷ [])
        (starts_digit-print_digits fuel (n / 10) (omega (arith, pow-suc 10 (suc fuel)))))
]

is_space-digit : (c : ℕ) → is_digit c ≡ true → is_space c ≡ false
unfolding is_digit is_space
is_space-digit c h = ground arith

skip_space-digit : (s : Bytes) → starts_digit s ≡ true → skip_space s ≡ s
unfolding skip_space
skip_space-digit [] h = refl
skip_space-digit (c ∷ s) h = rw (is_space-digit c h)

magnitude-digit : (s : Bytes) → starts_digit s ≡ true → magnitude s ≡ some (read_digits 0 s)
unfolding magnitude
magnitude-digit [] h = ground arith
magnitude-digit (c ∷ s) h = rw h

signed-digit : (s : Bytes) → starts_digit s ≡ true → signed s ≡ positive (magnitude s)
unfolding signed
signed-digit [] h = ground arith
signed-digit (c ∷ s) h = ground arith

magnitude-print_nat : (n : ℕ) → n ≤ 2 ^ 63 → magnitude (print_nat n) ≡ some n
unfolding print_nat read_digits
magnitude-print_nat n h =
    let read : read_digits 0 (print_digits 19 n) ≡ n =
      ap (read_digits 0) (sym (append-nil (print_digits 19 n)))
      ∙ read_digits-print_digits 19 n [] (omega arith) in
    magnitude-digit (print_digits 19 n) (starts_digit-print_digits 19 n (omega arith))
    ∙ ap some read

-- What `std::stoll` returns for the text that `<<` prints of an int64_t is that number.
pub parse_integer-print_int : (i : ℤ) → IsInt64 i → parse_integer (print_int i) ≡ some i
unfolding parse_integer print_int print_nat
parse_integer-print_int (pos n) h =
    let lead = starts_digit-print_digits 19 n (omega arith) in
    rw (skip_space-digit (print_digits 19 n) lead, signed-digit (print_digits 19 n) lead)
      (rw (magnitude-print_nat n (omega arith)) (ground arith))
parse_integer-print_int (negsuc n) h =
    let read = magnitude-print_nat (suc n) (omega arith) in rw read (ground arith)
