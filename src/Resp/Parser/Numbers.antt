-- ===== src/Resp/Parser/Numbers.antt =====
-- The lines of numbers that `serialize` writes and the parser reads (engine/src/resp.cpp).
use distributed_in_memory_kv.Prelude.{
  ℕ, zero, suc, ◌+◌, ◌/◌, ◌%◌, ◌^◌, ◌<◌, ◌≡◌, refl, some, [], ◌∷◌, ◌++◌, Bytes, arith, ltb,
  Bool-cases, inl, inr,
}
use distributed_in_memory_kv.Prelude.Int.{ℤ, pos, negsuc}
use distributed_in_memory_kv.Resp.Decimal.{
  print_digits, print_nat, print_int, parse_integer, parse_integer-print_int,
}
use distributed_in_memory_kv.Resp.Value.{crlf}
use distributed_in_memory_kv.Resp.Parser.{read_line}
use distributed_in_memory_kv.Resp.Parser.Lines.{IsLine, read_line-crlf}

IsLine-append : (s t : Bytes) → IsLine s → IsLine t → IsLine (s ++ t)
IsLine-append [] t h k = k
IsLine-append (c ∷ s) t h k = (h.0, IsLine-append s t h.1 k)

print_digits-IsLine : (fuel n : ℕ) → IsLine (print_digits fuel n)
unfolding print_digits
print_digits-IsLine zero n = (ground arith, tt)
print_digits-IsLine (suc fuel) n = elim (Bool-cases (ltb n 10)) [
  | inl small ↦ rw small (ground arith, tt)
  | inr large ↦ rw large (
      IsLine-append (print_digits fuel (n / 10)) ((n % 10 + b'0') ∷ [])
        (print_digits-IsLine fuel (n / 10)) (ground arith, tt))
]

print_int-IsLine : (i : ℤ) → IsLine (print_int i)
unfolding print_int print_nat
print_int-IsLine (pos n) = print_digits-IsLine 19 n
print_int-IsLine (negsuc n) = (refl, print_digits-IsLine 19 (suc n))

-- The line of a number, and the number in it.
pub read_line-print_int :
    (i : ℤ) (rest : Bytes) → read_line (print_int i ++ (crlf ++ rest)) ≡ some (print_int i, rest)
read_line-print_int i rest = read_line-crlf (print_int i) rest (print_int-IsLine i)

pub read_line-print_nat :
    (n : ℕ) (rest : Bytes) → read_line (print_nat n ++ (crlf ++ rest)) ≡ some (print_nat n, rest)
unfolding print_nat
read_line-print_nat n rest = read_line-crlf (print_nat n) rest (print_digits-IsLine 19 n)

pub parse_integer-print_nat : (n : ℕ) → n < 2 ^ 63 → parse_integer (print_nat n) ≡ some (pos n)
parse_integer-print_nat n h = unfold print_int in parse_integer-print_int (pos n) h
