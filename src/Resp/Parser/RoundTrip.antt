-- ===== src/Resp/Parser/RoundTrip.antt =====
-- The parser on what `serialize` writes (engine/src/resp.cpp).
use distributed_in_memory_kv.Prelude.{
  ℕ, zero, suc, ◌+◌, ◌*◌, ◌<◌, ◌^◌, ◌≡◌, refl, Bool, true, false, some, [], ◌∷◌, ◌++◌, Bytes, arith,
  length, ap, ◌∙◌, append_assoc, length-append, take-length-append, ltb,
}
use distributed_in_memory_kv.Prelude.Int.{pos, negsuc}
use distributed_in_memory_kv.Resp.Value.{
  RespValue, nil, cons, simple_string, error, integer, bulk_string, array, null_bulk_string, crlf,
  serialize,
}
use distributed_in_memory_kv.Resp.Decimal.{
  parse_integer, print_nat, print_int, IsInt64, parse_integer-print_int,
}
use distributed_in_memory_kv.Resp.Parser.{
  State, RespParser, new, value, begin, on_bulk_len, on_bulk_line, on_bulk_data, needed,
  on_array_len, on_array_line, on_simple_line, on_error_line, on_integer_line, on_number, dispatch,
  loop, parse,
}
use distributed_in_memory_kv.Resp.Parser.Lines.{IsLine, read_line-crlf}
use distributed_in_memory_kv.Resp.Parser.Steps.{is_empty-append, loop_round, parse_begun}
use distributed_in_memory_kv.Resp.Parser.Numbers.{
  read_line-print_int, read_line-print_nat, parse_integer-print_nat,
}

-- A value that the protocol can carry outside an array: no carriage return in a line, an int64_t,
-- and a length whose sum with 2 an int64_t holds.
abbrev pub IsScalar : RespValue → Type 0
IsScalar (simple_string s) = IsLine s
IsScalar (error msg) = IsLine msg
IsScalar (integer i) = IsInt64 i
IsScalar (bulk_string s) = length s + 2 < 2 ^ 63
IsScalar (array nil) = Unit
IsScalar (array (cons v vs)) = ⊥
IsScalar null_bulk_string = Unit

module _ (can_reserve : ℕ → Bool) where
  line-parse :
      (c : ℕ) (st : State) (line rest : Bytes)
      → begin c ≡ some st
      → parse can_reserve (c ∷ ((line ++ crlf) ++ rest)) new
        ≡ dispatch can_reserve
            (loop can_reserve (2 * length (line ++ (crlf ++ rest)) + 2))
            st
            (record new { state = st; buffer = line ++ (crlf ++ rest) })
  line-parse c st line rest e = rw (append_assoc line crlf rest) (
      parse_begun can_reserve c st (line ++ (crlf ++ rest)) e (is_empty-append line 13 (10 ∷ rest)))

  bulk_data-value :
      (fuel : ℕ) (s rest : Bytes)
      → length s + 2 < 2 ^ 63
      → 0 < fuel
      → loop can_reserve fuel (record new {
        state = State.bulk_string_data;
        buffer = s ++ (crlf ++ rest);
        bulk_len = pos (length s);
      })
        ≡ (value (bulk_string s), new)
  bulk_data-value zero s rest small h = absurd (omega arith)
  bulk_data-value (suc fuel) s rest small h =
      let p : RespParser = record new {
        state = State.bulk_string_data;
        buffer = s ++ (crlf ++ rest);
        bulk_len = pos (length s);
      } in
      let all : ltb (length (s ++ (crlf ++ rest))) (needed p) ≡ false =
        unfold needed in ground (arith, length-append s (crlf ++ rest)) in
      loop_round can_reserve fuel p (is_empty-append s 13 (10 ∷ rest))
      ∙ (unfold dispatch on_bulk_data in rw (all, take-length-append s (crlf ++ rest)) refl)

  bulk-parse :
      (s rest : Bytes)
      → length s + 2 < 2 ^ 63
      → parse can_reserve (serialize (bulk_string s) ++ rest) new ≡ (value (bulk_string s), new)
  unfolding serialize
  bulk-parse s rest small =
      let n = length s in
      let body = s ++ (crlf ++ rest) in
      let line = print_nat n ++ (crlf ++ body) in
      let start : begin b'$' ≡ some State.bulk_string_len = unfold begin in refl in
      let text : serialize (bulk_string s) ++ rest ≡ b'$' ∷ line = ap (◌∷◌ b'$') (
        append_assoc (print_nat n) (crlf ++ (s ++ crlf)) rest
        ∙ ap (λ t. print_nat n ++ (crlf ++ t)) (append_assoc s crlf rest)) in
      let number : parse_integer (print_nat n) ≡ some (pos n) =
        parse_integer-print_nat n (omega arith) in
      rw
        (
          text,
          parse_begun can_reserve b'$' State.bulk_string_len line start
              (is_empty-append (print_nat n) 13 (10 ∷ body)),
        )
        (unfold dispatch on_bulk_line in
          rw (read_line-print_nat n body) (
            rw number (
              unfold on_bulk_len in
              bulk_data-value (2 * length line + 2) s rest small (omega arith))))

abbrev minus_one : Bytes
minus_one = b'-' ∷ b'1' ∷ []

minus_one_number : parse_integer minus_one ≡ some (negsuc 0)
unfolding parse_integer
minus_one_number = refl

-- A new parser that is fed with the serialization of a scalar, and any bytes after it, returns the
-- scalar: a simple string or error without carriage returns, an int64_t, a bulk string whose length with the
-- line end is below 2 ^ 63, the null bulk string, or the empty array. It is left as a new parser, so
-- that the bytes after the value are lost. A reservation of no elements does not throw.
pub parse-serialize :
    (can_reserve : ℕ → Bool) (v : RespValue) (rest : Bytes)
    → can_reserve 0 ≡ true
    → IsScalar v
    → parse can_reserve (serialize v ++ rest) new ≡ (value v, new)
unfolding serialize
parse-serialize can_reserve (simple_string s) rest room h =
    line-parse can_reserve b'+' State.simple_string s rest (unfold begin in refl)
    ∙ (unfold dispatch on_simple_line in rw (read_line-crlf s rest h) refl)
parse-serialize can_reserve (error msg) rest room h =
    line-parse can_reserve b'-' State.error msg rest (unfold begin in refl)
    ∙ (unfold dispatch on_error_line in rw (read_line-crlf msg rest h) refl)
parse-serialize can_reserve (integer i) rest room h =
    line-parse can_reserve b':' State.integer (print_int i) rest (unfold begin in refl)
    ∙ (unfold dispatch on_integer_line on_number in
        rw (read_line-print_int i rest) (rw (parse_integer-print_int i h) refl))
parse-serialize can_reserve (bulk_string s) rest room h = bulk-parse can_reserve s rest h
parse-serialize can_reserve (array nil) rest room h =
    line-parse can_reserve b'*' State.array_len (print_nat 0) rest (unfold begin in refl)
    ∙ (unfold dispatch on_array_line on_array_len in
        rw (read_line-print_nat 0 rest) (rw (parse_integer-print_nat 0 (omega arith), room) refl))
parse-serialize can_reserve (array (cons v vs)) rest room h = elim h [ ]
parse-serialize can_reserve null_bulk_string rest room h =
    line-parse can_reserve b'$' State.bulk_string_len minus_one rest (unfold begin in refl)
    ∙ (unfold dispatch on_bulk_line on_bulk_len in
        rw (read_line-crlf minus_one rest (refl, (refl, tt))) (rw minus_one_number refl))
