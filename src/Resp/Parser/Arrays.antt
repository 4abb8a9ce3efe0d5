-- ===== src/Resp/Parser/Arrays.antt =====
-- Arrays in the parser of engine/src/resp.cpp: the recursive call of `parse` for an element.
use distributed_in_memory_kv.Prelude.{
  ℕ, zero, suc, ◌+◌, ◌*◌, ◌<◌, ◌^◌, ◌≡◌, refl, Bool, false, some, [], ◌∷◌, ◌++◌, Bytes, arith,
  length, length-append, Bool-cases, inl, inr, ◌==◌, ap, append_assoc,
}
use distributed_in_memory_kv.Resp.Value.{
  RespValue, nil, cons, Items, count, array, crlf, serialize, serialize_items,
}
use distributed_in_memory_kv.Resp.Decimal.{print_nat}
use distributed_in_memory_kv.Resp.Parser.{
  State, RespParser, new, value, more, thrown, out_of_fuel, Result, read_line, begin, on_array_len,
  on_array_line, on_element, dispatch, loop, is_empty, feed, enough, parse,
}
use distributed_in_memory_kv.Resp.Parser.Steps.{loop-nil, is_empty-append, loop_round, parse-begin}
use distributed_in_memory_kv.Resp.Parser.Ends.{Ends, measure, loop-Ends}
use distributed_in_memory_kv.Resp.Parser.Numbers.{read_line-print_nat, parse_integer-print_nat}

-- The call returned no value, and the parser waits for an element still; or `reserve` threw.
abbrev pub IsStuck : Result → Type 0
IsStuck (value v, p) = ⊥
IsStuck (more, p) = p.state ≡ State.array_element
IsStuck (thrown, p) = Unit
IsStuck (out_of_fuel, p) = ⊥

on_element-IsStuck :
    (again : RespParser → Result) (r : Result)
    → ((q : RespParser) → q.buffer ≡ [] → again q ≡ (more, q))
    → Ends r
    → IsStuck (on_element again r)
unfolding on_element
on_element-IsStuck again (value v, p) idle (e, flat) =
    rw e (
      rw (idle (record new { state = State.array_element; array_elements = cons v nil }) refl) refl)
on_element-IsStuck again (more, p) idle e = refl
on_element-IsStuck again (thrown, p) idle e = tt
on_element-IsStuck again (out_of_fuel, p) idle e = e

dispatch_element :
    (can_reserve : ℕ → Bool) (again : RespParser → Result) (s : State) (p : RespParser)
    → s ≡ State.array_element
    → dispatch can_reserve again s p ≡ on_element again (again (record p { state = State.start }))
unfolding dispatch
dispatch_element can_reserve again s p e = rw e refl

pub loop-IsStuck :
    (can_reserve : ℕ → Bool) (fuel : ℕ) (p : RespParser)
    → measure p < fuel
    → p.state ≡ State.array_element
    → IsStuck (loop can_reserve fuel p)
unfolding loop
loop-IsStuck can_reserve zero p h e = absurd (omega arith)
loop-IsStuck can_reserve (suc fuel) p h e = elim (Bool-cases (is_empty p.buffer)) [
  | inl done ↦ rw done e
  | inr on ↦
      let again = loop can_reserve fuel in
      let room : 0 < length p.buffer = ground arith in
      let start : measure (record p { state = State.start }) < fuel = ground (arith, e) in
      rw (on, dispatch_element can_reserve again p.state p e)
        (on_element-IsStuck again (again (record p { state = State.start }))
          (λ q empty. loop-nil can_reserve fuel q (omega arith) empty)
          (loop-Ends can_reserve fuel (record p { state = State.start }) start))
]

-- A parser that waits for an element of an array returns no value, whatever it is fed with, and
-- waits for an element afterwards too.
pub parse-IsStuck :
    (can_reserve : ℕ → Bool) (bytes : Bytes) (p : RespParser)
    → p.state ≡ State.array_element
    → IsStuck (parse can_reserve bytes p)
unfolding parse
parse-IsStuck can_reserve bytes p e =
    loop-IsStuck can_reserve (enough (feed bytes p)) (feed bytes p) (ground (arith, e)) e

array_header-IsStuck :
    (can_reserve : ℕ → Bool) (fuel n : ℕ) (rest : Bytes)
    → suc n < 2 ^ 63
    → 2 * length rest + 1 < fuel
    → IsStuck (
        on_array_line
          (loop can_reserve fuel)
          can_reserve
          (read_line (print_nat (suc n) ++ (crlf ++ rest)))
          (record new { state = State.array_len; buffer = print_nat (suc n) ++ (crlf ++ rest) }))
unfolding on_array_line on_array_len
array_header-IsStuck can_reserve fuel n rest small h =
    let some_left : (suc n == 0) ≡ false = ground arith in
    rw (read_line-print_nat (suc n) rest) (
      rw (parse_integer-print_nat (suc n) small) (elim (Bool-cases (can_reserve (suc n))) [
        | inr refused ↦ rw refused tt
        | inl fine ↦ rw (fine, some_left) (loop-IsStuck can_reserve fuel _ h refl)
      ]))

-- A new parser that is fed with bytes that begin with the serialization of an array that has elements,
-- which is how a client sends a command, gives no value: it is left waiting for an element, or `reserve`
-- has thrown. The array has fewer than 2 ^ 63 elements.
pub parse_array-IsStuck :
    (can_reserve : ℕ → Bool) (v : RespValue) (vs : Items) (rest : Bytes)
    → count (cons v vs) < 2 ^ 63
    → IsStuck (parse can_reserve (serialize (array (cons v vs)) ++ rest) new)
unfolding serialize
parse_array-IsStuck can_reserve v vs rest small =
    let n = count vs in
    let body = serialize_items (cons v vs) ++ rest in
    let line = print_nat (suc n) ++ (crlf ++ body) in
    let start : begin b'*' ≡ some State.array_len = unfold begin in refl in
    let text : serialize (array (cons v vs)) ++ rest ≡ b'*' ∷ line =
      ap (◌∷◌ b'*') (append_assoc (print_nat (suc n)) (crlf ++ serialize_items (cons v vs)) rest) in
    let fuel : 2 * length line + 3 ≡ suc (2 * length line + 2) = omega arith in
    let p : RespParser = record new { state = State.array_len; buffer = line } in
    rw (text, parse-begin can_reserve b'*' State.array_len line start, fuel)
      (rw
        (loop_round can_reserve (2 * length line + 2) p
          (is_empty-append (print_nat (suc n)) 13 (10 ∷ body)))
        (unfold dispatch in
          array_header-IsStuck can_reserve (2 * length line + 2) n body small
            (omega (arith, length-append (print_nat (suc n)) (crlf ++ body)))))
