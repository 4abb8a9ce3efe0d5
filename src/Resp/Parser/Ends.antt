-- ===== src/Resp/Parser/Ends.antt =====
-- How the loop of `parse` ends, and what it can return (engine/src/resp.cpp).
use distributed_in_memory_kv.Prelude.{
  ℕ, zero, suc, ◌+◌, ◌*◌, ◌≤◌, ◌<◌, ◌≡◌, refl, Bool, false, Option, none, some, [], ◌∷◌, Bytes,
  arith, length, Bool-cases, inl, inr, ◌==◌, ltb,
}
use distributed_in_memory_kv.Prelude.Int.{ℤ, pos, negsuc}
use distributed_in_memory_kv.Resp.Value.{
  RespValue, nil, cons, simple_string, error, integer, bulk_string, array, null_bulk_string,
}
use distributed_in_memory_kv.Resp.Decimal.{parse_integer}
use distributed_in_memory_kv.Resp.Parser
use distributed_in_memory_kv.Resp.Parser.{
  State, RespParser, new, Outcome, value, more, thrown, out_of_fuel, Result, read_line, begin,
  on_type, on_start, on_bulk_len, on_bulk_line, on_array_len, on_array_line, on_element,
  on_simple_line, on_error_line, on_integer_line, on_number, on_bulk_data, dispatch, loop, is_empty,
  feed, enough, parse,
}
use distributed_in_memory_kv.Resp.Parser.Lines.{read_line_shorter}

-- No array but the empty one.
abbrev pub IsFlat : RespValue → Type 0
IsFlat (simple_string s) = Unit
IsFlat (error msg) = Unit
IsFlat (integer i) = Unit
IsFlat (bulk_string s) = Unit
IsFlat (array nil) = Unit
IsFlat (array (cons v vs)) = ⊥
IsFlat null_bulk_string = Unit

-- The loop has ended by itself. A value that it returns is flat and leaves a new parser behind.
abbrev pub Ends : Result → Type 0
Ends (value v, p) = (p ≡ new) × IsFlat v
Ends (more, p) = Unit
Ends (thrown, p) = Unit
Ends (out_of_fuel, p) = ⊥

abbrev pub in_element : State → ℕ
in_element State.array_element = 1
in_element _ = 0

abbrev pub measure : RespParser → ℕ
measure p = 2 * length p.buffer + in_element p.state

pub in_element-le : (s : State) → in_element s ≤ 1
in_element-le State.start = omega arith
in_element-le _ = omega arith

module _ (again : RespParser → Result) (m : ℕ)
    (ih : (q : RespParser) → measure q < m → Ends (again q)) where
  on_type-Ends :
      (st : Option State) (rest : Bytes) (p : RespParser)
      → 2 * length rest + 1 < m
      → Ends (on_type again st rest p)
  unfolding on_type
  on_type-Ends none rest p h = tt
  on_type-Ends (some st) rest p h = ih _ (omega (arith, in_element-le st))

  on_start-Ends : (s : Bytes) (p : RespParser) → 2 * length s ≤ m → Ends (on_start again s p)
  unfolding on_start
  on_start-Ends [] p h = tt
  on_start-Ends (c ∷ rest) p h = on_type-Ends (begin c) rest p (omega arith)

  on_bulk_len-Ends :
      (len : Option ℤ) (rest : Bytes) (p : RespParser)
      → 2 * length rest < m
      → Ends (on_bulk_len again len rest p)
  unfolding on_bulk_len
  on_bulk_len-Ends none rest p h = tt
  on_bulk_len-Ends (some (negsuc zero)) rest p h = (refl, tt)
  on_bulk_len-Ends (some (negsuc (suc n))) rest p h = ih _ (omega arith)
  on_bulk_len-Ends (some (pos n)) rest p h = ih _ (omega arith)

  on_array_len-Ends :
      (can_reserve : ℕ → Bool) (len : Option ℤ) (rest : Bytes) (p : RespParser)
      → 2 * length rest + 1 < m
      → Ends (on_array_len again can_reserve len rest p)
  unfolding on_array_len
  on_array_len-Ends can_reserve none rest p h = tt
  on_array_len-Ends can_reserve (some (negsuc n)) rest p h = tt
  on_array_len-Ends can_reserve (some (pos n)) rest p h = elim (Bool-cases (can_reserve n)) [
    | inr refused ↦ rw refused tt
    | inl yes_room ↦ elim (Bool-cases (n == 0)) [
      | inl none_left ↦ rw (yes_room, none_left) (refl, tt)
      | inr some_left ↦ rw (yes_room, some_left) (ih _ (omega arith))
    ]
  ]

  on_element-Ends : (r : Result) → Ends r → 1 < m → Ends (on_element again r)
  unfolding on_element
  on_element-Ends (value v, p) (e, flat) h = rw e (ih _ (omega arith))
  on_element-Ends (more, p) e h = tt
  on_element-Ends (thrown, p) e h = tt
  on_element-Ends (out_of_fuel, p) e h = e

  on_bulk_line-Ends :
      (l : Option (Bytes × Bytes)) (p : RespParser)
      → read_line p.buffer ≡ l
      → 2 * length p.buffer ≤ m
      → Ends (on_bulk_line again l p)
  unfolding on_bulk_line
  on_bulk_line-Ends none p e h = tt
  on_bulk_line-Ends (some (line, rest)) p e h =
      on_bulk_len-Ends (parse_integer line) rest p
        (omega (arith, read_line_shorter p.buffer line rest e))

  on_array_line-Ends :
      (can_reserve : ℕ → Bool) (l : Option (Bytes × Bytes)) (p : RespParser)
      → read_line p.buffer ≡ l
      → 2 * length p.buffer ≤ m
      → Ends (on_array_line again can_reserve l p)
  unfolding on_array_line
  on_array_line-Ends can_reserve none p e h = tt
  on_array_line-Ends can_reserve (some (line, rest)) p e h =
      on_array_len-Ends can_reserve (parse_integer line) rest p
        (omega (arith, read_line_shorter p.buffer line rest e))

on_simple_line-Ends : (l : Option (Bytes × Bytes)) (p : RespParser) → Ends (on_simple_line l p)
unfolding on_simple_line
on_simple_line-Ends none p = tt
on_simple_line-Ends (some (line, rest)) p = (refl, tt)

on_error_line-Ends : (l : Option (Bytes × Bytes)) (p : RespParser) → Ends (on_error_line l p)
unfolding on_error_line
on_error_line-Ends none p = tt
on_error_line-Ends (some (line, rest)) p = (refl, tt)

on_number-Ends : (i : Option ℤ) (p : RespParser) → Ends (on_number i p)
unfolding on_number
on_number-Ends none p = tt
on_number-Ends (some i) p = (refl, tt)

on_integer_line-Ends : (l : Option (Bytes × Bytes)) (p : RespParser) → Ends (on_integer_line l p)
unfolding on_integer_line
on_integer_line-Ends none p = tt
on_integer_line-Ends (some (line, rest)) p = on_number-Ends (parse_integer line) p

on_bulk_data-Ends : (p : RespParser) → Ends (on_bulk_data p)
unfolding on_bulk_data
on_bulk_data-Ends p = elim (Bool-cases (ltb (length p.buffer) (Parser.needed p))) [
  | inl short ↦ rw short tt
  | inr whole ↦ rw whole (refl, tt)
]

dispatch-Ends :
    (can_reserve : ℕ → Bool) (again : RespParser → Result) (s : State) (p : RespParser)
    → ((q : RespParser) → measure q < 2 * length p.buffer + in_element s → Ends (again q))
    → is_empty p.buffer ≡ false
    → Ends (dispatch can_reserve again s p)
unfolding dispatch
dispatch-Ends can_reserve again State.start p ih h =
    on_start-Ends again _ ih p.buffer p (omega arith)
dispatch-Ends can_reserve again State.simple_string p ih h =
    on_simple_line-Ends (read_line p.buffer) p
dispatch-Ends can_reserve again State.error p ih h = on_error_line-Ends (read_line p.buffer) p
dispatch-Ends can_reserve again State.integer p ih h = on_integer_line-Ends (read_line p.buffer) p
dispatch-Ends can_reserve again State.bulk_string_len p ih h =
    on_bulk_line-Ends again _ ih (read_line p.buffer) p refl (omega arith)
dispatch-Ends can_reserve again State.bulk_string_data p ih h = on_bulk_data-Ends p
dispatch-Ends can_reserve again State.array_len p ih h =
    on_array_line-Ends again _ ih can_reserve (read_line p.buffer) p refl (omega arith)
dispatch-Ends can_reserve again State.array_element p ih h =
    on_element-Ends again _ ih (again (record p { state = State.start })) (ih _ (omega arith))
      (ground arith)

pub loop-Ends :
    (can_reserve : ℕ → Bool) (fuel : ℕ) (p : RespParser)
    → measure p < fuel
    → Ends (loop can_reserve fuel p)
unfolding loop
loop-Ends can_reserve zero p h = absurd (omega arith)
loop-Ends can_reserve (suc fuel) p h = elim (Bool-cases (is_empty p.buffer)) [
  | inl done ↦ rw done tt
  | inr on ↦ rw on (
      dispatch-Ends can_reserve (loop can_reserve fuel) p.state p
        (λ q l. loop-Ends can_reserve fuel q (omega arith)) on)
]

-- Whatever bytes a parser in whatever state is fed with, `parse` ends by itself. If it returns a
-- value, then this is no array with an element, and the parser is left as a new one: what stands
-- after the value in the buffer is lost.
pub parse-Ends :
    (can_reserve : ℕ → Bool) (bytes : Bytes) (p : RespParser) → Ends (parse can_reserve bytes p)
unfolding parse
parse-Ends can_reserve bytes p =
    loop-Ends can_reserve (enough (feed bytes p)) (feed bytes p)
      (omega (arith, in_element-le p.state))
