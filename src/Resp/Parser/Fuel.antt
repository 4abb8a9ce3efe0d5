-- ===== src/Resp/Parser/Fuel.antt =====
-- The loop of `parse` on different fuel (engine/src/resp.cpp).
use distributed_in_memory_kv.Prelude.{
  ℕ, zero, suc, ◌+◌, ◌*◌, ◌≤◌, ◌<◌, ◌≡◌, refl, ap, ◌∙◌, Bool, false, Option, none, some, [], ◌∷◌,
  Bytes, arith, length, Bool-cases, inl, inr,
}
use distributed_in_memory_kv.Prelude.Int.{ℤ, pos, negsuc}
use distributed_in_memory_kv.Resp.Value.{nil, cons}
use distributed_in_memory_kv.Resp.Decimal.{parse_integer}
use distributed_in_memory_kv.Resp.Parser.{
  State, RespParser, new, value, more, thrown, out_of_fuel, Result, read_line, begin, on_type,
  on_start, on_bulk_len, on_bulk_line, on_array_len, on_array_line, on_element, dispatch, loop,
  is_empty,
}
use distributed_in_memory_kv.Resp.Parser.Lines.{read_line_shorter}
use distributed_in_memory_kv.Resp.Parser.Ends.{Ends, measure, in_element, in_element-le, loop-Ends}

module _ (a b : RespParser → Result) (m : ℕ)
    (same : (q : RespParser) → measure q < m → a q ≡ b q) where
  start_same : (s : Bytes) (p : RespParser) → 2 * length s ≤ m → on_start a s p ≡ on_start b s p
  unfolding on_start
  start_same [] p h = refl
  start_same (c ∷ rest) p h = type_same (begin c)
    where
      type_same : (st : Option State) → on_type a st rest p ≡ on_type b st rest p
      type_same none = refl
      type_same (some st) = same _ (omega (arith, in_element-le st))

  bulk_same :
      (len : Option ℤ) (rest : Bytes) (p : RespParser)
      → 2 * length rest < m
      → on_bulk_len a len rest p ≡ on_bulk_len b len rest p
  unfolding on_bulk_len
  bulk_same none rest p h = refl
  bulk_same (some (negsuc zero)) rest p h = refl
  bulk_same (some (negsuc (suc n))) rest p h = same _ (omega arith)
  bulk_same (some (pos n)) rest p h = same _ (omega arith)

  bulk_line_same :
      (l : Option (Bytes × Bytes)) (p : RespParser)
      → read_line p.buffer ≡ l
      → 2 * length p.buffer ≤ m
      → on_bulk_line a l p ≡ on_bulk_line b l p
  unfolding on_bulk_line
  bulk_line_same none p e h = refl
  bulk_line_same (some (line, rest)) p e h =
      bulk_same (parse_integer line) rest p (omega (arith, read_line_shorter p.buffer line rest e))

  array_same :
      (can_reserve : ℕ → Bool) (len : Option ℤ) (rest : Bytes) (p : RespParser)
      → 2 * length rest + 1 < m
      → on_array_len a can_reserve len rest p ≡ on_array_len b can_reserve len rest p
  unfolding on_array_len
  array_same can_reserve none rest p h = refl
  array_same can_reserve (some (negsuc n)) rest p h = refl
  array_same can_reserve (some (pos n)) rest p h =
      rw
        (same
          (record p {
            state = State.array_element;
            buffer = rest;
            array_len = pos n;
            array_elements = nil;
          })
          (omega arith))
        refl

  array_line_same :
      (can_reserve : ℕ → Bool) (l : Option (Bytes × Bytes)) (p : RespParser)
      → read_line p.buffer ≡ l
      → 2 * length p.buffer ≤ m
      → on_array_line a can_reserve l p ≡ on_array_line b can_reserve l p
  unfolding on_array_line
  array_line_same can_reserve none p e h = refl
  array_line_same can_reserve (some (line, rest)) p e h =
      array_same can_reserve (parse_integer line) rest p
        (omega (arith, read_line_shorter p.buffer line rest e))

  element_same : (r : Result) → Ends r → 1 < m → on_element a r ≡ on_element b r
  unfolding on_element
  element_same (value v, p) (e, flat) h =
      rw e (
        same (record new { state = State.array_element; array_elements = cons v nil })
          (omega arith))
  element_same (more, p) e h = refl
  element_same (thrown, p) e h = refl
  element_same (out_of_fuel, p) e h = refl

dispatch_same :
    (can_reserve : ℕ → Bool) (a b : RespParser → Result) (s : State) (p : RespParser)
    → ((q : RespParser) → measure q < 2 * length p.buffer + in_element s → a q ≡ b q)
    → ((q : RespParser) → measure q < 2 * length p.buffer + in_element s → Ends (b q))
    → is_empty p.buffer ≡ false
    → dispatch can_reserve a s p ≡ dispatch can_reserve b s p
unfolding dispatch
dispatch_same can_reserve a b State.start p same ends h =
    start_same a b _ same p.buffer p (omega arith)
dispatch_same can_reserve a b State.simple_string p same ends h = refl
dispatch_same can_reserve a b State.error p same ends h = refl
dispatch_same can_reserve a b State.integer p same ends h = refl
dispatch_same can_reserve a b State.bulk_string_len p same ends h =
    bulk_line_same a b _ same (read_line p.buffer) p refl (omega arith)
dispatch_same can_reserve a b State.bulk_string_data p same ends h = refl
dispatch_same can_reserve a b State.array_len p same ends h =
    array_line_same a b _ same can_reserve (read_line p.buffer) p refl (omega arith)
dispatch_same can_reserve a b State.array_element p same ends h =
    let q : RespParser = record p { state = State.start } in
    ap (on_element a) (same q (omega arith))
    ∙ element_same a b _ same (b q) (ends q (omega arith)) (ground arith)

pub loop_fuel :
    (can_reserve : ℕ → Bool) (f g : ℕ) (p : RespParser)
    → measure p < f
    → measure p < g
    → loop can_reserve f p ≡ loop can_reserve g p
unfolding loop
loop_fuel can_reserve zero g p h k = absurd (omega arith)
loop_fuel can_reserve (suc f) zero p h k = absurd (omega arith)
loop_fuel can_reserve (suc f) (suc g) p h k = elim (Bool-cases (is_empty p.buffer)) [
  | inl done ↦ rw done refl
  | inr on ↦ rw on (
      dispatch_same can_reserve (loop can_reserve f) (loop can_reserve g) p.state p
        (λ q l. loop_fuel can_reserve f g q (omega arith) (omega arith))
        (λ q l. loop-Ends can_reserve g q (omega arith)) on)
]
