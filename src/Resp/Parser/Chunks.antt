-- ===== src/Resp/Parser/Chunks.antt =====
-- Bytes that are cut into several calls of `parse` (engine/src/resp.cpp).
use distributed_in_memory_kv.Prelude.{
  ℕ, zero, suc, ◌<◌, ◌≡◌, ◌⊎◌, inl, inr, refl, ap, sym, ◌∙◌, Bool, true, false, Option, none, some,
  [], ◌∷◌, ◌++◌, Bytes, arith, length, append_assoc, Bool-cases, ltb,
}
use distributed_in_memory_kv.Prelude.Int.{ℤ}
use distributed_in_memory_kv.Resp.Decimal.{parse_integer}
use distributed_in_memory_kv.Resp.Parser.{
  State, RespParser, more, Result, read_line, on_simple_line, on_error_line, on_integer_line,
  on_number, on_bulk_data, needed, dispatch, loop, is_empty, feed, enough, parse,
}
use distributed_in_memory_kv.Resp.Parser.Ends.{measure, in_element-le}
use distributed_in_memory_kv.Resp.Parser.Arrays.{loop-IsStuck}
use distributed_in_memory_kv.Resp.Parser.Steps.{loop_round}
use distributed_in_memory_kv.Resp.Parser.Fuel.{loop_fuel}
use distributed_in_memory_kv.Resp.Parser.Rounds.{
  HoldsPart, reset-HoldsPart, Goes, start-Goes, bulk_line-Goes, array_line-Goes,
}

simple_line_goes :
    (l : Option (Bytes × Bytes)) (p p' : RespParser) → on_simple_line l p ≡ (more, p') → p ≡ p'
unfolding on_simple_line
simple_line_goes none p p' run = ap (λ (r : Result). r.1) run
simple_line_goes (some (line, rest)) p p' run = cc

error_line_goes :
    (l : Option (Bytes × Bytes)) (p p' : RespParser) → on_error_line l p ≡ (more, p') → p ≡ p'
unfolding on_error_line
error_line_goes none p p' run = ap (λ (r : Result). r.1) run
error_line_goes (some (line, rest)) p p' run = cc

number_goes :
    (i : Option ℤ) (p p' : RespParser) → HoldsPart p'.state → on_number i p ≡ (more, p') → p ≡ p'
unfolding on_number
number_goes none p p' h run = absurd (reset-HoldsPart p p' run h)
number_goes (some i) p p' h run = cc

integer_line_goes :
    (l : Option (Bytes × Bytes)) (p p' : RespParser)
    → HoldsPart p'.state
    → on_integer_line l p ≡ (more, p')
    → p ≡ p'
unfolding on_integer_line
integer_line_goes none p p' h run = ap (λ (r : Result). r.1) run
integer_line_goes (some (line, rest)) p p' h run = number_goes (parse_integer line) p p' h run

bulk_data_goes : (p p' : RespParser) → on_bulk_data p ≡ (more, p') → p ≡ p'
unfolding on_bulk_data
bulk_data_goes p p' run = elim (Bool-cases (ltb (length p.buffer) (needed p))) [
  | inl short ↦ ap (λ (r : Result). r.1) (rw short at run)
  | inr whole ↦ cc (rw whole at run)
]

-- A round that leaves part of a value waits at once, or goes on.
dispatch-Goes :
    (can_reserve : ℕ → Bool) (again : RespParser → Result) (s : State) (p p' : RespParser)
    → HoldsPart p'.state
    → (s ≡ State.array_element → p'.state ≡ State.array_element)
    → dispatch can_reserve again s p ≡ (more, p')
    → (p ≡ p') ⊎ Goes can_reserve again s p p'
unfolding dispatch
dispatch-Goes can_reserve again State.start p p' h stuck run =
    start-Goes can_reserve again p p' h p.buffer refl run
dispatch-Goes can_reserve again State.simple_string p p' h stuck run =
    inl (simple_line_goes (read_line p.buffer) p p' run)
dispatch-Goes can_reserve again State.error p p' h stuck run =
    inl (error_line_goes (read_line p.buffer) p p' run)
dispatch-Goes can_reserve again State.integer p p' h stuck run =
    inl (integer_line_goes (read_line p.buffer) p p' h run)
dispatch-Goes can_reserve again State.bulk_string_len p p' h stuck run =
    bulk_line-Goes can_reserve again p p' h (read_line p.buffer) refl run
dispatch-Goes can_reserve again State.bulk_string_data p p' h stuck run =
    inl (bulk_data_goes p p' run)
dispatch-Goes can_reserve again State.array_len p p' h stuck run =
    array_line-Goes can_reserve again p p' h (read_line p.buffer) refl run
dispatch-Goes can_reserve again State.array_element p p' h stuck run = absurd (rw (stuck refl) at h)

fed_not_empty : (s bytes : Bytes) → is_empty s ≡ false → is_empty (s ++ bytes) ≡ false
fed_not_empty [] bytes h = cc
fed_not_empty (c ∷ s) bytes h = refl

loop_done :
    (can_reserve : ℕ → Bool) (fuel : ℕ) (p : RespParser)
    → is_empty p.buffer ≡ true
    → loop can_reserve (suc fuel) p ≡ (more, p)
unfolding loop
loop_done can_reserve fuel p e = rw e refl

loop-feed :
    (can_reserve : ℕ → Bool) (f g g' : ℕ) (p p' : RespParser) (bytes : Bytes)
    → loop can_reserve f p ≡ (more, p')
    → measure p < f
    → HoldsPart p'.state
    → measure (feed bytes p) < g
    → measure (feed bytes p') < g'
    → loop can_reserve g (feed bytes p) ≡ loop can_reserve g' (feed bytes p')
loop-feed can_reserve zero g g' p p' bytes run m h k k' = absurd (omega arith)
loop-feed can_reserve (suc f) zero g' p p' bytes run m h k k' = absurd (omega arith)
loop-feed can_reserve (suc f) (suc g) g' p p' bytes run m h k k' =
    elim (Bool-cases (is_empty p.buffer)) [
      | inl done ↦ waits (ap (λ (r : Result). r.1) (sym (loop_done can_reserve f p done) ∙ run))
      | inr on ↦
          elim (dispatch-Goes can_reserve (loop can_reserve f) p.state p p' h stuck
            (sym (loop_round can_reserve f p on) ∙ run)) [
              | inl same ↦ waits same
              | inr go ↦
                  loop_round can_reserve g (feed bytes p) (fed_not_empty p.buffer bytes on)
                  ∙ (go.longer (loop can_reserve g) bytes
                      ∙ loop-feed can_reserve f g g' go.next p' bytes go.same
                          (omega (arith, go.shorter)) h (omega (arith, go.still_shorter bytes)) k')
            ]
    ]
  where
    waits : p ≡ p' → loop can_reserve (suc g) (feed bytes p) ≡ loop can_reserve g' (feed bytes p')
    waits e = rw (← e) (loop_fuel can_reserve (suc g) g' (feed bytes p) k (rw e k'))

    stuck : p.state ≡ State.array_element → p'.state ≡ State.array_element
    stuck e = rw run at (loop-IsStuck can_reserve (suc f) p m e)

-- If a call of `parse` returns nothing and leaves part of a value, other than an array's elements, then
-- the next call does what one call with the bytes of both does: it returns and leaves the same.
pub parse-append :
    (can_reserve : ℕ → Bool) (a b : Bytes) (p p' : RespParser)
    → parse can_reserve a p ≡ (more, p')
    → HoldsPart p'.state
    → parse can_reserve b p' ≡ parse can_reserve (a ++ b) p
unfolding parse
parse-append can_reserve a b p p' run h =
    let whole : feed b (feed a p) ≡ feed (a ++ b) p =
      ap (λ buffer. record p { buffer = buffer }) (append_assoc p.buffer a b) in
    sym (
      rw (← whole) (
        loop-feed can_reserve (enough (feed a p)) (enough (feed (a ++ b) p)) (enough (feed b p'))
          (feed a p) p' b run (omega (arith, in_element-le p.state)) h
          (omega (arith, in_element-le p.state, ap length (append_assoc p.buffer a b)))
          (omega (arith, in_element-le p'.state))))
