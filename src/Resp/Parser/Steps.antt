-- ===== src/Resp/Parser/Steps.antt =====
-- The first rounds of the loop of `parse` (engine/src/resp.cpp).
use distributed_in_memory_kv.Prelude.{
  ℕ, zero, suc, ◌+◌, ◌*◌, ◌<◌, ◌≡◌, ◌∙◌, ◌++◌, refl, Bool, true, false, some, [], ◌∷◌, Bytes, arith,
  length,
}
use distributed_in_memory_kv.Resp.Parser.{
  State, RespParser, new, more, begin, on_start, on_type, dispatch, loop, is_empty, enough, parse,
}

-- Nothing to read.
pub loop-nil :
    (can_reserve : ℕ → Bool) (fuel : ℕ) (p : RespParser)
    → 0 < fuel
    → p.buffer ≡ []
    → loop can_reserve fuel p ≡ (more, p)
unfolding loop
loop-nil can_reserve zero p h e = absurd (omega arith)
loop-nil can_reserve (suc fuel) p h e =
    let done : is_empty p.buffer ≡ true = rw e refl in rw done refl

pub is_empty-append : (s : Bytes) (c : ℕ) (t : Bytes) → is_empty (s ++ c ∷ t) ≡ false
is_empty-append [] c t = refl
is_empty-append (d ∷ s) c t = refl

pub loop_round :
    (can_reserve : ℕ → Bool) (fuel : ℕ) (p : RespParser)
    → is_empty p.buffer ≡ false
    → loop can_reserve (suc fuel) p ≡ dispatch can_reserve (loop can_reserve fuel) p.state p
unfolding loop
loop_round can_reserve fuel p on = rw on refl

-- A new parser takes the byte that names the type.
pub parse-begin :
    (can_reserve : ℕ → Bool) (c : ℕ) (st : State) (s : Bytes)
    → begin c ≡ some st
    → parse can_reserve (c ∷ s) new
      ≡ loop can_reserve (2 * length s + 3) (record new { state = st; buffer = s })
unfolding parse
parse-begin can_reserve c st s e =
    let fuel : enough (record new { buffer = c ∷ s }) ≡ suc (2 * length s + 3) = omega arith in
    rw fuel (
      loop_round can_reserve (2 * length s + 3) (record new { buffer = c ∷ s }) refl
      ∙ (unfold dispatch on_start on_type in rw e refl))

-- The round after that, where there is more to read.
pub parse_begun :
    (can_reserve : ℕ → Bool) (c : ℕ) (st : State) (s : Bytes)
    → begin c ≡ some st
    → is_empty s ≡ false
    → parse can_reserve (c ∷ s) new
      ≡ dispatch can_reserve
          (loop can_reserve (2 * length s + 2))
          st
          (record new { state = st; buffer = s })
parse_begun can_reserve c st s e on =
    let fuel : 2 * length s + 3 ≡ suc (2 * length s + 2) = omega arith in
    parse-begin can_reserve c st s e
    ∙ (rw fuel
        (loop_round can_reserve (2 * length s + 2) (record new { state = st; buffer = s }) on))
