-- ===== src/Resp/Parser/Rounds.antt =====
-- Rounds of the loop of `parse` that need more bytes, and what more bytes change (engine/src/resp.cpp).
use distributed_in_memory_kv.Prelude.{
  ℕ, zero, suc, ◌+◌, ◌*◌, ◌<◌, ◌≡◌, ◌⊎◌, inl, inr, refl, ap, Bool, true, false, Option, none, some,
  [], ◌∷◌, ◌++◌, Bytes, arith, length, length-append, ◌==◌,
}
use distributed_in_memory_kv.Prelude.Int.{ℤ, pos, negsuc}
use distributed_in_memory_kv.Resp.Value.{nil}
use distributed_in_memory_kv.Resp.Decimal.{parse_integer}
use distributed_in_memory_kv.Resp.Parser.{
  State, RespParser, reset, more, Result, read_line, begin, on_type, on_start, on_bulk_len,
  on_bulk_line, on_array_len, on_array_line, dispatch, feed,
}
use distributed_in_memory_kv.Resp.Parser.Lines.{read_line_shorter, read_line-append}
use distributed_in_memory_kv.Resp.Parser.Ends.{measure, in_element, in_element-le}

-- The parser has begun a value and keeps what it has of it.
abbrev pub HoldsPart : State → Type 0
HoldsPart State.start = ⊥
HoldsPart State.array_element = ⊥
HoldsPart _ = Unit

pub reset-HoldsPart :
    (p p' : RespParser) → ◌≡◌ {A = Result} (more, reset p) (more, p') → HoldsPart p'.state → ⊥
reset-HoldsPart p p' e h = let same : reset p ≡ p' = ap (λ (r : Result). r.1) e in rw (← same) at h

-- A round of `p` that goes on with `next`, also if more bytes follow.
pub record Goes (can_reserve : ℕ → Bool) (again : RespParser → Result) (s : State)
    (p p' : RespParser) : Type 0 where
  pub next : RespParser
  pub same : again next ≡ (more, p')
  pub shorter : measure next < 2 * length p.buffer + in_element s
  pub longer :
      (b : RespParser → Result) (bytes : Bytes)
      → dispatch can_reserve b s (feed bytes p) ≡ b (feed bytes next)
  pub still_shorter :
      (bytes : Bytes) → measure (feed bytes next) < 2 * length (p.buffer ++ bytes) + in_element s

module _ (can_reserve : ℕ → Bool) (again : RespParser → Result) (p p' : RespParser)
    (holds : HoldsPart p'.state) where
  pub start-Goes :
      (buffer : Bytes)
      → p.buffer ≡ buffer
      → on_start again buffer p ≡ (more, p')
      → (p ≡ p') ⊎ Goes can_reserve again State.start p p'
  unfolding on_start
  start-Goes [] e run = inl (ap (λ (r : Result). r.1) run)
  start-Goes (c ∷ rest) e run = type-Goes (begin c) refl run
    where
      type-Goes :
          (st : Option State)
          → begin c ≡ st
          → on_type again st rest p ≡ (more, p')
          → (p ≡ p') ⊎ Goes can_reserve again State.start p p'
      type-Goes none f run = absurd (reset-HoldsPart p p' run holds)
      type-Goes (some st) f run = inr (record {
        next = record p { state = st; buffer = rest };
        same = run;
        shorter = rw e (omega (arith, in_element-le st));
        longer = λ b bytes. unfold dispatch on_start on_type in rw (e, f) refl;
        still_shorter = λ bytes. rw e (omega (arith, in_element-le st));
      })

  pub bulk_line-Goes :
      (l : Option (Bytes × Bytes))
      → read_line p.buffer ≡ l
      → on_bulk_line again l p ≡ (more, p')
      → (p ≡ p') ⊎ Goes can_reserve again State.bulk_string_len p p'
  unfolding on_bulk_line on_bulk_len
  bulk_line-Goes none e run = inl (ap (λ (r : Result). r.1) run)
  bulk_line-Goes (some (line, rest)) e run = len-Goes (parse_integer line) refl run
    where
      to_data :
          (len : ℤ)
          → again (record p {
            state = State.bulk_string_data;
            buffer = rest;
            bulk_len = len;
            bulk_read = 0;
          })
            ≡ (more, p')
          → ((b : RespParser → Result) (bytes : Bytes)
              → on_bulk_len b (parse_integer line) (rest ++ bytes) (feed bytes p)
                ≡ b (record (feed bytes p) {
                  state = State.bulk_string_data;
                  buffer = rest ++ bytes;
                  bulk_len = len;
                  bulk_read = 0;
                }))
          → (p ≡ p') ⊎ Goes can_reserve again State.bulk_string_len p p'
      to_data len run go = inr (record {
        next = record p {
          state = State.bulk_string_data;
          buffer = rest;
          bulk_len = len;
          bulk_read = 0;
        };
        same = run;
        shorter = omega (arith, read_line_shorter p.buffer line rest e);
        longer = λ b bytes.
            unfold dispatch on_bulk_line in
            rw (read_line-append p.buffer line rest bytes e) (go b bytes);
        still_shorter = λ bytes. omega (
          arith,
          read_line_shorter p.buffer line rest e,
          length-append p.buffer bytes,
          length-append rest bytes,
        );
      })

      len-Goes :
          (len : Option ℤ)
          → parse_integer line ≡ len
          → on_bulk_len again len rest p ≡ (more, p')
          → (p ≡ p') ⊎ Goes can_reserve again State.bulk_string_len p p'
      len-Goes none f run = absurd (reset-HoldsPart p p' run holds)
      len-Goes (some (negsuc zero)) f run = cc run
      len-Goes (some (negsuc (suc n))) f run = to_data (negsuc (suc n)) run (λ b bytes. rw f refl)
      len-Goes (some (pos n)) f run = to_data (pos n) run (λ b bytes. rw f refl)

  pub array_line-Goes :
      (l : Option (Bytes × Bytes))
      → read_line p.buffer ≡ l
      → on_array_line again can_reserve l p ≡ (more, p')
      → (p ≡ p') ⊎ Goes can_reserve again State.array_len p p'
  unfolding on_array_line on_array_len
  array_line-Goes none e run = inl (ap (λ (r : Result). r.1) run)
  array_line-Goes (some (line, rest)) e run = len-Goes (parse_integer line) refl run
    where
      to_element :
          (n : ℕ)
          → again (record p {
            state = State.array_element;
            buffer = rest;
            array_len = pos n;
            array_elements = nil;
          })
            ≡ (more, p')
          → ((b : RespParser → Result) (bytes : Bytes)
              → on_array_len b can_reserve (parse_integer line) (rest ++ bytes) (feed bytes p)
                ≡ b (record (feed bytes p) {
                  state = State.array_element;
                  buffer = rest ++ bytes;
                  array_len = pos n;
                  array_elements = nil;
                }))
          → (p ≡ p') ⊎ Goes can_reserve again State.array_len p p'
      to_element n run go = inr (record {
        next = record p {
          state = State.array_element;
          buffer = rest;
          array_len = pos n;
          array_elements = nil;
        };
        same = run;
        shorter = omega (arith, read_line_shorter p.buffer line rest e);
        longer = λ b bytes.
            unfold dispatch on_array_line in
            rw (read_line-append p.buffer line rest bytes e) (go b bytes);
        still_shorter = λ bytes. omega (
          arith,
          read_line_shorter p.buffer line rest e,
          length-append p.buffer bytes,
          length-append rest bytes,
        );
      })

      counted :
          (n : ℕ) (room left : Bool)
          → can_reserve n ≡ room
          → (n == 0) ≡ left
          → parse_integer line ≡ some (pos n)
          → on_array_len again can_reserve (some (pos n)) rest p ≡ (more, p')
          → (p ≡ p') ⊎ Goes can_reserve again State.array_len p p'
      counted n false left r z f run = cc (rw r at run)
      counted n true true r z f run = cc (rw (r, z) at run)
      counted n true false r z f run =
          to_element n (rw (r, z) at run) (λ b bytes. rw f (rw (r, z) refl))

      len-Goes :
          (len : Option ℤ)
          → parse_integer line ≡ len
          → on_array_len again can_reserve len rest p ≡ (more, p')
          → (p ≡ p') ⊎ Goes can_reserve again State.array_len p p'
      len-Goes none f run = absurd (reset-HoldsPart p p' run holds)
      len-Goes (some (negsuc n)) f run = absurd (reset-HoldsPart p p' run holds)
      len-Goes (some (pos n)) f run = counted n (can_reserve n) (n == 0) refl refl f run
