-- ===== src/Resp/Parser.antt =====
-- RESPParser (engine/src/resp.cpp): the incremental parser, one function for each state of its loop.
-- `vector::reserve` throws where it cannot have the room: which lengths it accepts is the parameter.
pub mod Lines
pub mod Steps
pub mod Ends
pub mod Numbers
pub mod Arrays
pub mod RoundTrip
pub mod Fuel
pub mod Rounds
pub mod Chunks
use distributed_in_memory_kv.Prelude.{
  ℕ, zero, suc, ◌+◌, ◌-◌, ◌*◌, ◌%◌, ◌^◌, Bool, true, false, Option, none, some, List, [], ◌∷◌, ◌++◌,
  Bytes, length, take, drop, ltb, ◌==◌, ◌&&◌, if◌then◌else◌,
}
use distributed_in_memory_kv.Prelude.Int.{ℤ, pos, negsuc}
use distributed_in_memory_kv.Resp.Decimal.{parse_integer}
use distributed_in_memory_kv.Resp.Value.{RespValue, Items, nil, cons, count, push_back}

pub data State : Type 0 where
  start simple_string error integer bulk_string_len bulk_string_data array_len array_element : State

pub record RespParser : Type 0 where
  pub state : State
  pub buffer : Bytes
  pub bulk_len : ℤ
  pub bulk_read : ℕ
  pub array_len : ℤ
  pub array_elements : Items

abbrev pub new : RespParser
new = record {
  state = start;
  buffer = [];
  bulk_len = pos 0;
  bulk_read = 0;
  array_len = pos 0;
  array_elements = nil;
}

-- `reset` sets every field.
abbrev pub reset : RespParser → RespParser
reset p = record p {
  state = start;
  buffer = [];
  bulk_len = pos 0;
  bulk_read = 0;
  array_len = pos 0;
  array_elements = nil;
}

unfoldable pub is_clean : State → Bool
is_clean start = true
is_clean _ = false

abbrev pub starts_crlf : Bytes → Bool
starts_crlf (c ∷ d ∷ s) = c == 13 && d == 10
starts_crlf _ = false

abbrev pub prepend : ℕ → Option (Bytes × Bytes) → Option (Bytes × Bytes)
prepend c none = none
prepend c (some (line, rest)) = some (c ∷ line, rest)

-- The bytes before the first "\r\n", and those after it.
unfoldable pub read_line : Bytes → Option (Bytes × Bytes)
read_line [] = none
read_line (c ∷ s) =
    let more = prepend c (read_line s) in if starts_crlf (c ∷ s) then some ([], drop 1 s) else more

-- What a call of `parse` comes to: a value, `std::nullopt`, or an exception of `reserve`.
pub data Outcome : Type 0 where
  value : RespValue → Outcome
  more : Outcome
  thrown : Outcome
  out_of_fuel : Outcome

abbrev pub Result : Type 0
Result = Outcome × RespParser

-- `static_cast<size_t>` of an int64_t.
abbrev pub to_size : ℤ → ℕ
to_size (pos n) = n
to_size (negsuc n) = 2 ^ 64 - suc n

unfoldable pub begin : ℕ → Option State
begin c =
    if c == b'+'
    then some simple_string
    else if c == b'-'
    then some error
    else if c == b':'
    then some integer
    else if c == b'$'
    then some bulk_string_len
    else if c == b'*'
    then some array_len
    else none

-- In each state, `again` is the next round of the loop.
module _ (again : RespParser → Result) where
  unfoldable pub on_type : Option State → Bytes → RespParser → Result
  on_type none rest p = (more, reset p)
  on_type (some st) rest p = again (record p { state = st; buffer = rest })

  unfoldable pub on_start : Bytes → RespParser → Result
  unfolding on_type begin
  on_start [] p = (more, p)
  on_start (c ∷ rest) p = on_type (begin c) rest p

  unfoldable pub on_bulk_len : Option ℤ → Bytes → RespParser → Result
  on_bulk_len none rest p = (more, reset p)
  on_bulk_len (some (negsuc zero)) rest p = (value RespValue.null_bulk_string, reset p)
  on_bulk_len (some len) rest p =
      again (record p { state = bulk_string_data; buffer = rest; bulk_len = len; bulk_read = 0 })

  unfoldable pub on_bulk_line : Option (Bytes × Bytes) → RespParser → Result
  unfolding on_bulk_len
  on_bulk_line none p = (more, p)
  on_bulk_line (some (line, rest)) p = on_bulk_len (parse_integer line) rest p

  unfoldable pub on_array_len : (ℕ → Bool) → Option ℤ → Bytes → RespParser → Result
  on_array_len can_reserve none rest p = (more, reset p)
  on_array_len can_reserve (some (negsuc n)) rest p = (more, reset p)
  on_array_len can_reserve (some (pos n)) rest p =
      let p = record p { buffer = rest; array_len = pos n; array_elements = nil } in
      let element = again (record p { state = array_element }) in
      if can_reserve n
      then (if n == 0 then (value (RespValue.array nil), reset p) else element)
      else (thrown, p)

  unfoldable pub on_array_line : (ℕ → Bool) → Option (Bytes × Bytes) → RespParser → Result
  unfolding on_array_len
  on_array_line can_reserve none p = (more, p)
  on_array_line can_reserve (some (line, rest)) p =
      on_array_len can_reserve (parse_integer line) rest p

  -- What the recursive call has returned, and the parser that it left.
  unfoldable pub on_element : Result → Result
  on_element (value v, p) =
      let vs = push_back p.array_elements v in
      let round = again (record p { state = array_element; array_elements = vs }) in
      if count vs == to_size p.array_len then (value (RespValue.array vs), reset p) else round
  on_element (more, p) = (more, record p { state = array_element })
  on_element (thrown, p) = (thrown, p)
  on_element (out_of_fuel, p) = (out_of_fuel, p)

unfoldable pub on_simple_line : Option (Bytes × Bytes) → RespParser → Result
on_simple_line none p = (more, p)
on_simple_line (some (line, rest)) p = (value (RespValue.simple_string line), reset p)

unfoldable pub on_error_line : Option (Bytes × Bytes) → RespParser → Result
on_error_line none p = (more, p)
on_error_line (some (line, rest)) p = (value (RespValue.error line), reset p)

unfoldable pub on_number : Option ℤ → RespParser → Result
on_number none p = (more, reset p)
on_number (some num) p = (value (RespValue.integer num), reset p)

unfoldable pub on_integer_line : Option (Bytes × Bytes) → RespParser → Result
unfolding on_number
on_integer_line none p = (more, p)
on_integer_line (some (line, rest)) p = on_number (parse_integer line) p

-- `size_t needed = bulk_len_ + 2 - bulk_read_`. The sum is signed: where it overflows, for the two greatest
-- lengths, the source's behaviour is undefined, and the sum is wrapped at 64 bits here.
unfoldable pub needed : RespParser → ℕ
needed p = (to_size p.bulk_len + 2 + 2 ^ 64 - p.bulk_read) % 2 ^ 64

unfoldable pub on_bulk_data : RespParser → Result
unfolding needed
on_bulk_data p =
    if ltb (length p.buffer) (needed p)
    then (more, p)
    else (value (RespValue.bulk_string (take (to_size p.bulk_len) p.buffer)), reset p)

unfoldable pub dispatch : (ℕ → Bool) → (RespParser → Result) → State → RespParser → Result
unfolding on_start on_bulk_line on_array_line on_element on_simple_line on_error_line
    on_integer_line on_bulk_data
dispatch can_reserve again start p = on_start again p.buffer p
dispatch can_reserve again simple_string p = on_simple_line (read_line p.buffer) p
dispatch can_reserve again error p = on_error_line (read_line p.buffer) p
dispatch can_reserve again integer p = on_integer_line (read_line p.buffer) p
dispatch can_reserve again bulk_string_len p = on_bulk_line again (read_line p.buffer) p
dispatch can_reserve again bulk_string_data p = on_bulk_data p
dispatch can_reserve again array_len p = on_array_line again can_reserve (read_line p.buffer) p
dispatch can_reserve again array_element p = on_element again (again (record p { state = start }))

abbrev pub is_empty : Bytes → Bool
is_empty [] = true
is_empty (c ∷ s) = false

-- `while (!buffer_.empty())`
unfoldable pub loop : (ℕ → Bool) → ℕ → RespParser → Result
unfolding dispatch
loop can_reserve zero p = (out_of_fuel, p)
loop can_reserve (suc fuel) p =
    let round = dispatch can_reserve (loop can_reserve fuel) p.state p in
    if is_empty p.buffer then (more, p) else round

-- `buffer_.append(data, len)`
abbrev pub feed : Bytes → RespParser → RespParser
feed bytes p = record p { buffer = p.buffer ++ bytes }

-- Every round takes a byte or enters an element.
abbrev pub enough : RespParser → ℕ
enough p = 2 * length p.buffer + 2

unfoldable pub parse : (ℕ → Bool) → Bytes → RespParser → Result
unfolding loop
parse can_reserve bytes p = loop can_reserve (enough (feed bytes p)) (feed bytes p)
