-- ===== src/Resp/Value.antt =====
-- RESPValue with its serialization, and RESPFormatter (engine/src/resp.cpp). A value is built by the
-- static functions only, each of which sets the one field that its type uses.
use distributed_in_memory_kv.Prelude.{ℕ, suc, List, [], ◌∷◌, ◌++◌, Bytes, codes, length}
use distributed_in_memory_kv.Prelude.Int.{ℤ}
use distributed_in_memory_kv.Resp.Decimal.{print_nat, print_int}

-- `Items` is `std::vector<RESPValue>`.
mutual
  pub data RespValue : Type 0 where
    simple_string : Bytes → RespValue
    error : Bytes → RespValue
    integer : ℤ → RespValue
    bulk_string : Bytes → RespValue
    array : Items → RespValue
    null_bulk_string : RespValue

  pub data Items : Type 0 where
    nil : Items
    cons : RespValue → Items → Items

abbrev pub count : Items → ℕ
count nil = 0
count (cons v vs) = suc (count vs)

abbrev pub push_back : Items → RespValue → Items
push_back nil x = cons x nil
push_back (cons v vs) x = cons v (push_back vs x)

abbrev pub crlf : Bytes
crlf = 13 ∷ 10 ∷ []

unfoldable mutual
  pub serialize : RespValue → Bytes
  serialize (simple_string s) = b'+' ∷ (s ++ crlf)
  serialize (error msg) = b'-' ∷ (msg ++ crlf)
  serialize (integer i) = b':' ∷ (print_int i ++ crlf)
  serialize (bulk_string s) = b'$' ∷ (print_nat (length s) ++ (crlf ++ (s ++ crlf)))
  serialize (array vs) = b'*' ∷ (print_nat (count vs) ++ (crlf ++ serialize_items vs))
  serialize null_bulk_string = b'$' ∷ b'-' ∷ b'1' ∷ crlf

  pub serialize_items : Items → Bytes
  serialize_items nil = []
  serialize_items (cons v vs) = serialize v ++ serialize_items vs

-- RESPFormatter, whose functions serialize one value each.
abbrev pub bulk_strings : List Bytes → Items
bulk_strings [] = nil
bulk_strings (s ∷ ss) = cons (bulk_string s) (bulk_strings ss)

unfoldable pub format_ok : Bytes
unfolding serialize
format_ok = serialize (simple_string (codes "OK"))

unfoldable pub format_error : Bytes → Bytes
unfolding serialize
format_error msg = serialize (error msg)

unfoldable pub format_null : Bytes
unfolding serialize
format_null = serialize null_bulk_string

unfoldable pub format_string : Bytes → Bytes
unfolding serialize
format_string s = serialize (bulk_string s)

unfoldable pub format_integer : ℤ → Bytes
unfolding serialize
format_integer i = serialize (integer i)

unfoldable pub format_array : List Bytes → Bytes
unfolding serialize
format_array strings = serialize (array (bulk_strings strings))
