-- ===== src/Engine/RoundTrip.antt =====
-- What is set through the C interface is what is got (engine/src/engine.cpp).
use distributed_in_memory_kv.Prelude.{
  ℕ, ◌+◌, ◌*◌, ◌^◌, ◌≤◌, ◌<◌, ◌≡◌, refl, ap, ◌∙◌, true, false, Option, none, some, Bytes, arith,
  length, ltb, if◌then◌else◌, str_eq, ◌⊎◌,
}
use distributed_in_memory_kv.Prelude.Int.{ℤ, pos, negsuc}
use distributed_in_memory_kv.HashTable
use distributed_in_memory_kv.HashTable.{HashTable, is_expired, touch}
use distributed_in_memory_kv.HashTable.Chain.{ValueEntry, new_entry}
use distributed_in_memory_kv.HashTable.Valid.{IsValid, lookup, found?, remove-Updates, remove-found}
use distributed_in_memory_kv.HashTable.Methods.{insert-Inserts, get-Gets, answer-live}
use distributed_in_memory_kv.Engine.{
  EngineHandle, expiry, put_value, copy_found, get_value, engine_get, engine_delete,
}

-- The time has not come, for a ttl above 0.
abbrev pub IsAlive : ℕ → ℤ → ℕ → Type 0
IsAlive set_at (negsuc n) now = Unit
IsAlive set_at (pos ttl_ns) now =
    (set_at + ttl_ns < 2 ^ 64) × ((ttl_ns ≡ 0) ⊎ (now < set_at + ttl_ns))

is_expired-IsAlive :
    (set_at now access count last : ℕ) (v : Bytes) (ttl_ns : ℤ)
    → IsAlive set_at ttl_ns now
    → is_expired now (record {
      value = v;
      access_count = count;
      last_access_ns = last;
      expiry_ns = expiry set_at ttl_ns;
    })
      ≡ false
unfolding is_expired expiry
is_expired-IsAlive set_at now access count last v (negsuc n) h = refl
is_expired-IsAlive set_at now access count last v (pos ttl_ns) (room, h) = ground arith

-- What `copy_found` does with an entry that has not expired and that the buffer has room for.
copy_found-live :
    (now : ℕ) (key : Bytes) (out_len : ℕ) (r : Option ValueEntry × HashTable) (v : ValueEntry)
    (h : EngineHandle)
    → r.0 ≡ some v
    → is_expired now v ≡ false
    → length v.value ≤ out_len
    → copy_found now key out_len r h ≡ record {
      code = pos 0;
      out_buf = some v.value;
      out_len = length v.value;
      handle = record h { table = r.1 };
    }
unfolding copy_found
copy_found-live now key out_len (none, t) v h e live room = cc
copy_found-live now key out_len (some w, t) v h e live room =
    let same : w ≡ v = ground arith in
    let fits : ltb out_len (length v.value) ≡ false = ground arith in rw (same, live, fits) refl

get_value-put_value :
    (set_at n m l : ℕ) (key val : Bytes) (ttl_ns : ℤ) (out_len : ℕ) (h : EngineHandle)
    → IsValid h.table
    → length val ≤ 512 * 1024
    → length val ≤ out_len
    → IsAlive set_at ttl_ns n
    → IsAlive set_at ttl_ns l
    → let (code, h') = put_value set_at key val ttl_ns h in
      let got = get_value (n, m, l) key out_len h' in
      (code ≡ pos 0) × (got.code ≡ pos 0) × (got.out_buf ≡ some val) × (got.out_len ≡ length val)
unfolding put_value get_value
get_value-put_value set_at n m l key val ttl_ns out_len h valid small room alive_n alive_l =
    let e = new_entry val (expiry set_at ttl_ns) in
    let i = insert-Inserts key e valid in
    let t = HashTable.insert key e h.table in
    let g = get-Gets key n m i.valid in
    let live : is_expired n e ≡ false =
      unfold new_entry in is_expired-IsAlive set_at n 0 0 0 val ttl_ns alive_n in
    let live' : is_expired l (touch m e) ≡ false =
      unfold new_entry touch in is_expired-IsAlive set_at l 0 1 m val ttl_ns alive_l in
    let found : (HashTable.get key n m t).0 ≡ some (touch m e) =
      g.result ∙ rw i.stored (answer-live n m e live) in
    let fits : ltb (512 * 1024) (length val) ≡ false = ground arith in
    let same : (touch m e).value ≡ val = unfold touch new_entry in refl in
    let c =
      copy_found-live l key out_len (HashTable.get key n m t) (touch m e) (record h { table = t })
        found live' (rw same room) in
    rw (fits, c) (refl, refl, ap some same, ap length same)

-- On a valid table, with no null pointers: a value of at most 512 KB is accepted by `engine_set`, and the next `engine_get` of
-- the key copies it, with its length and the code 0, if the buffer has room and the time to live has
-- not passed at either test; a time to live of 0 or less does not pass, and the expiry time of any
-- other must be less than 2 ^ 64.
pub engine_get-put_value :
    (set_at n m l : ℕ) (key val : Bytes) (ttl_ns : ℤ) (out_len : ℕ) (h : EngineHandle)
    → IsValid h.table
    → length val ≤ 512 * 1024
    → length val ≤ out_len
    → IsAlive set_at ttl_ns n
    → IsAlive set_at ttl_ns l
    → let (code, h') = put_value set_at key val ttl_ns h in
      let got = engine_get (n, m, l) (some h') (some key) true (some out_len) in
      (code ≡ pos 0)
      × (got.code ≡ pos 0)
      × (got.out_buf ≡ some val)
      × (got.out_len ≡ some (length val))
unfolding engine_get
engine_get-put_value set_at n m l key val ttl_ns out_len h valid small room alive_n alive_l =
    let (accepted, code, copied, len) =
      get_value-put_value set_at n m l key val ttl_ns out_len h valid small room alive_n alive_l in
    (accepted, code, copied, ap some len)

-- `engine_delete` on a valid table keeps it valid, answers 0 if the key was there and −1 if not, and
-- takes it and no other key out of the map.
pub engine_delete-found :
    (key : Bytes) (h : EngineHandle)
    → IsValid h.table
    → let (code, left) = engine_delete (some h) (some key) in
      (t : HashTable) × (left ≡ some (record h { table = t }))
      × IsValid t
      × (code ≡ (if found? (lookup key h.table) then pos 0 else negsuc 0))
      × ((q : Bytes) → lookup q t ≡ (if str_eq key q then none else lookup q h.table))
unfolding engine_delete
engine_delete-found key h valid =
    let u = remove-Updates key valid in
    ((HashTable.remove key h.table).1, refl, u.valid, rw (remove-found key h.table) refl, u.reads)
