-- ===== src/Engine.antt =====
-- The C interface: engine/src/engine.cpp.
-- A null pointer is `none`; a key or a value is the bytes that its pointer and its length name.
pub mod RoundTrip
use distributed_in_memory_kv.Prelude.{
  ℕ, suc, ◌+◌, ◌*◌, ◌%◌, ◌^◌, Bool, true, false, Option, none, some, List, Bytes, length, ltb, leb,
  ◌==◌, if◌then◌else◌, ◌||◌,
}
use distributed_in_memory_kv.Prelude.Int.{ℤ, pos, negsuc}
use distributed_in_memory_kv.Policy.Tracker.{EvictionPolicy}
use distributed_in_memory_kv.HashTable
use distributed_in_memory_kv.HashTable.{HashTable}
use distributed_in_memory_kv.HashTable.Chain.{ValueEntry, new_entry}

pub record EngineHandle : Type 0 where
  pub num_threads : ℕ
  pub mem_limit_bytes : ℕ
  pub table : HashTable

-- The default arguments of the table's constructor.
abbrev pub default_table : HashTable
default_table = HashTable.new 16 (100 * 1024 * 1024) EvictionPolicy.lru none

unfoldable pub engine_create : ℤ → ℕ → Option EngineHandle
engine_create (negsuc n) mem_limit_bytes = none
engine_create (pos num_threads) mem_limit_bytes =
    if num_threads == 0 || mem_limit_bytes == 0
    then none
    else some (record {
      num_threads = num_threads;
      mem_limit_bytes = mem_limit_bytes;
      table = default_table;
    })

-- The absolute expiry time; the addition is that of uint64_t.
unfoldable pub expiry : ℕ → ℤ → ℕ
expiry now (negsuc n) = 0
expiry now (pos ttl_ns) = if ltb 0 ttl_ns then (now + ttl_ns) % 2 ^ 64 else 0

unfoldable pub put_value : ℕ → Bytes → Bytes → ℤ → EngineHandle → ℤ × EngineHandle
unfolding expiry new_entry
put_value now key val ttl_ns h = if ltb (512 * 1024) (length val) then (negsuc 1, h) else (
  pos 0,
  record h { table = HashTable.insert key (new_entry val (expiry now ttl_ns)) h.table },
)

-- `now` is the clock, which is read only for a ttl above 0.
unfoldable pub engine_set :
    ℕ → Option EngineHandle → Option Bytes → Option Bytes → ℤ → ℤ × Option EngineHandle
unfolding put_value
engine_set now (some h) (some key) (some val) ttl_ns =
    let (code, h) = put_value now key val ttl_ns h in (code, some h)
engine_set now h key val ttl_ns = (negsuc 0, h)

-- What the rest of `engine_get`, with all pointers there, leaves: the bytes it copied to the buffer, and
-- the length.
pub record Got : Type 0 where
  pub code : ℤ
  pub out_buf : Option Bytes
  pub out_len : ℕ
  pub handle : EngineHandle

-- The second test of the expiry time, and the copy.
unfoldable pub copy_found : ℕ → Bytes → ℕ → Option ValueEntry × HashTable → EngineHandle → Got
copy_found now key out_len (none, t) h = record {
  code = negsuc 0;
  out_buf = none;
  out_len = out_len;
  handle = record h { table = t };
}
copy_found now key out_len (some v, t) h =
    let h = record h { table = t } in
    let n = length v.value in
    let expired : Got = record {
      code = negsuc 0;
      out_buf = none;
      out_len = out_len;
      handle = record h { table = (HashTable.remove key t).1 };
    } in
    let too_small : Got = record { code = negsuc 1; out_buf = none; out_len = n; handle = h } in
    let copied : Got = record { code = pos 0; out_buf = some v.value; out_len = n; handle = h } in
    if HashTable.is_expired now v then expired else if ltb out_len n then too_small else copied

-- All pointers are there. The clock is read up to three times.
unfoldable pub get_value : ℕ × ℕ × ℕ → Bytes → ℕ → EngineHandle → Got
unfolding copy_found
get_value (now_check, now_access, now) key out_len h =
    copy_found now key out_len (HashTable.get key now_check now_access h.table) h

-- What a call of `engine_get` leaves: the code, the bytes copied to the buffer, `*out_len` if it is there,
-- and the handle.
pub record GetCall : Type 0 where
  pub code : ℤ
  pub out_buf : Option Bytes
  pub out_len : Option ℕ
  pub handle : Option EngineHandle

-- The Boolean says whether `out_buf` is there.
unfoldable pub engine_get :
    ℕ × ℕ × ℕ → Option EngineHandle → Option Bytes → Bool → Option ℕ → GetCall
unfolding get_value
engine_get now (some h) (some key) true (some out_len) =
    let got = get_value now key out_len h in
    record {
      code = got.code;
      out_buf = got.out_buf;
      out_len = some got.out_len;
      handle = some got.handle;
    }
engine_get now h key out_buf out_len = record {
  code = negsuc 0;
  out_buf = none;
  out_len = out_len;
  handle = h;
}

unfoldable pub engine_delete : Option EngineHandle → Option Bytes → ℤ × Option EngineHandle
engine_delete (some h) (some key) =
    let (removed, t) = HashTable.remove key h.table in
    (if removed then pos 0 else negsuc 0, some (record h { table = t }))
engine_delete h key = (negsuc 0, h)

-- These two are not implemented: they answer with an error.
unfoldable pub engine_replay_wal : Option EngineHandle → ℤ × Option EngineHandle
engine_replay_wal h = (negsuc 0, h)

unfoldable pub engine_snapshot : Option EngineHandle → ℤ × Option EngineHandle
engine_snapshot h = (negsuc 0, h)
