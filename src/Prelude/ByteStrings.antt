-- ===== src/Prelude/ByteStrings.antt =====
-- Byte strings: `std::string` is the list of its bytes, each a number below 256. Fixed-width
-- integers stand in files in the machine's byte order, the lowest byte first.
use Prim.Native.Nat.{ℕ, zero, suc, ◌+◌, ◌*◌, ◌/◌, ◌%◌, ◌^◌, ◌<◌}
use Prim.Native.Char.{code}
use Prim.Native.String.{String}
use mathlib.Core.Path.{◌≡◌, refl, ap}
use mathlib.Core.Logic.{◌↔◌}
use mathlib.Core.Bool.{Bool, true, false, ◌&&◌}
use mathlib.Core.List.{List, [], ◌∷◌}
use native.Mathlib.Nat.{pow-suc}
use native.Mathlib.Omega.{arith}
use distributed_in_memory_kv.Prelude.Tests.{◌==◌}
use distributed_in_memory_kv.Prelude.Lists.{length}

abbrev pub Bytes : Type 0
Bytes = List ℕ

-- The bytes of an ASCII text.
abbrev pub codes : String → Bytes
codes String.[] = []
codes (String.◌∷◌ c s) = code c ∷ codes s

-- `operator==` on `std::string`.
unfoldable pub str_eq : Bytes → Bytes → Bool
str_eq [] [] = true
str_eq [] (b ∷ t) = false
str_eq (a ∷ s) [] = false
str_eq (a ∷ s) (b ∷ t) = (a == b) && str_eq s t

str_eq_refl : (s : Bytes) → str_eq s s ≡ true
unfolding str_eq
str_eq_refl [] = refl
str_eq_refl (a ∷ s) = ground (arith, str_eq_refl s)

eq_of_str_eq : (s t : Bytes) → str_eq s t ≡ true → s ≡ t
unfolding str_eq
eq_of_str_eq [] [] h = refl
eq_of_str_eq [] (b ∷ t) h = cc
eq_of_str_eq (a ∷ s) [] h = cc
eq_of_str_eq (a ∷ s) (b ∷ t) h = ground (arith, eq_of_str_eq s t)

pub str_eq_iff : (s t : Bytes) → (str_eq s t ≡ true) ↔ (s ≡ t)
str_eq_iff s t = (eq_of_str_eq s t, λ e. subst_right s t e)
  where
    subst_right : (s t : Bytes) → s ≡ t → str_eq s t ≡ true
    subst_right s t e = rw (← e) (str_eq_refl s)

-- The low `k` bytes of `n`.
unfoldable pub le_bytes : ℕ → ℕ → Bytes
le_bytes zero n = []
le_bytes (suc k) n = n % 256 ∷ le_bytes k (n / 256)

unfoldable pub of_le_bytes : Bytes → ℕ
of_le_bytes [] = 0
of_le_bytes (b ∷ bs) = b + 256 * of_le_bytes bs

pub length-le_bytes : (k n : ℕ) → length (le_bytes k n) ≡ k
unfolding le_bytes
length-le_bytes zero n = refl
length-le_bytes (suc k) n = ap suc (length-le_bytes k (n / 256))

-- An integer that fits is read back.
pub of_le_bytes-le_bytes : (k n : ℕ) → n < 256 ^ k → of_le_bytes (le_bytes k n) ≡ n
unfolding le_bytes of_le_bytes
of_le_bytes-le_bytes zero n h = omega arith
of_le_bytes-le_bytes (suc k) n h =
    omega (arith, of_le_bytes-le_bytes k (n / 256) (omega (arith, pow-suc 256 k)))
