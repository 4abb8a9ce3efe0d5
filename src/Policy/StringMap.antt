-- ===== src/Policy/StringMap.antt =====
-- `std::unordered_map<std::string, V>`: an association list with each key at most once. The
-- policies never iterate over a map, so the order of the pairs is not observable.
use distributed_in_memory_kv.Prelude.{
  ◌≡◌, refl, Option, none, some, List, [], ◌∷◌, Bytes, arith, str_eq, str_eq_iff, if◌then◌else◌,
}

abbrev pub StringMap {ℓ} : Type ℓ → Type ℓ
StringMap V = List (Bytes × V)

module _ {ℓ} {V : Type ℓ} where
  unfoldable pub find : Bytes → StringMap V → Option V
  find k [] = none
  find k ((j, v) ∷ m) = if str_eq j k then some v else find k m

  unfoldable pub erase : Bytes → StringMap V → StringMap V
  erase k [] = []
  erase k ((j, v) ∷ m) = let rest = erase k m in if str_eq j k then rest else (j, v) ∷ rest

  -- `m[k] = v`
  unfoldable pub assign : Bytes → V → StringMap V → StringMap V
  unfolding erase
  assign k v m = (k, v) ∷ erase k m

  pub find-erase :
      (k q : Bytes) (m : StringMap V) → find q (erase k m) ≡ (if str_eq k q then none else find q m)
  unfolding find erase
  find-erase k q [] = ground arith
  find-erase k q ((j, v) ∷ m) =
      ground (arith, find-erase k q m, str_eq_iff j k, str_eq_iff j q, str_eq_iff k q)

  pub find-assign :
      (k q : Bytes) (v : V) (m : StringMap V)
      → find q (assign k v m) ≡ (if str_eq k q then some v else find q m)
  unfolding find assign
  find-assign k q v m = ground (arith, find-erase k q m)

  pub erase_absent : (k : Bytes) (m : StringMap V) → find k m ≡ none → erase k m ≡ m
  unfolding find erase
  erase_absent k [] h = refl
  erase_absent k ((j, v) ∷ m) h = ground (arith, erase_absent k m)
