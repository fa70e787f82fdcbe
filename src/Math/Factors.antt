-- ===== src/Math/Factors.antt =====
-- `GetPrimerFactorNum` of CppMath of src/CppMath.cpp. `root` is
-- `(uint32_t)sqrt((double)num)` of the C library; a std::map is its entries in the order of the keys.
pub mod Product
use moon_lib.Common.{
  ℕ, zero, suc, ◌+◌, ◌/◌, ◌%◌, ◌^◌, Option, none, some, List, [], ◌∷◌, leb, ltb, ◌==◌,
  if◌then◌else◌,
}

-- `++factors[k]`.
unfoldable pub bump : ℕ → List (ℕ × ℕ) → List (ℕ × ℕ)
bump k [] = (k, 1) ∷ []
bump k ((j, e) ∷ m) =
    let rest = (j, e) ∷ bump k m in
    if j == k then (j, suc e) ∷ m else if ltb k j then (k, 1) ∷ (j, e) ∷ m else rest

-- `while (num % i == 0)`: what is left of the number, and the factors. `none` is a loop that does not
-- end within the fuel.
unfoldable pub divide_out : ℕ → ℕ → ℕ → List (ℕ × ℕ) → Option (ℕ × List (ℕ × ℕ))
divide_out zero i num factors = none
divide_out (suc fuel) i num factors =
    let rest = divide_out fuel i (num / i) (bump i factors) in
    if num % i == 0 then rest else some (num, factors)

abbrev pub then_with :
    Option (ℕ × List (ℕ × ℕ))
    → (ℕ → List (ℕ × ℕ) → Option (ℕ × List (ℕ × ℕ)))
    → Option (ℕ × List (ℕ × ℕ))
then_with none next = none
then_with (some (num, factors)) next = next num factors

-- The loop over the odd numbers. A number leaves the inner loop before it has been halved to nothing.
unfoldable pub factor_loop : ℕ → ℕ → ℕ → ℕ → List (ℕ × ℕ) → Option (ℕ × List (ℕ × ℕ))
factor_loop zero i limit num factors = none
factor_loop (suc fuel) i limit num factors =
    let rest =
      then_with (divide_out (suc num) i num factors) (factor_loop fuel ((i + 2) % 2 ^ 32) limit) in
    if leb i limit then rest else some (num, factors)

-- What is left goes in last.
abbrev pub put_last : Option (ℕ × List (ℕ × ℕ)) → Option (List (ℕ × ℕ))
put_last none = none
put_last (some (num, factors)) = some (if num == 1 then factors else bump num factors)

abbrev pub odd_part : (ℕ → ℕ) → ℕ → List (ℕ × ℕ) → Option (ℕ × List (ℕ × ℕ))
odd_part root num factors =
    let limit = (root num + 1) % 2 ^ 32 in factor_loop (suc limit) 3 limit num factors

-- `GetPrimerFactorNum`.
unfoldable pub get_primer_factor_num : (ℕ → ℕ) → ℕ → Option (List (ℕ × ℕ))
get_primer_factor_num root num =
    put_last (then_with (divide_out (suc num) 2 num []) (odd_part root))
