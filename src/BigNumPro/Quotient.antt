-- ===== src/BigNumPro/Quotient.antt =====
-- operator/ and operator% of CppBigNumPro of src/CppBigNum.cpp.
pub mod Search
pub mod Places
use moon_lib.Common.{
  ℕ, zero, suc, ◌+◌, ◌-◌, ◌/◌, ◌%◌, Bool, true, false, not, ◌||◌, Option, none, some, List, [], ◌∷◌,
  ◌==◌, if◌then◌else◌,
}
use moon_lib.BigNumPro.{
  BigNumPro, base, is_empty, from_uint32, negative, num_vec_less, less, equal, greater,
  greater_equal, add, sub,
}
use moon_lib.BigNumPro.Product.{mul, with_sign, minus_one, ◌>>=◌}

-- The binary search for a digit of the quotient. The middle is computed in uint32_t. `none` is a
-- search that does not end within the fuel.
unfoldable pub search_digit : ℕ → ℕ → ℕ → BigNumPro → BigNumPro → Option ℕ
search_digit zero begin_value end_value right curr = none
search_digit (suc fuel) begin_value end_value right curr =
    let middle = (begin_value + end_value) % base / 2 in
    let lower = search_digit fuel begin_value middle right curr in
    let upper = search_digit fuel middle end_value right curr in
    let again = search_digit fuel begin_value end_value right curr in
    if middle == begin_value then some middle else (do
      test ← mul right (from_uint32 middle)
      (if greater test curr
          then lower
          else if less test curr
          then upper
          else if equal test curr
          then some middle
          else again))

-- `push_front(0)` where the number is not zero.
unfoldable pub shift : BigNumPro → BigNumPro
shift x = if is_empty x.num_vec then x else record x { num_vec = 0 ∷ x.num_vec }

-- One round of the loop over the dividend's digits.
unfoldable pub div_step : ℕ → ℕ → BigNumPro → BigNumPro → BigNumPro → Option (BigNumPro × BigNumPro)
div_step fuel d right curr result = do
  curr' ← (if less curr right then add (shift curr) (from_uint32 d) else some curr)
  value ← (if greater_equal curr' right then search_digit fuel 0 (base - 1) right curr' else some 0)
  result' ← add (shift result) (from_uint32 value)
  taken ← mul right (from_uint32 value)
  curr'' ← sub curr' taken
  some (curr'', result')

-- The loop goes from the first element of the digits on, which is the lowest digit.
unfoldable pub div_loop : ℕ → List ℕ → BigNumPro → BigNumPro → BigNumPro → Option BigNumPro
div_loop fuel [] right curr result = some result
div_loop fuel (d ∷ ds) right curr result = do
  (curr', result') ← div_step fuel d right curr result
  div_loop fuel ds right curr' result'

abbrev pub zero_num : BigNumPro
zero_num = record { flag = true; num_vec = [] }

-- operator/ with fuel for each search.
unfoldable pub div : ℕ → BigNumPro → BigNumPro → Option BigNumPro
div fuel x y =
    if equal y zero_num || num_vec_less x.num_vec y.num_vec
    then some zero_num
    else if equal y (from_uint32 1)
    then some x
    else if equal y minus_one
    then some (negative x)
    else (do
      r ← div_loop fuel x.num_vec (record y { flag = true }) zero_num zero_num
      some (with_sign x y r))

-- operator%.
unfoldable pub mod_num : ℕ → BigNumPro → BigNumPro → Option BigNumPro
mod_num fuel x y = do q ← div fuel x y; p ← mul q y; sub x p
