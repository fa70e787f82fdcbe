-- ===== src/BigNum/Quotient.antt =====
-- operator/ and operator% of src/CppBigNum.cpp.
pub mod Naturals
pub mod Loop
pub mod Value
use moon_lib.Common.{
  ℕ, zero, suc, ◌+◌, ◌-◌, Bool, true, false, Option, none, some, List, [], ◌∷◌, if◌then◌else◌,
}
use moon_lib.BigNum.{BigNum, less, equal, greater, greater_equal, zero_num}
use moon_lib.BigNum.Decimal.{from_uint}
use moon_lib.BigNum.Sum.{add, sub}
use moon_lib.BigNum.Product.{mul, with_sign, ◌>>=◌}

-- The `for` that adds the divisor until the sum is above the current dividend, with the rounds that
-- are left: the digit of the quotient and the dividend that remains.
unfoldable pub digit_loop : ℕ → ℕ → BigNum → BigNum → BigNum → Option (ℕ × BigNum)
digit_loop zero curr_value multi right curr = some (curr_value, curr)
digit_loop (suc rounds) curr_value multi right curr =
    if greater multi curr
    then (do taken ← sub multi right; curr' ← sub curr taken; some (curr_value, curr'))
    else (do multi' ← add multi right; digit_loop rounds (curr_value + 1) multi' right curr)

-- The next digit of the dividend is taken in where the current dividend is below the divisor.
unfoldable pub take_in : ℕ → BigNum → BigNum → Option BigNum
take_in c right curr =
    if less curr right
    then (do shifted ← mul curr (from_uint 10); add shifted (from_uint (c - b'0')))
    else some curr

-- One round of the loop over the dividend's digits, at the character `c`.
unfoldable pub div_step : ℕ → BigNum → BigNum → BigNum → Option (BigNum × BigNum)
div_step c right curr result = do
  curr' ← take_in c right curr
  (curr_value, curr'') ←
      (if greater_equal curr' right then digit_loop 10 0 right right curr' else some (0, curr'))
  shifted ← mul result (from_uint 10)
  result' ← add shifted (from_uint curr_value)
  some (curr'', result')

-- The loop over the dividend's digits, the highest first.
unfoldable pub div_loop : List ℕ → BigNum → BigNum → BigNum → Option BigNum
div_loop [] right curr result = some result
div_loop (c ∷ cs) right curr result = do
  (curr', result') ← div_step c right curr result
  div_loop cs right curr' result'

-- operator/. A quotient by zero is zero.
unfoldable pub div : BigNum → BigNum → Option BigNum
div x y = if equal y zero_num then some zero_num else (do
  r ← div_loop x.num_str (record y { flag = true }) zero_num zero_num
  some (with_sign x y r))

-- operator%.
unfoldable pub mod_num : BigNum → BigNum → Option BigNum
mod_num x y = do q ← div x y; p ← mul q y; sub x p
