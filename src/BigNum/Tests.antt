-- ===== src/BigNum/Tests.antt =====
-- CppBigNum on small numbers, and the theorems about it at inputs.
use moon_lib.Common.{◌≡◌, ◌≢◌, refl, true, false, some, inl, inr, [], ◌∷◌, arith, ◌/◌, ◌%◌}
use moon_lib.Common.Int.{pos, ◌+ℤ◌, ◌-ℤ◌, ◌*ℤ◌, ltb_ℤ}
use moon_lib.Text.{str_eq, str_less, reverse_str}
use moon_lib.BigNum.{
  BigNum, scan, take_digits, from_str, negative, abs, num_str_less, less, equal, value_text,
  zero_num, greater, greater_equal,
}
use moon_lib.BigNum.Digits.{nat_value, horner}
use moon_lib.BigNum.Parse.{signed, value, IsCanonical}
use moon_lib.BigNum.Order.{less-ltb_ℤ}
use moon_lib.BigNum.Decimal.{digits_of, to_string, from_string, from_uint}
use moon_lib.BigNum.Sum.{add_loop, sub_loop, finish, add_same, add_different, add, sub}
use moon_lib.BigNum.Sum.Value.{Gives, add-Gives, negative-value}
use moon_lib.BigNum.Product.{mul_row, mul_rows, with_sign, mul}
use moon_lib.BigNum.Product.Sign.{mul-Gives}
use moon_lib.BigNum.Quotient.{digit_loop, take_in, div_step, div_loop, div, mod_num}
use moon_lib.BigNum.Quotient.Value.{div-Gives, div_zero, mod_num-Gives}
use moon_lib.BigNum.Text.{from_str-value_text}

-- Everything that a run computes with.
program : Unit {0}
unfolding reverse_str str_eq str_less scan take_digits from_str negative abs num_str_less less equal
    greater greater_equal digits_of to_string from_string from_uint add_loop sub_loop finish
    add_same add_different add sub mul_row mul_rows with_sign mul digit_loop take_in div_step
    div_loop div mod_num nat_value horner
program = tt

abbrev twelve : BigNum
twelve = record { flag = true; num_str = b'1' ∷ b'2' ∷ [] }

abbrev minus_five : BigNum
minus_five = record { flag = false; num_str = b'5' ∷ [] }

twelve-IsCanonical : IsCanonical twelve
twelve-IsCanonical = record { digits = omega arith; shape = inr (omega arith) }

minus_five-IsCanonical : IsCanonical minus_five
minus_five-IsCanonical = record { digits = omega arith; shape = inr (omega arith) }

sum_run : add twelve minus_five ≡ some (record { flag = true; num_str = b'7' ∷ [] })
unfolding program
sum_run = refl

product_run : mul twelve minus_five ≡ some (record { flag = false; num_str = b'6' ∷ b'0' ∷ [] })
unfolding program
product_run = refl

quotient_run : div twelve minus_five ≡ some (record { flag = false; num_str = b'2' ∷ [] })
unfolding program
quotient_run = refl

remainder_run : mod_num twelve minus_five ≡ some (record { flag = true; num_str = b'2' ∷ [] })
unfolding program
remainder_run = refl

not_zero : value minus_five ≢ pos 0
unfolding value program
not_zero e = cc

zero_value : value zero_num ≡ pos 0
unfolding value program
zero_value = refl

zero-IsCanonical : IsCanonical zero_num
zero-IsCanonical = record { digits = omega arith; shape = inl refl }

add-Gives_example : Gives (add twelve minus_five) (value twelve +ℤ value minus_five)
add-Gives_example = add-Gives twelve minus_five twelve-IsCanonical minus_five-IsCanonical

mul-Gives_example : Gives (mul twelve minus_five) (value twelve *ℤ value minus_five)
mul-Gives_example = mul-Gives twelve minus_five twelve-IsCanonical minus_five-IsCanonical

div-Gives_example :
    Gives
      (div twelve minus_five)
      (signed false (nat_value (b'1' ∷ b'2' ∷ []) / nat_value (b'5' ∷ [])))
div-Gives_example = div-Gives twelve minus_five twelve-IsCanonical minus_five-IsCanonical not_zero

mod_num-Gives_example :
    Gives
      (mod_num twelve minus_five)
      (signed true (nat_value (b'1' ∷ b'2' ∷ []) % nat_value (b'5' ∷ [])))
mod_num-Gives_example =
    mod_num-Gives twelve minus_five twelve-IsCanonical minus_five-IsCanonical not_zero

div_zero_example : div twelve zero_num ≡ some zero_num
div_zero_example = div_zero twelve zero_num zero-IsCanonical zero_value

less-ltb_ℤ_example : less minus_five twelve ≡ ltb_ℤ (value minus_five) (value twelve)
less-ltb_ℤ_example = less-ltb_ℤ minus_five twelve minus_five-IsCanonical twelve-IsCanonical

from_str-twelve : from_str (b'0' ∷ b'1' ∷ b'2' ∷ []) ≡ twelve
unfolding program
from_str-twelve = refl

negative-value_example :
    IsCanonical (negative twelve) × (value (negative twelve) ≡ pos 0 -ℤ value twelve)
negative-value_example = negative-value twelve twelve-IsCanonical

from_str-value_text_example : from_str (value_text minus_five) ≡ minus_five
from_str-value_text_example = from_str-value_text minus_five minus_five-IsCanonical
