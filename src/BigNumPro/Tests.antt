-- ===== src/BigNumPro/Tests.antt =====
-- CppBigNumPro on small numbers, and the theorems about it at inputs.
use moon_lib.Common.{◌≡◌, refl, true, false, some, none, [], ◌∷◌, ◌-◌, arith}
use moon_lib.Common.Int.{◌+ℤ◌, ◌*ℤ◌, ltb_ℤ}
use moon_lib.BigNumPro.{
  BigNumPro, base, from_vec, from_uint32, from_uint64, negative, high_less, num_vec_less, less,
  same_digits, equal, add_loop, sub_loop, finish, add_same, add_different, add, sub, greater,
  greater_equal,
}
use moon_lib.BigNumPro.Limbs.{value, IsCanonical}
use moon_lib.BigNumPro.Order.{less-value}
use moon_lib.BigNumPro.Borrow.{Stands, add-Stands}
use moon_lib.BigNumPro.Product.{mul_row, mul_rows, magnitude, with_sign, mul}
use moon_lib.BigNumPro.Product.Value.{mul-Stands}
use moon_lib.BigNumPro.Quotient.{search_digit, shift, div_step, div_loop, div}
use moon_lib.BigNumPro.Quotient.Search.{digit, search_endless, twice_small}

-- Everything that a run computes with.
program : Unit {0}
unfolding from_vec from_uint32 from_uint64 negative high_less num_vec_less less same_digits equal
    greater greater_equal add_loop sub_loop finish add_same add_different add sub mul_row mul_rows
    magnitude with_sign mul search_digit shift div_step div_loop div
program = tt

-- 2 ^ 32 + 7 and -9.
abbrev wide : BigNumPro
wide = record { flag = true; num_vec = 7 ∷ 1 ∷ [] }

abbrev minus_nine : BigNumPro
minus_nine = record { flag = false; num_vec = 9 ∷ [] }

wide-IsCanonical : IsCanonical wide
wide-IsCanonical = record {
  limbs = (omega arith, (omega arith, tt));
  trimmed = omega arith;
  zero_flag = λ e. refl;
}

minus_nine-IsCanonical : IsCanonical minus_nine
minus_nine-IsCanonical = record {
  limbs = (omega arith, tt);
  trimmed = omega arith;
  zero_flag = λ e. cc;
}

sum_run : add wide minus_nine ≡ some (record { flag = true; num_vec = 4294967294 ∷ 0 ∷ [] })
unfolding program
sum_run = refl

product_run : mul wide minus_nine ≡ some (record { flag = false; num_vec = 63 ∷ 9 ∷ [] })
unfolding program
product_run = refl

quotient_run : div 40 (digit 100) (digit 7) ≡ some (digit 14)
unfolding program
quotient_run = refl

less-value_example : less wide minus_nine ≡ ltb_ℤ (value wide) (value minus_nine)
less-value_example = less-value wide minus_nine wide-IsCanonical minus_nine-IsCanonical

add-Stands_example : Stands (add wide minus_nine) (value wide +ℤ value minus_nine)
add-Stands_example = add-Stands wide minus_nine wide-IsCanonical minus_nine-IsCanonical

mul-Stands_example : Stands (mul wide minus_nine) (value wide *ℤ value minus_nine)
mul-Stands_example = mul-Stands wide minus_nine wide-IsCanonical.limbs minus_nine-IsCanonical.limbs

search_endless_example : search_digit 1000 0 (base - 1) (digit 2) (digit (base - 1)) ≡ none
search_endless_example =
    search_endless 1000 0 (digit 2) (digit (base - 1)) twice_small (omega arith)
