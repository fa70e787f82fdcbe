-- ===== src/Fraction/Tests.antt =====
-- CppFraction at inputs.
use moon_lib.Common.{◌≡◌, ◌*◌, refl, true, false, some, arith}
use moon_lib.Common.Int.{◌+ℤ◌, signed}
use moon_lib.Math.{gcd_loop, gcd}
use moon_lib.Fraction.{Fraction, reduce, make, mul, div, add_parts, add, negative, sub}
use moon_lib.Fraction.Sum.{IsFraction, add-IsFraction}

-- Everything that a run computes with.
program : Unit {0}
unfolding gcd_loop gcd reduce make mul div add_parts add negative sub
program = tt

-- 5 / 6 and - 3 / 4.
abbrev five_sixths : Fraction
five_sixths = record { flag = true; numerator = 5; denominator = 6 }

abbrev minus_three_quarters : Fraction
minus_three_quarters = record { flag = false; numerator = 3; denominator = 4 }

sum_run :
    add 32 five_sixths minus_three_quarters
    ≡ some (record { flag = true; numerator = 1; denominator = 12 })
unfolding program
sum_run = refl

difference_run :
    sub 32 five_sixths minus_three_quarters
    ≡ some (record { flag = true; numerator = 19; denominator = 12 })
unfolding program
difference_run = refl

quotient_run :
    div 32 five_sixths minus_three_quarters
    ≡ some (record { flag = false; numerator = 10; denominator = 9 })
unfolding program
quotient_run = refl

add-IsFraction_example :
    IsFraction
      (add 32 five_sixths minus_three_quarters)
      (λ k. signed true (5 * 4 * k) +ℤ signed false (3 * 6 * k))
      (6 * 4)
add-IsFraction_example =
    add-IsFraction 32 five_sixths minus_three_quarters (omega arith) (omega arith) (omega arith)
