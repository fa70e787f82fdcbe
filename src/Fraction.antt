-- ===== src/Fraction.antt =====
-- CppFraction<NumberType> of src/CppFraction.h, at an unsigned NumberType of w bits.
pub mod Reduced
pub mod Sum
mod Tests
use moon_lib.Common.{
  ℕ, ◌+◌, ◌-◌, ◌*◌, ◌/◌, ◌%◌, ◌^◌, Bool, true, false, not, Option, none, some, ltb, if◌then◌else◌,
}
use moon_lib.Math.{gcd}

-- `flag` is true for a number that is not negative.
pub record Fraction : Type 0 where
  pub flag : Bool
  pub numerator : ℕ
  pub denominator : ℕ

-- The body of the constructor, at the divisor that `GCD` gave.
unfoldable pub reduce : ℕ → ℕ → Bool → Option ℕ → Option Fraction
reduce n d flag none = none
reduce n d flag (some g) = some (record {
  flag = flag;
  numerator = if ltb 1 g then n / g else n;
  denominator = if ltb 1 g then d / g else d;
})

-- The constructor from a numerator, a denominator and a sign.
unfoldable pub make : ℕ → ℕ → Bool → Option Fraction
make n d flag = reduce n d flag (gcd n d)

abbrev pub same_sign : Bool → Bool → Bool
same_sign a b = if a then b else not b

unfoldable pub negative : Fraction → Option Fraction
negative x = make x.numerator x.denominator (not x.flag)

-- operator*.
unfoldable pub mul : ℕ → Fraction → Fraction → Option Fraction
mul w x y =
    make (x.numerator * y.numerator % 2 ^ w) (x.denominator * y.denominator % 2 ^ w)
      (same_sign x.flag y.flag)

-- operator/.
unfoldable pub div : ℕ → Fraction → Fraction → Option Fraction
div w x y =
    make (x.numerator * y.denominator % 2 ^ w) (x.denominator * y.numerator % 2 ^ w)
      (same_sign x.flag y.flag)

-- operator+ at the two products that it adds or subtracts, and the product of the denominators.
unfoldable pub add_parts : ℕ → Bool → Bool → ℕ → ℕ → ℕ → Option Fraction
add_parts w a b left right d =
    if same_sign a b
    then make ((left + right) % 2 ^ w) d a
    else if ltb right left
    then make (left - right) d a
    else make (right - left) d b

-- operator+.
unfoldable pub add : ℕ → Fraction → Fraction → Option Fraction
add w x y =
    add_parts w x.flag y.flag (x.numerator * y.denominator % 2 ^ w)
      (y.numerator * x.denominator % 2 ^ w) (x.denominator * y.denominator % 2 ^ w)

abbrev pub add_option : ℕ → Fraction → Option Fraction → Option Fraction
add_option w x none = none
add_option w x (some y) = add w x y

-- operator-.
unfoldable pub sub : ℕ → Fraction → Fraction → Option Fraction
sub w x y = add_option w x (negative y)
