-- ===== src/BigNumPro/Quotient/Places.antt =====
-- The order of the digits in operator/ of CppBigNumPro of src/CppBigNum.cpp: it starts with the lowest.
use moon_lib.Common.{ℕ, ◌≤◌, ◌<◌, ◌≡◌, refl, true, false, some, [], ◌∷◌, arith}
use moon_lib.BigNumPro.{
  base, from_vec, from_uint32, negative, high_less, num_vec_less, less, same_digits, equal, greater,
  greater_equal, add_loop, add_same, add, sub,
}
use moon_lib.BigNumPro.Limbs.{limb_value}
use moon_lib.BigNumPro.Product.{mul, with_sign, minus_one}
use moon_lib.BigNumPro.Quotient.Search.{digit}
use moon_lib.BigNumPro.Quotient.{shift, div_step, div_loop, div, zero_num}

-- The number zero as the operators take it, and a digit that is not zero.
digit_from : (h : ℕ) → 0 < h → from_uint32 h ≡ digit h
unfolding from_uint32
digit_from h p = ground arith

zero_less : (d : ℕ) → less zero_num (digit d) ≡ true
unfolding less num_vec_less
zero_less d = refl

zero_add : (h : ℕ) → h < base → add zero_num (digit h) ≡ some (digit h)
unfolding add add_same add_loop from_vec
zero_add h p = ground arith

zero_add_zero : add zero_num (from_uint32 0) ≡ some zero_num
unfolding add add_same add_loop from_vec from_uint32
zero_add_zero = refl

no_multiple : (d : ℕ) → mul (digit d) (from_uint32 0) ≡ some zero_num
unfolding mul from_uint32
no_multiple d = refl

sub_zero : (h : ℕ) → h < base → sub (digit h) zero_num ≡ some (digit h)
unfolding sub negative from_vec add add_same add_loop
sub_zero h p = ground arith

sub_zero_zero : sub zero_num zero_num ≡ some zero_num
unfolding sub negative from_vec add add_same add_loop
sub_zero_zero = refl

not_reached : (h d : ℕ) → h < d → greater_equal (digit h) (digit d) ≡ false
unfolding greater_equal greater less num_vec_less high_less equal same_digits
not_reached h d p = ground arith

zero_not_reached : (d : ℕ) → greater_equal zero_num (digit d) ≡ false
unfolding greater_equal greater less num_vec_less high_less equal same_digits
zero_not_reached d = refl

-- A round at a digit below the divisor, with nothing in hand.
low_round :
    (fuel h d : ℕ)
    → 0 < h
    → h < d
    → d < base
    → div_step fuel h (digit d) zero_num zero_num ≡ some (digit h, zero_num)
unfolding div_step shift
low_round fuel h d p q r =
    let b : h < base = omega arith in
    rw (
      zero_less d,
      digit_from h p,
      zero_add h b,
      not_reached h d q,
      zero_add_zero,
      no_multiple d,
      sub_zero h b,
    )

zero_round : (fuel d : ℕ) → div_step fuel 0 (digit d) zero_num zero_num ≡ some (zero_num, zero_num)
unfolding div_step shift
zero_round fuel d =
    rw (zero_less d, zero_add_zero, zero_not_reached d, zero_add_zero, no_multiple d, sub_zero_zero)

plain_divisor :
    (d : ℕ)
    → 1 < d
    → (equal (digit d) zero_num ≡ false)
      × (equal (digit d) (from_uint32 1) ≡ false)
      × (equal (digit d) minus_one ≡ false)
unfolding equal same_digits from_uint32
plain_divisor d p = (refl, ground arith, refl)

longer : (h d : ℕ) → num_vec_less (0 ∷ h ∷ []) (d ∷ []) ≡ false
unfolding num_vec_less
longer h d = refl

-- operator/ gives zero for h * 2 ^ 32 over a digit d above h, whatever the fuel, where the dividend
-- is not below the divisor: the rounds take the lowest digit first.
pub div_lowest_first :
    (fuel h d : ℕ)
    → 0 < h
    → h < d
    → d < base
    → (div fuel (from_vec true (0 ∷ h ∷ [])) (digit d) ≡ some zero_num)
      × (less (from_vec true (0 ∷ h ∷ [])) (digit d) ≡ false)
      × (limb_value (d ∷ []) ≤ limb_value (0 ∷ h ∷ []))
unfolding div div_loop from_vec limb_value less with_sign
div_lowest_first fuel h d p q r =
    let (a, b, c) = plain_divisor d (omega arith) in
    (rw (a, longer h d, b, c, zero_round fuel d, low_round fuel h d p q r), longer h d, omega arith)
