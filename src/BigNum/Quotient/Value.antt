-- ===== src/BigNum/Quotient/Value.antt =====
-- The quotient of src/CppBigNum.cpp is that of the magnitudes.
use native.Mathlib.Nat.{div-mul-le_self, div-add-mod}
use moon_lib.Common.{
  ℕ, ◌+◌, ◌-◌, ◌*◌, ◌/◌, ◌%◌, ◌≤◌, ◌<◌, ◌≡◌, ◌≢◌, refl, sym, ap, ◌∙◌, Bool, true, false, not, some,
  arith, if◌then◌else◌, Bool-cases, inl, inr,
}
use moon_lib.Common.Int.{ℤ, ◌-ℤ◌, ◌*ℤ◌, pos}
use moon_lib.BigNum.{BigNum, equal, zero_num}
use moon_lib.BigNum.Digits.{nat_value}
use moon_lib.BigNum.Parse.{signed, signed-true, value, IsCanonical}
use moon_lib.BigNum.Order.{equal_iff}
use moon_lib.BigNum.Sum.Value.{Gives, sub-Gives, zero-IsCanonical, value-zero}
use moon_lib.BigNum.Product.{with_sign}
use moon_lib.BigNum.Product.Sign.{same_sign, with_sign-value, mul-Gives}
use moon_lib.BigNum.Quotient.{div, mod_num}
use moon_lib.BigNum.Quotient.Loop.{div_loop-IsDivision}
use moon_lib.BigNum.Quotient.Naturals.{Holds}

divisor_pos : (y : BigNum) → value y ≢ pos 0 → 0 < nat_value y.num_str
unfolding value
divisor_pos y h = ground arith

magnitude-Holds :
    (y : BigNum)
    → IsCanonical y
    → 0 < nat_value y.num_str
    → Holds (record y { flag = true }) (nat_value y.num_str)
magnitude-Holds y c h = record {
  canonical = record {
    digits = c.digits;
    shape = elim c.shape [
      | inl e ↦ inl (ap (λ z. record { flag = true; num_str = z.num_str }) e)
      | inr l ↦ inr l
    ];
  };
  number = unfold value in signed-true (nat_value y.num_str);
}

not-equal_zero : (y : BigNum) → IsCanonical y → value y ≢ pos 0 → equal y zero_num ≡ false
not-equal_zero y c h = elim (Bool-cases (equal y zero_num)) [
  | inl e ↦ absurd (h ((equal_iff y zero_num c zero-IsCanonical).0 e ∙ value-zero))
  | inr e ↦ e
]

quotient_unique : (n b q r : ℕ) → n ≡ q * b + r → r < b → q ≡ n / b
quotient_unique n b q r e h = grind arith

-- operator/ by a number that is not zero ends on canonical numbers: the magnitude of the result is
-- the quotient of the magnitudes, cut towards zero, and its sign is that of the product.
pub div-Gives :
    (x y : BigNum)
    → IsCanonical x
    → IsCanonical y
    → value y ≢ pos 0
    → Gives (div x y) (signed (same_sign x y) (nat_value x.num_str / nat_value y.num_str))
unfolding div
div-Gives x y cx cy h =
    let b = nat_value y.num_str in
    let positive : 0 < b = divisor_pos y h in
    let hr : Holds (record y { flag = true }) b = magnitude-Holds y cy positive in
    let hz : Holds zero_num 0 = record { canonical = zero-IsCanonical; number = value-zero } in
    let not_zero : equal y zero_num ≡ false = not-equal_zero y cy h in
    let (z, q, n, run, hq, split) =
      div_loop-IsDivision x.num_str 0 b 0 0 cx.digits hr hz hz
        (record { splits = omega arith; small = positive }) in
    let whole : nat_value x.num_str ≡ q * b + n = unfold nat_value in split.splits in
    let cut : q ≡ nat_value x.num_str / b =
      quotient_unique (nat_value x.num_str) b q n whole split.small in
    let (c, v) = with_sign-value x y z q hq.canonical hq.number in
    (with_sign x y z, rw not_zero (rw run refl), c, v ∙ ap (signed (same_sign x y)) cut)

-- A quotient by zero is zero.
pub div_zero : (x y : BigNum) → IsCanonical y → value y ≡ pos 0 → div x y ≡ some zero_num
unfolding div
div_zero x y cy h =
    let zero_eq = (equal_iff y zero_num cy zero-IsCanonical).1 (h ∙ sym value-zero) in rw zero_eq

product_ℤ :
    (fx fy : Bool) (k b : ℕ)
    → signed (if fx then fy else not fy) k *ℤ signed fy b ≡ signed fx (k * b)
unfolding ◌*ℤ◌
product_ℤ fx fy k b = ground arith

difference_ℤ : (fx : Bool) (n p : ℕ) → p ≤ n → signed fx n -ℤ signed fx p ≡ signed fx (n - p)
unfolding ◌-ℤ◌
difference_ℤ fx n p h = ground arith

left_over : (n b k : ℕ) → k ≡ n / b → n - k * b ≡ n % b
left_over n b k e =
    let whole : b * (n / b) + n % b ≡ n = div-add-mod n b in
    let scaled : k * b ≡ n / b * b = ap (λ (t : ℕ). t * b) e in omega arith

-- What is left of a number when the product of quotient and divisor is taken away.
remainder_ℤ :
    (fx fy : Bool) (n b k : ℕ)
    → 0 < b
    → k ≡ n / b
    → signed fx n -ℤ signed (if fx then fy else not fy) k *ℤ signed fy b ≡ signed fx (n % b)
remainder_ℤ fx fy n b k h e =
    ap (◌-ℤ◌ (signed fx n)) (product_ℤ fx fy k b)
    ∙ difference_ℤ fx n (k * b) (omega (arith, ap (λ (t : ℕ). t * b) e, div-mul-le_self n b))
    ∙ ap (signed fx) (left_over n b k e)

-- operator% by a number that is not zero ends on canonical numbers: the remainder of the magnitudes,
-- with the sign of the dividend.
pub mod_num-Gives :
    (x y : BigNum)
    → IsCanonical x
    → IsCanonical y
    → value y ≢ pos 0
    → Gives (mod_num x y) (signed x.flag (nat_value x.num_str % nat_value y.num_str))
unfolding mod_num
mod_num-Gives x y cx cy h =
    let (q, run1, c1, v1) = div-Gives x y cx cy h in
    let (p, run2, c2, v2) = mul-Gives q y c1 cy in
    let (r, run3, c3, v3) = sub-Gives x p cx c2 in
    (
      r,
      rw run1 (rw run2 run3),
      c3,
      v3
          ∙ ap (◌-ℤ◌ (value x)) (v2 ∙ ap (λ (a : ℤ). a *ℤ value y) v1)
          ∙ unfold value in
            remainder_ℤ x.flag y.flag (nat_value x.num_str) (nat_value y.num_str)
              (nat_value x.num_str / nat_value y.num_str) (divisor_pos y h) refl,
    )
