-- ===== src/BigNum/Product/Sign.antt =====
-- The sign of products and quotients, and the product of src/CppBigNum.cpp.
use native.Mathlib.Nat.{mul-le-mul}
use moon_lib.Common.{
  ℕ, ◌+◌, ◌*◌, ◌%◌, ◌^◌, ◌≤◌, ◌<◌, ◌≡◌, refl, sym, ap, ap₂, ◌∙◌, Bool, true, not, ◌&&◌, some, List,
  [], reverse, arith, if◌then◌else◌, Bool-cases, inl, inr,
}
use moon_lib.Common.Int.{◌*ℤ◌, pos, ltb_ℤ}
use moon_lib.Text.{str_eq}
use moon_lib.BigNum.{BigNum, abs, less, zero_num}
use moon_lib.BigNum.Digits.{nat_value, horner, low_value-reverse, reverse-IsDigits}
use moon_lib.BigNum.Parse.{
  signed, signed-true, signed-zero, value, IsCanonical, Leads-not_zero, from_str_digits,
}
use moon_lib.BigNum.Order.{less-ltb_ℤ}
use moon_lib.BigNum.Decimal.{from_uint, from_string, from_uint-IsCanonical, from_string-lt}
use moon_lib.BigNum.Sum.Value.{Gives, Gives-eq, zero-IsCanonical, value-zero}
use moon_lib.BigNum.Product.{mul_rows, with_sign, small_limit, mul, ◌>>=◌}
use moon_lib.BigNum.Product.Value.{mul_rows-Gives}

-- The sign of a product.
abbrev pub same_sign : BigNum → BigNum → Bool
same_sign x y = if x.flag then y.flag else not y.flag

with_sign-zero : (x y : BigNum) → with_sign x y zero_num ≡ zero_num
unfolding with_sign str_eq
with_sign-zero x y = refl

pos_injective : (m n : ℕ) → pos m ≡ pos n → m ≡ n
pos_injective m n e = cc

-- A magnitude with the sign of x and y.
pub with_sign-value :
    (x y r : BigNum) (m : ℕ)
    → IsCanonical r
    → value r ≡ pos m
    → IsCanonical (with_sign x y r) × (value (with_sign x y r) ≡ signed (same_sign x y) m)
unfolding with_sign
with_sign-value x y r m c v = elim c.shape [
  | inl e ↦ zero_case e
  | inr l ↦ rw (Leads-not_zero r.num_str l) (
    record { digits = c.digits; shape = inr l },
    unfold value in ap (signed (same_sign x y)) magnitude,
  )
]
  where
    magnitude : nat_value r.num_str ≡ m
    magnitude = unfold value in ground (arith, v)

    zero_case :
        r ≡ zero_num
        → IsCanonical (with_sign x y r) × (value (with_sign x y r) ≡ signed (same_sign x y) m)
    zero_case e =
        let whole = ap (with_sign x y) e ∙ with_sign-zero x y in
        let nothing : m ≡ 0 = pos_injective m 0 (sym v ∙ ap value e ∙ value-zero) in
        rw whole (
          zero-IsCanonical,
          value-zero
              ∙ sym (signed-zero (same_sign x y))
              ∙ ap (signed (same_sign x y)) (sym nothing),
        )

-- The magnitude of an object, as an object.
pub abs-value :
    (x : BigNum) → IsCanonical x → IsCanonical (abs x) × (value (abs x) ≡ pos (nat_value x.num_str))
unfolding abs
abs-value x c =
    let (canonical, v) = from_str_digits x.num_str c.digits in
    (canonical, v ∙ signed-true (nat_value x.num_str))

value-*ℤ :
    (x y : BigNum)
    → signed (same_sign x y) (nat_value x.num_str * nat_value y.num_str) ≡ value x *ℤ value y
unfolding value ◌*ℤ◌
value-*ℤ x y = ground arith

mod_small : (n : ℕ) → n ≤ small_limit * small_limit → n % 2 ^ 64 ≡ n
mod_small n h = omega arith

-- Below the limit the product of two numbers of 32 bits is exact.
quick-product :
    (s t : List ℕ)
    → nat_value s < small_limit
    → nat_value t < small_limit
    → from_string s * from_string t % 2 ^ 64 ≡ nat_value s * nat_value t
quick-product s t h k =
    let bound : nat_value s * nat_value t ≤ small_limit * small_limit =
      mul-le-mul {n₁ = nat_value s} {m₁ = nat_value t} {n₂ = small_limit} {m₂ = small_limit}
        (omega arith) (omega arith) in
    let s_fits : nat_value s < 2 ^ 64 = omega arith in
    let t_fits : nat_value t < 2 ^ 64 = omega arith in
    rw (from_string-lt s s_fits, from_string-lt t t_fits)
      (mod_small (nat_value s * nat_value t) bound)

below_limit :
    (x : BigNum)
    → IsCanonical x
    → less (abs x) (from_uint small_limit) ≡ true
    → nat_value x.num_str < small_limit
below_limit x c h =
    let (ca, va) = abs-value x c in
    let (cl, vl) = from_uint-IsCanonical small_limit in
    let order : ltb_ℤ (pos (nat_value x.num_str)) (pos small_limit) ≡ true =
      ap₂ ltb_ℤ (sym va) (sym vl) ∙ sym (less-ltb_ℤ (abs x) (from_uint small_limit) ca cl) ∙ h in
    ground (arith, order)

-- Either branch of operator* finds the product of the magnitudes.
magnitude-Gives :
    (x y : BigNum)
    → IsCanonical x
    → IsCanonical y
    → Gives
        (if less (abs x) (from_uint small_limit) && less (abs y) (from_uint small_limit)
          then some (from_uint (from_string x.num_str * from_string y.num_str % 2 ^ 64))
          else mul_rows (reverse x.num_str) (reverse y.num_str) [] zero_num)
        (pos (nat_value x.num_str * nat_value y.num_str))
magnitude-Gives x y cx cy =
    elim (Bool-cases
      (less (abs x) (from_uint small_limit) && less (abs y) (from_uint small_limit))) [
        | inl small ↦
            let both =
              and_parts (less (abs x) (from_uint small_limit))
                (less (abs y) (from_uint small_limit)) small in
            let n = from_string x.num_str * from_string y.num_str % 2 ^ 64 in
            let (c, v) = from_uint-IsCanonical n in
            rw small (
              from_uint n,
              refl,
              c,
              v
                  ∙ ap pos (
                      quick-product x.num_str y.num_str (below_limit x cx both.0)
                        (below_limit y cy both.1)),
            )
        | inr large ↦ rw large (
            Gives-eq
              (mul_rows-Gives (reverse x.num_str) (reverse y.num_str) [] zero_num 0 1
                (reverse-IsDigits x.num_str cx.digits) (reverse-IsDigits y.num_str cy.digits) tt
                (λ a. unfold horner in omega arith) zero-IsCanonical value-zero)
              (ap pos (
                ap₂ (λ a b. 0 + a * b * 1) (low_value-reverse x.num_str)
                  (low_value-reverse y.num_str)
                ∙ omega arith)))
      ]
  where
    and_parts : (a b : Bool) → (a && b) ≡ true → (a ≡ true) × (b ≡ true)
    and_parts a b h = ground arith

-- operator* ends on canonical numbers, in the canonical object of the product of the integers.
pub mul-Gives :
    (x y : BigNum) → IsCanonical x → IsCanonical y → Gives (mul x y) (value x *ℤ value y)
unfolding mul
mul-Gives x y cx cy =
    let (r, run, c, v) = magnitude-Gives x y cx cy in
    let (c', v') = with_sign-value x y r (nat_value x.num_str * nat_value y.num_str) c v in
    (with_sign x y r, ap (λ m. m >>= λ z. some (with_sign x y z)) run, c', v' ∙ value-*ℤ x y)
