-- ===== src/BigNumPro/Product/Value.antt =====
-- The product of CppBigNumPro of src/CppBigNum.cpp stands for that of the integers.
use moon_lib.Common.{
  ℕ, ◌*◌, ◌≡◌, inl, inr, refl, ap, ◌∙◌, Bool, true, false, not, ◌||◌, List, [], ◌∷◌, arith,
  if◌then◌else◌, Bool-cases,
}
use moon_lib.Common.Int.{◌*ℤ◌, pos}
use moon_lib.BigNumPro.{BigNumPro, is_empty, from_vec, from_uint32, negative, equal, same_digits}
use moon_lib.BigNumPro.Limbs.{IsLimbs, limb_value, signed, value}
use moon_lib.BigNumPro.Sum.{from_vec-value}
use moon_lib.BigNumPro.Borrow.{Stands, Stands-eq, zero-Stands}
use moon_lib.BigNumPro.Product.{with_sign, minus_one, mul}
use moon_lib.BigNumPro.Product.Rows.{natural, magnitude-value}

abbrev same_sign : BigNumPro → BigNumPro → Bool
same_sign x y = if x.flag then y.flag else not y.flag

with_sign-value :
    (x y : BigNumPro) (r : List ℕ)
    → value (with_sign x y (natural r)) ≡ signed (same_sign x y) (limb_value r)
unfolding with_sign value from_vec
with_sign-value x y r = from_vec-value (same_sign x y) r

value-*ℤ :
    (x y : BigNumPro)
    → signed (same_sign x y) (limb_value x.num_vec * limb_value y.num_vec) ≡ value x *ℤ value y
unfolding value ◌*ℤ◌
value-*ℤ x y = ground arith

same_digits-eq : (xs ys : List ℕ) → same_digits xs ys ≡ true → xs ≡ ys
unfolding same_digits
same_digits-eq [] [] h = refl
same_digits-eq [] (y ∷ ys) h = cc
same_digits-eq (x ∷ xs) [] h = cc
same_digits-eq (x ∷ xs) (y ∷ ys) h = ground (arith, same_digits-eq xs ys)

empty-value : (xs : List ℕ) → is_empty xs ≡ true → limb_value xs ≡ 0
unfolding limb_value
empty-value [] h = refl
empty-value (x ∷ xs) h = cc

-- Zero times anything.
empty-product :
    (x y : BigNumPro)
    → (is_empty x.num_vec || is_empty y.num_vec) ≡ true
    → pos 0 ≡ value x *ℤ value y
unfolding value ◌*ℤ◌
empty-product x y h = ground (arith, empty-value x.num_vec, empty-value y.num_vec)

-- What the test of operator* for one finds.
one_found :
    (y : BigNumPro) → equal y (from_uint32 1) ≡ true → (y.flag ≡ true) × (limb_value y.num_vec ≡ 1)
unfolding equal from_uint32 limb_value
one_found y h =
    let digits : y.num_vec ≡ 1 ∷ [] = ground (arith, same_digits-eq y.num_vec (1 ∷ [])) in
    (ground arith, ap limb_value digits)

minus_one_found :
    (y : BigNumPro) → equal y minus_one ≡ true → (y.flag ≡ false) × (limb_value y.num_vec ≡ 1)
unfolding equal limb_value
minus_one_found y h =
    let digits : y.num_vec ≡ 1 ∷ [] = ground (arith, same_digits-eq y.num_vec (1 ∷ [])) in
    (ground arith, ap limb_value digits)

times_one :
    (x y : BigNumPro) → (y.flag ≡ true) × (limb_value y.num_vec ≡ 1) → value x ≡ value x *ℤ value y
unfolding value ◌*ℤ◌
times_one x y h = ground arith

times_minus_one :
    (x y : BigNumPro)
    → (y.flag ≡ false) × (limb_value y.num_vec ≡ 1)
    → signed (not x.flag) (limb_value x.num_vec) ≡ value x *ℤ value y
unfolding value ◌*ℤ◌
times_minus_one x y h = ground arith

-- operator* on digits in range ends, with digits that stand for the product of the integers.
pub mul-Stands :
    (x y : BigNumPro)
    → IsLimbs x.num_vec
    → IsLimbs y.num_vec
    → Stands (mul x y) (value x *ℤ value y)
unfolding mul
mul-Stands x y hx hy = elim (Bool-cases (is_empty x.num_vec || is_empty y.num_vec)) [
  | inl e ↦ rw e (Stands-eq zero-Stands (empty-product x y e))
  | inr e ↦ elim (Bool-cases (equal y (from_uint32 1))) [
    | inl one ↦ rw (e, one) (x, refl, hx, times_one x y (one_found y one))
    | inr other ↦ elim (Bool-cases (equal y minus_one)) [
      | inl minus ↦
          rw (e, other, minus)
            (
              negative x,
              refl,
              unfold negative from_vec in hx,
              unfold negative in
                  from_vec-value (not x.flag) x.num_vec
                  ∙ times_minus_one x y (minus_one_found y minus),
            )
      | inr long ↦
          let (r, run, limbs, v) = magnitude-value x.num_vec y.num_vec hx hy in
          rw (e, other, long, run)
            (
              with_sign x y (natural r),
              refl,
              unfold with_sign in limbs,
              with_sign-value x y r ∙ ap (signed (same_sign x y)) v ∙ value-*ℤ x y,
            )
    ]
  ]
]
