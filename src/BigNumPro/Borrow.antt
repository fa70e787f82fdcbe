-- ===== src/BigNumPro/Borrow.antt =====
-- Differences of CppBigNumPro of src/CppBigNum.cpp: the digits are right, and the zeros in front stay.
use moon_lib.Common.{
  ℕ, ◌+◌, ◌-◌, ◌≤◌, ◌<◌, ◌≡◌, ◌⊎◌, inl, inr, refl, ap, ◌∙◌, Bool, true, false, not, Option, some,
  List, [], ◌∷◌, arith, ltb, Bool-cases,
}
use moon_lib.Common.Int.{ℤ, ◌+ℤ◌, pos}
use moon_lib.BigNumPro.{
  BigNumPro, base, from_vec, from_uint32, negative, num_vec_less, less, same_digits, equal,
  borrowed, sub_digit, sub_loop, finish, add_same, add_different, add, sub,
}
use moon_lib.BigNumPro.Limbs.{IsLimbs, limb_value, signed, value, IsCanonical}
use moon_lib.BigNumPro.Order.{num_vec_less-ltb}
use moon_lib.BigNumPro.Sum.{from_vec-value, add_same-value}

sub_digit_lt : (m s : ℕ) → m < base → s ≤ base → sub_digit m s < base
sub_digit_lt m s h k = ground arith

-- The loop of different signs ends and subtracts, where the first number is the larger one.
sub_loop-value :
    (c : Bool) (xs ys : List ℕ)
    → IsLimbs xs
    → IsLimbs ys
    → borrowed c + limb_value ys ≤ limb_value xs
    → (r : List ℕ) × (sub_loop c xs ys ≡ some r)
      × IsLimbs r
      × (limb_value r + borrowed c + limb_value ys ≡ limb_value xs)
unfolding sub_loop limb_value
sub_loop-value true [] [] hx hy h = absurd (omega arith)
sub_loop-value false [] [] hx hy h = ([], refl, tt, omega arith)
sub_loop-value c (x ∷ xs) [] hx hy h =
    let s = borrowed c in
    let (r, run, limbs, v) = sub_loop-value (ltb x s) xs [] hx.1 hy (ground arith) in
    (sub_digit x s ∷ r, rw run, (sub_digit_lt x s hx.0 (ground arith), limbs), ground arith)
sub_loop-value c [] (y ∷ ys) hx hy h =
    let s = borrowed c + y in
    let (r, run, limbs, v) = sub_loop-value (ltb 0 s) [] ys hx hy.1 (ground arith) in
    (
      sub_digit 0 s ∷ r,
      rw run,
      (sub_digit_lt 0 s (omega arith) (ground arith), limbs),
      ground arith,
    )
sub_loop-value c (x ∷ xs) (y ∷ ys) hx hy h =
    let s = borrowed c + y in
    let (r, run, limbs, v) = sub_loop-value (ltb x s) xs ys hx.1 hy.1 (ground arith) in
    (sub_digit x s ∷ r, rw run, (sub_digit_lt x s hx.0 (ground arith), limbs), ground arith)

-- The operation ends in digits of the integer `v`.
abbrev pub Stands : Option BigNumPro → ℤ → Type 0
Stands m v = (z : BigNumPro) × (m ≡ some z) × IsLimbs z.num_vec × (value z ≡ v)

finish-Stands :
    (flag : Bool) (xs ys : List ℕ)
    → IsLimbs xs
    → IsLimbs ys
    → limb_value ys ≤ limb_value xs
    → Stands (finish flag (sub_loop false xs ys)) (signed flag (limb_value xs - limb_value ys))
unfolding finish
finish-Stands flag xs ys hx hy h =
    let (r, run, limbs, v) = sub_loop-value false xs ys hx hy (omega arith) in
    rw run (
      from_vec flag r,
      refl,
      unfold from_vec in limbs,
      from_vec-value flag r ∙ ap (signed flag) (omega (arith, v)),
    )

pub Stands-eq : {m : Option BigNumPro} {a b : ℤ} → Stands m a → a ≡ b → Stands m b
Stands-eq (z, run, limbs, v) e = (z, run, limbs, v ∙ e)

pub zero-Stands : Stands (some (from_uint32 0)) (pos 0)
unfolding from_uint32 value limb_value
zero-Stands = (from_uint32 0, refl, tt, refl)

add_different-Stands :
    (x y : BigNumPro)
    → IsCanonical x
    → IsCanonical y
    → y.flag ≡ not x.flag
    → Stands (add_different x y) (value x +ℤ value y)
unfolding add_different value ◌+ℤ◌
add_different-Stands x y cx cy e = elim (Bool-cases (num_vec_less x.num_vec y.num_vec)) [
  | inl right ↦ rw right (
      Stands-eq (finish-Stands y.flag y.num_vec x.num_vec cy.limbs cx.limbs (ground (arith, xy)))
        (ground (arith, xy)))
  | inr more ↦ elim (Bool-cases (num_vec_less y.num_vec x.num_vec)) [
    | inl left ↦
        rw (more, left)
          (Stands-eq
            (finish-Stands x.flag x.num_vec y.num_vec cx.limbs cy.limbs (ground (arith, yx)))
            (ground (arith, yx)))
    | inr same ↦ rw (more, same) (Stands-eq zero-Stands (ground (arith, xy, yx)))
  ]
]
  where
    xy : num_vec_less x.num_vec y.num_vec ≡ ltb (limb_value x.num_vec) (limb_value y.num_vec)
    xy = num_vec_less-ltb x.num_vec y.num_vec cx.limbs cy.limbs cx.trimmed cy.trimmed

    yx : num_vec_less y.num_vec x.num_vec ≡ ltb (limb_value y.num_vec) (limb_value x.num_vec)
    yx = num_vec_less-ltb y.num_vec x.num_vec cy.limbs cx.limbs cy.trimmed cx.trimmed

add-same : (x y : BigNumPro) → x.flag ≡ y.flag → add x y ≡ some (add_same x y)
unfolding add
add-same x y e = ground arith

add-different : (x y : BigNumPro) → y.flag ≡ not x.flag → add x y ≡ add_different x y
unfolding add
add-different x y e = ground arith

flag_cases : (a b : Bool) → (a ≡ b) ⊎ (b ≡ not a)
flag_cases a b = ground arith

-- operator+ on canonical numbers ends, and its digits stand for the sum of the integers.
pub add-Stands :
    (x y : BigNumPro) → IsCanonical x → IsCanonical y → Stands (add x y) (value x +ℤ value y)
add-Stands x y cx cy = elim (flag_cases x.flag y.flag) [
  | inl e ↦
      let r = add_same-value x y cx.limbs cy.limbs e in
      rw (add-same x y e) (add_same x y, refl, r.0, r.1)
  | inr e ↦ rw (add-different x y e) (add_different-Stands x y cx cy e)
]

-- 2 ^ 32 - d for a positive d below 2 ^ 32: the difference has a zero in front, so it is less than
-- no number of one digit, and is not equal to the number that it stands for.
pub sub_keeps_zero :
    (d : ℕ)
    → 0 < d
    → d < base
    → (z : BigNumPro) × (sub (from_vec true (0 ∷ 1 ∷ [])) (from_uint32 d) ≡ some z)
      × (value z ≡ value (from_uint32 (base - d)))
      × (equal z (from_uint32 (base - d)) ≡ false)
      × (less (from_uint32 (base - d)) z ≡ true)
unfolding sub add negative from_vec add_different num_vec_less sub_loop finish value limb_value
    equal less same_digits from_uint32
sub_keeps_zero d h k = (
  record { flag = true; num_vec = (base - d) ∷ 0 ∷ [] },
  ground arith,
  ground arith,
  ground arith,
  ground arith,
)
