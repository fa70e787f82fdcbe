-- ===== src/BigNumPro/Product/Rows.antt =====
-- The loops of operator* of CppBigNumPro of src/CppBigNum.cpp multiply.
use native.Mathlib.Nat.{mul-le-mul, pow-suc}
use native.Mathlib.Numerals.{add-one}
use moon_lib.Common.{
  ℕ, zero, suc, ◌+◌, ◌-◌, ◌*◌, ◌/◌, ◌%◌, ◌^◌, ◌≤◌, ◌<◌, ◌≡◌, refl, ap, ap₂, ◌∙◌, true, some, List,
  [], ◌∷◌, ◌++◌, arith, ltb, ◌==◌, replicate, Bool-cases, inl, inr,
}
use moon_lib.BigNumPro.{BigNumPro, base, from_vec, from_uint64, add_loop, add_same, add}
use moon_lib.BigNumPro.Limbs.{IsLimbs, limb_value}
use moon_lib.BigNumPro.Sum.{add_loop-value}
use moon_lib.BigNumPro.Product.{mul_row, mul_rows, magnitude}

product_bound : (x d last : ℕ) → x < base → d < base → last < base → x * d + last < base * base
product_bound x d last hx hd hl =
    let bound : x * d ≤ (base - 1) * (base - 1) =
      mul-le-mul {n₁ = x} {m₁ = d} {n₂ = base - 1} {m₂ = base - 1} (omega arith) (omega arith) in
    omega arith

fits : (v : ℕ) → v < base * base → v % 2 ^ 64 ≡ v
fits v h = omega arith

-- The product with one digit.
mul_row-value :
    (last d : ℕ) (xs : List ℕ)
    → IsLimbs xs
    → d < base
    → last < base
    → IsLimbs (mul_row last d xs) × (limb_value (mul_row last d xs) ≡ limb_value xs * d + last)
unfolding mul_row limb_value
mul_row-value last d [] hx hd hl = ground arith
mul_row-value last d (x ∷ xs) hx hd hl =
    let bound = product_bound x d last hx.0 hd hl in
    let exact = fits (x * d + last) bound in
    let rest = mul_row-value ((x * d + last) / base) d xs hx.1 hd (omega (arith, bound)) in
    rw exact ((omega arith, rest.0), omega (arith, rest.1, row_step x (limb_value xs) d))
  where
    row_step : (a b c : ℕ) → (a + base * b) * c ≡ a * c + base * (b * c)
    row_step a b c = omega arith

zeros-IsLimbs : (k : ℕ) (xs : List ℕ) → IsLimbs xs → IsLimbs (replicate k 0 ++ xs)
zeros-IsLimbs zero xs h = h
zeros-IsLimbs (suc k) xs h = (omega arith, zeros-IsLimbs k xs h)

limb_value-zeros :
    (k : ℕ) (xs : List ℕ) → limb_value (replicate k 0 ++ xs) ≡ limb_value xs * base ^ k
unfolding limb_value
limb_value-zeros zero xs = omega arith
limb_value-zeros (suc k) xs =
    omega (arith, limb_value-zeros k xs, ap (λ (p : ℕ). limb_value xs * p) (pow-suc base k))

-- The object with these digits that is not negative.
abbrev pub natural : List ℕ → BigNumPro
natural xs = record { flag = true; num_vec = xs }

from_vec-natural : (xs : List ℕ) → from_vec true xs ≡ natural xs
unfolding from_vec
from_vec-natural [] = refl
from_vec-natural (x ∷ xs) = refl

add-natural : (xs ys : List ℕ) → add (natural xs) (natural ys) ≡ some (natural (add_loop 0 xs ys))
unfolding add add_same
add-natural xs ys = ap some (from_vec-natural (add_loop 0 xs ys))

spread : (t l y ys p : ℕ) → 0 + t + l * y * p + l * ys * (p * base) ≡ t + l * (y + base * ys) * p
spread t l y ys p = omega arith

pow-add_one : (k : ℕ) → base ^ (k + 1) ≡ base ^ k * base
pow-add_one k = ap (λ (n : ℕ). base ^ n) (add-one k) ∙ pow-suc base k

-- All rows.
pub mul_rows-value :
    (xs ys : List ℕ) (k : ℕ) (total : List ℕ)
    → IsLimbs xs
    → IsLimbs ys
    → IsLimbs total
    → (r : List ℕ) × (mul_rows xs ys k (natural total) ≡ some (natural r))
      × IsLimbs r
      × (limb_value r ≡ limb_value total + limb_value xs * limb_value ys * base ^ k)
unfolding mul_rows limb_value
mul_rows-value xs [] k total hx hy ht = (total, refl, ht, omega arith)
mul_rows-value xs (y ∷ ys) k total hx hy ht =
    let row = replicate k 0 ++ mul_row 0 y xs in
    let (limbs, v) = mul_row-value 0 y xs hx hy.0 (omega arith) in
    let sum =
      add_loop-value 0 total row ht (zeros-IsLimbs k (mul_row 0 y xs) limbs) (omega arith) in
    let weight : limb_value row ≡ limb_value xs * y * base ^ k =
      limb_value-zeros k (mul_row 0 y xs) ∙ ap (λ (n : ℕ). n * base ^ k) (v ∙ omega arith) in
    let (r, run, rl, rv) = mul_rows-value xs ys (k + 1) (add_loop 0 total row) hx hy.1 sum.0 in
    (
      r,
      rw (add-natural total row) run,
      rl,
      rv
          ∙ ap₂ ◌+◌ (sum.1 ∙ ap (λ (n : ℕ). 0 + limb_value total + n) weight)
              (ap (λ (p : ℕ). limb_value xs * limb_value ys * p) (pow-add_one k))
          ∙ spread (limb_value total) (limb_value xs) y (limb_value ys) (base ^ k),
    )

two_digits :
    (n : ℕ)
    → n < base * base
    → (r : List ℕ) × (from_uint64 n ≡ natural r) × IsLimbs r × (limb_value r ≡ n)
unfolding from_uint64 limb_value
two_digits n h = elim (Bool-cases (n == 0)) [
  | inl z ↦ rw z ([], refl, tt, ground (arith, z))
  | inr p ↦ rw p (elim (Bool-cases (ltb 0 (n / base))) [
    | inl big ↦
        rw big ((n % base) ∷ (n / base) ∷ [], refl, (omega arith, (omega arith, tt)), omega arith)
    | inr small ↦ rw small ((n % base) ∷ [], refl, (omega arith, tt), ground (arith, small))
  ])
]

single-value :
    (x y : ℕ)
    → x < base
    → y < base
    → (r : List ℕ) × (from_uint64 (x * y % 2 ^ 64) ≡ natural r) × IsLimbs r × (limb_value r ≡ x * y)
single-value x y hx hy =
    let bound = product_bound x y 0 hx hy (omega arith) in
    let small : x * y < base * base = omega arith in
    rw (fits (x * y) small) (two_digits (x * y) small)

rows_from_zero :
    (xs ys : List ℕ)
    → IsLimbs xs
    → IsLimbs ys
    → (r : List ℕ) × (mul_rows xs ys 0 (natural []) ≡ some (natural r))
      × IsLimbs r
      × (limb_value r ≡ limb_value xs * limb_value ys)
rows_from_zero xs ys hx hy =
    let (r, run, limbs, v) = mul_rows-value xs ys 0 [] hx hy tt in
    (r, run, limbs, v ∙ unfold limb_value in omega arith)

-- Either way the magnitudes are multiplied.
pub magnitude-value :
    (xs ys : List ℕ)
    → IsLimbs xs
    → IsLimbs ys
    → (r : List ℕ) × (magnitude xs ys ≡ some (natural r))
      × IsLimbs r
      × (limb_value r ≡ limb_value xs * limb_value ys)
unfolding magnitude
magnitude-value (x ∷ []) (y ∷ []) hx hy =
    let (r, e, limbs, v) = single-value x y hx.0 hy.0 in
    (r, ap some e, limbs, v ∙ unfold limb_value in omega arith)
magnitude-value [] ys hx hy = rows_from_zero [] ys hx hy
magnitude-value (x ∷ []) [] hx hy = rows_from_zero (x ∷ []) [] hx hy
magnitude-value (x ∷ []) (y ∷ y' ∷ ys) hx hy = rows_from_zero (x ∷ []) (y ∷ y' ∷ ys) hx hy
magnitude-value (x ∷ x' ∷ xs) ys hx hy = rows_from_zero (x ∷ x' ∷ xs) ys hx hy
