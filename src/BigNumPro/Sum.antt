-- ===== src/BigNumPro/Sum.antt =====
-- Sums of CppBigNumPro of src/CppBigNum.cpp stand for those of the integers.
use moon_lib.Common.{
  ℕ, ◌+◌, ◌*◌, ◌/◌, ◌≤◌, ◌<◌, ◌≡◌, refl, ap, ◌∙◌, Bool, true, false, List, [], ◌∷◌, arith,
}
use moon_lib.Common.Int.{◌+ℤ◌}
use moon_lib.BigNumPro.{BigNumPro, base, from_vec, low_part, add_loop, add_same}
use moon_lib.BigNumPro.Limbs.{IsLimbs, limb_value, IsTrimmed, signed, value, IsCanonical}

low_part_lt : (v : ℕ) → low_part v < base
low_part_lt v = ground arith

low_part_split : (v : ℕ) → low_part v + base * (v / base) ≡ v
low_part_split v = ground arith

-- The loop of equal signs adds.
pub add_loop-value :
    (last : ℕ) (xs ys : List ℕ)
    → IsLimbs xs
    → IsLimbs ys
    → last ≤ 1
    → IsLimbs (add_loop last xs ys)
      × (limb_value (add_loop last xs ys) ≡ last + limb_value xs + limb_value ys)
unfolding add_loop limb_value
add_loop-value last [] [] hx hy h = ground arith
add_loop-value last (x ∷ xs) [] hx hy h =
    let v = last + x in
    let rest = add_loop-value (v / base) xs [] hx.1 hy (omega (arith, hx.0)) in
    ((low_part_lt v, rest.0), omega (arith, rest.1, low_part_split v))
add_loop-value last [] (y ∷ ys) hx hy h =
    let v = last + y in
    let rest = add_loop-value (v / base) [] ys hx hy.1 (omega (arith, hy.0)) in
    ((low_part_lt v, rest.0), omega (arith, rest.1, low_part_split v))
add_loop-value last (x ∷ xs) (y ∷ ys) hx hy h =
    let v = last + x + y in
    let rest = add_loop-value (v / base) xs ys hx.1 hy.1 (omega (arith, hx.0, hy.0)) in
    ((low_part_lt v, rest.0), omega (arith, rest.1, low_part_split v))

IsTrimmed-cons :
    (v : ℕ) (rest : List ℕ) → IsTrimmed rest → (rest ≡ [] → 0 < v) → IsTrimmed (v ∷ rest)
IsTrimmed-cons v [] t h = h refl
IsTrimmed-cons v (x ∷ xs) t h = t

IsTrimmed-tail : (x : ℕ) (xs : List ℕ) → IsTrimmed (x ∷ xs) → IsTrimmed xs
IsTrimmed-tail x [] t = tt
IsTrimmed-tail x (y ∷ ys) t = t

IsTrimmed-top : (x : ℕ) (xs : List ℕ) → IsTrimmed (x ∷ xs) → xs ≡ [] → 0 < x
IsTrimmed-top x [] t e = t
IsTrimmed-top x (y ∷ ys) t e = cc

-- The loop stores nothing only where there is nothing to store.
add_loop-nil :
    (last : ℕ) (xs ys : List ℕ) → add_loop last xs ys ≡ [] → (xs ≡ []) × (ys ≡ []) × (last ≡ 0)
unfolding add_loop
add_loop-nil last [] [] e = (refl, refl, ground arith)
add_loop-nil last (x ∷ xs) [] e = cc
add_loop-nil last [] (y ∷ ys) e = cc
add_loop-nil last (x ∷ xs) (y ∷ ys) e = cc

low_part_pos : (v : ℕ) → 0 < v → v / base ≡ 0 → 0 < low_part v
low_part_pos v h e = ground arith

-- The sum of trimmed digits is trimmed.
add_loop-IsTrimmed :
    (last : ℕ) (xs ys : List ℕ) → IsTrimmed xs → IsTrimmed ys → IsTrimmed (add_loop last xs ys)
unfolding add_loop
add_loop-IsTrimmed last [] [] tx ty = ground arith
add_loop-IsTrimmed last (x ∷ xs) [] tx ty =
    let v = last + x in
    IsTrimmed-cons (low_part v) (add_loop (v / base) xs [])
      (add_loop-IsTrimmed (v / base) xs [] (IsTrimmed-tail x xs tx) ty)
      (λ e.
        let ends = add_loop-nil (v / base) xs [] e in
        low_part_pos v (omega (arith, IsTrimmed-top x xs tx ends.0)) ends.2)
add_loop-IsTrimmed last [] (y ∷ ys) tx ty =
    let v = last + y in
    IsTrimmed-cons (low_part v) (add_loop (v / base) [] ys)
      (add_loop-IsTrimmed (v / base) [] ys tx (IsTrimmed-tail y ys ty))
      (λ e.
        let ends = add_loop-nil (v / base) [] ys e in
        low_part_pos v (omega (arith, IsTrimmed-top y ys ty ends.1)) ends.2)
add_loop-IsTrimmed last (x ∷ xs) (y ∷ ys) tx ty =
    let v = last + x + y in
    IsTrimmed-cons (low_part v) (add_loop (v / base) xs ys)
      (add_loop-IsTrimmed (v / base) xs ys (IsTrimmed-tail x xs tx) (IsTrimmed-tail y ys ty))
      (λ e.
        let ends = add_loop-nil (v / base) xs ys e in
        low_part_pos v (omega (arith, IsTrimmed-top x xs tx ends.0)) ends.2)

pub from_vec-value :
    (flag : Bool) (xs : List ℕ) → value (from_vec flag xs) ≡ signed flag (limb_value xs)
unfolding value from_vec limb_value
from_vec-value true [] = refl
from_vec-value false [] = refl
from_vec-value flag (x ∷ xs) = refl

from_vec-IsCanonical :
    (flag : Bool) (xs : List ℕ) → IsLimbs xs → IsTrimmed xs → IsCanonical (from_vec flag xs)
unfolding from_vec
from_vec-IsCanonical flag xs h t = record { limbs = h; trimmed = t; zero_flag = λ e. rw e }

-- operator+ on digits of one sign stands for the sum, and is canonical where both numbers are.
pub add_same-value :
    (x y : BigNumPro)
    → IsLimbs x.num_vec
    → IsLimbs y.num_vec
    → x.flag ≡ y.flag
    → IsLimbs (add_same x y).num_vec
      × (value (add_same x y) ≡ value x +ℤ value y)
      × (IsCanonical x → IsCanonical y → IsCanonical (add_same x y))
unfolding add_same
add_same-value x y hx hy e =
    let loop = add_loop-value 0 x.num_vec y.num_vec hx hy (omega arith) in
    (
      unfold from_vec in loop.0,
      from_vec-value x.flag (add_loop 0 x.num_vec y.num_vec)
          ∙ ap (signed x.flag) loop.1
          ∙ unfold value ◌+ℤ◌ in ground arith,
      λ cx cy.
          from_vec-IsCanonical x.flag (add_loop 0 x.num_vec y.num_vec) loop.0
            (add_loop-IsTrimmed 0 x.num_vec y.num_vec cx.trimmed cy.trimmed),
    )
