-- ===== src/Fraction/Sum.antt =====
-- operator+ and operator- of CppFraction of src/CppFraction.h stand for those of the fractions.
use native.Mathlib.Nat
use moon_lib.Common.{
  ℕ, zero, suc, ◌+◌, ◌-◌, ◌*◌, ◌^◌, ◌≤◌, ◌<◌, ◌≡◌, inl, inr, refl, ap, ◌∙◌, Bool, true, false,
  Option, some, arith, ltb, Bool-cases,
}
use moon_lib.Common.Int.{ℤ, ◌+ℤ◌, signed}
use moon_lib.Math.{gcd}
use moon_lib.Fraction.{Fraction, reduce, make, same_sign, add_parts, add}
use moon_lib.Fraction.Reduced.{make-IsLowest}

-- The operation ends in a fraction of the integer `v` over `d`: by the cross products, where `v` is
-- given at every factor.
abbrev pub IsFraction : Option Fraction → (ℕ → ℤ) → ℕ → Type 0
IsFraction m v d =
    (f : Fraction) × (m ≡ some f)
    × (0 < f.denominator)
    × (signed f.flag (f.numerator * d) ≡ v f.denominator)

zero_numerator :
    (d : ℕ) (flag : Bool)
    → make 0 d flag ≡ some (record { flag = flag; numerator = 0; denominator = d })
unfolding make gcd reduce
zero_numerator d flag = refl

-- The constructor with a positive denominator, whatever the numerator.
make-IsFraction :
    (n d : ℕ) (flag : Bool) → 0 < d → IsFraction (make n d flag) (λ k. signed flag (n * k)) d
make-IsFraction zero d flag h = (
  record { flag = flag; numerator = 0; denominator = d },
  zero_numerator d flag,
  h,
  ap (signed flag) (omega arith),
)
make-IsFraction (suc n) d flag h =
    let (f, run, low) = make-IsLowest (suc n) d flag (omega arith) h in
    (f, run, low.positive, rw (low.sign, low.same) refl)

IsFraction-eq :
    {m : Option Fraction} (d : ℕ) (u v : ℕ → ℤ)
    → IsFraction m u d
    → ((k : ℕ) → u k ≡ v k)
    → IsFraction m v d
IsFraction-eq d u v (f, run, p, e) h = (f, run, p, e ∙ h f.denominator)

difference-mul : (a b k : ℕ) → b ≤ a → (a - b) * k + b * k ≡ a * k
difference-mul a b k h =
    let whole : a - b + b ≡ a = omega arith in omega (arith, ap (λ x. x * k) whole)

-- A sum of two numbers with signs, as operator+ splits it.
signed_same :
    (a b : Bool) (l r k : ℕ)
    → same_sign a b ≡ true
    → signed a ((l + r) * k) ≡ signed a (l * k) +ℤ signed b (r * k)
unfolding ◌+ℤ◌
signed_same a b l r k e = ground arith

signed_left :
    (a b : Bool) (l r k : ℕ)
    → same_sign a b ≡ false
    → r ≤ l
    → signed a ((l - r) * k) ≡ signed a (l * k) +ℤ signed b (r * k)
unfolding ◌+ℤ◌
signed_left a b l r k e h = ground (arith, difference-mul l r k h)

signed_right :
    (a b : Bool) (l r k : ℕ)
    → same_sign a b ≡ false
    → l ≤ r
    → signed b ((r - l) * k) ≡ signed a (l * k) +ℤ signed b (r * k)
unfolding ◌+ℤ◌
signed_right a b l r k e h = ground (arith, difference-mul r l k h)

-- What operator+ makes of its two products.
add_parts-IsFraction :
    (w : ℕ) (a b : Bool) (l r d : ℕ)
    → 0 < d
    → l + r < 2 ^ w
    → IsFraction (add_parts w a b l r d) (λ k. signed a (l * k) +ℤ signed b (r * k)) d
unfolding add_parts
add_parts-IsFraction w a b l r d p h = elim (Bool-cases (same_sign a b)) [
  | inl same ↦
      rw (same, Nat.mod-eq_of_lt h)
        (IsFraction-eq d (λ k. signed a ((l + r) * k)) _ (make-IsFraction (l + r) d a p)
          (λ k. signed_same a b l r k same))
  | inr other ↦ elim (Bool-cases (ltb r l)) [
    | inl more ↦
        let le : r ≤ l = ground arith in
        rw (other, more)
          (IsFraction-eq d (λ k. signed a ((l - r) * k)) _ (make-IsFraction (l - r) d a p)
            (λ k. signed_left a b l r k other le))
    | inr less ↦
        let le : l ≤ r = ground arith in
        rw (other, less)
          (IsFraction-eq d (λ k. signed b ((r - l) * k)) _ (make-IsFraction (r - l) d b p)
            (λ k. signed_right a b l r k other le))
  ]
]

-- operator+ of fractions with positive denominators, where nothing leaves the w bits, ends with a
-- fraction of a positive denominator that stands for the sum, by the cross products.
pub add-IsFraction :
    (w : ℕ) (x y : Fraction)
    → 0 < x.denominator * y.denominator
    → x.numerator * y.denominator + y.numerator * x.denominator < 2 ^ w
    → x.denominator * y.denominator < 2 ^ w
    → IsFraction
        (add w x y)
        (λ k.
          signed x.flag (x.numerator * y.denominator * k)
          +ℤ signed y.flag (y.numerator * x.denominator * k))
        (x.denominator * y.denominator)
unfolding add
add-IsFraction w x y p h k =
    let left : x.numerator * y.denominator < 2 ^ w = omega arith in
    let right : y.numerator * x.denominator < 2 ^ w = omega arith in
    rw (Nat.mod-eq_of_lt left, Nat.mod-eq_of_lt right, Nat.mod-eq_of_lt k)
      (add_parts-IsFraction w x.flag y.flag (x.numerator * y.denominator)
        (y.numerator * x.denominator) (x.denominator * y.denominator) p h)
