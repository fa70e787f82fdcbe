-- ===== src/Fraction/Reduced.antt =====
-- What the constructor of CppFraction of src/CppFraction.h and its operators make.
use native.Mathlib.Nat
use Prim.Native.Nat.{◌∣◌}
use moon_lib.Common.{
  ℕ, zero, suc, ◌*◌, ◌/◌, ◌^◌, ◌<◌, ◌≡◌, inl, inr, refl, sym, subst, Bool, some, arith, ltb,
  Bool-cases,
}
use moon_lib.Math.Divisor.{IsGreatestDivisor, gcd-IsGreatestDivisor}
use moon_lib.Fraction.{Fraction, reduce, make, same_sign, mul, div}

-- The fraction n / d in lowest terms, with a sign.
pub record IsLowest (n d : ℕ) (flag : Bool) (f : Fraction) : Type 0 where
  pub sign : f.flag ≡ flag
  pub positive : 0 < f.denominator
  pub lowest : IsGreatestDivisor f.numerator f.denominator 1
  pub same : f.numerator * d ≡ n * f.denominator

quotient-mul : (n g : ℕ) → g ∣ n → n / g * g ≡ n
quotient-mul n g h = Nat.div-mul_cancel g h

scaled : (k n g : ℕ) → g ∣ n → k ∣ n / g → k * g ∣ n
scaled k n g h l = subst (λ x. k * g ∣ x) (quotient-mul n g h) (Nat.mul-dvd-mul_right k l g)

-- The quotients by the greatest common divisor have no common divisor but 1.
quotients-IsGreatestDivisor :
    (n d g : ℕ) → 0 < g → IsGreatestDivisor n d g → IsGreatestDivisor (n / g) (d / g) 1
quotients-IsGreatestDivisor n d g p r = record {
  left = Nat.one-dvd (n / g);
  right = Nat.one-dvd (d / g);
  greatest = λ k l m. Nat.dvd_of_mul-dvd-mul_right k p (
      subst (λ x. k * g ∣ x) (sym (Nat.one-mul g))
        (r.greatest (k * g) (scaled k n g r.left l) (scaled k d g r.right m)));
}

cross : (a b n d g : ℕ) → a * g ≡ n → b * g ≡ d → a * d ≡ n * b
cross a b n d g h k = rw (← h, ← k) (omega arith)

positive_quotient : (d g : ℕ) → 0 < d → g ∣ d → 0 < d / g
positive_quotient d g h k = go (d / g) (quotient-mul d g k)
  where
    go : (q : ℕ) → q * g ≡ d → 0 < q
    go zero e = absurd (omega arith)
    go (suc q) e = omega arith

reduce-IsLowest :
    (n d g : ℕ) (flag : Bool)
    → 0 < d
    → 0 < g
    → IsGreatestDivisor n d g
    → (f : Fraction) × (reduce n d flag (some g) ≡ some f) × IsLowest n d flag f
unfolding reduce
reduce-IsLowest n d g flag p q r = elim (Bool-cases (ltb 1 g)) [
  | inl long ↦ rw long (
    record { flag = flag; numerator = n / g; denominator = d / g },
    refl,
    record {
      sign = refl;
      positive = positive_quotient d g p r.right;
      lowest = quotients-IsGreatestDivisor n d g q r;
      same = cross (n / g) (d / g) n d g (quotient-mul n g r.left) (quotient-mul d g r.right);
    },
  )
  | inr short ↦
      let one : g ≡ 1 = ground arith in
      rw short (
        record { flag = flag; numerator = n; denominator = d },
        refl,
        record {
          sign = refl;
          positive = p;
          lowest = subst (IsGreatestDivisor n d) one r;
          same = refl;
        },
      )
]

-- The constructor from positive numbers ends with the fraction in lowest terms.
pub make-IsLowest :
    (n d : ℕ) (flag : Bool)
    → 0 < n
    → 0 < d
    → (f : Fraction) × (make n d flag ≡ some f) × IsLowest n d flag f
unfolding make
make-IsLowest n d flag p q =
    let (g, run, r) = gcd-IsGreatestDivisor n d p q in
    rw run (reduce-IsLowest n d g flag q (Nat.pos_of_dvd_of_pos r.right q) r)

-- operator* where nothing leaves the w bits, as the fraction of the two products.
pub mul-IsLowest :
    (w : ℕ) (x y : Fraction)
    → 0 < x.numerator * y.numerator
    → 0 < x.denominator * y.denominator
    → x.numerator * y.numerator < 2 ^ w
    → x.denominator * y.denominator < 2 ^ w
    → (f : Fraction) × (mul w x y ≡ some f)
      × IsLowest
          (x.numerator * y.numerator)
          (x.denominator * y.denominator)
          (same_sign x.flag y.flag)
          f
unfolding mul
mul-IsLowest w x y p q h k =
    rw (Nat.mod-eq_of_lt h, Nat.mod-eq_of_lt k)
      (make-IsLowest (x.numerator * y.numerator) (x.denominator * y.denominator)
        (same_sign x.flag y.flag) p q)

-- operator/ where nothing leaves the w bits: x / y is in lowest terms, and x / y times y is x by sign
-- and cross products.
pub div_lem :
    (w : ℕ) (x y : Fraction)
    → 0 < x.numerator * y.denominator
    → 0 < x.denominator * y.numerator
    → x.numerator * y.denominator < 2 ^ w
    → x.denominator * y.numerator < 2 ^ w
    → (f : Fraction) × (div w x y ≡ some f)
      × IsGreatestDivisor f.numerator f.denominator 1
      × (same_sign f.flag y.flag ≡ x.flag)
      × (f.numerator * y.numerator * x.denominator ≡ x.numerator * (f.denominator * y.denominator))
unfolding div
div_lem w x y p q h k =
    let (f, run, low) =
      make-IsLowest (x.numerator * y.denominator) (x.denominator * y.numerator)
        (same_sign x.flag y.flag) p q in
    (
      f,
      rw (Nat.mod-eq_of_lt h, Nat.mod-eq_of_lt k) run,
      low.lowest,
      rw low.sign (signs x.flag y.flag),
      omega (arith, low.same),
    )
  where
    signs : (a b : Bool) → same_sign (same_sign a b) b ≡ a
    signs a b = ground arith
