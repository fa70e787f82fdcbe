-- ===== src/Math/Divisor.antt =====
-- `GCD` of src/CppMath.h is the greatest common divisor.
use native.Mathlib.Nat
use Prim.Native.Nat.{◌∣◌}
use moon_lib.Common.{ℕ, zero, suc, ◌+◌, ◌-◌, ◌≤◌, ◌<◌, ◌≡◌, ◌⊎◌, inl, inr, subst, some, arith}
use moon_lib.Math.{gcd_loop, gcd}

-- `g` divides both numbers, and every common divisor divides `g`.
pub record IsGreatestDivisor (a b g : ℕ) : Type 0 where
  pub left : g ∣ a
  pub right : g ∣ b
  pub greatest : (k : ℕ) → k ∣ a → k ∣ b → k ∣ g

-- A divisor of b and of a - b divides a.
dvd_back : (k a b : ℕ) → b ≤ a → k ∣ a - b → k ∣ b → k ∣ a
dvd_back k a b h p q = (Nat.dvd-sub_iff_left k h q).0 p

left-IsGreatestDivisor :
    (a b g : ℕ) → b < a → IsGreatestDivisor (a - b) b g → IsGreatestDivisor a b g
left-IsGreatestDivisor a b g h r = record {
  left = dvd_back g a b (omega arith) r.left r.right;
  right = r.right;
  greatest = λ k p q. r.greatest k (Nat.dvd-sub k p q) q;
}

right-IsGreatestDivisor :
    (a b g : ℕ) → a < b → IsGreatestDivisor a (b - a) g → IsGreatestDivisor a b g
right-IsGreatestDivisor a b g h r = record {
  left = r.left;
  right = dvd_back g b a (omega arith) r.right r.left;
  greatest = λ k p q. r.greatest k p (Nat.dvd-sub k q p);
}

order_cases : (a b : ℕ) → (a ≡ b) ⊎ ((b < a) ⊎ (a < b))
order_cases a b = ground arith

-- The loop ends within the sum of two positive numbers.
gcd_loop-IsGreatestDivisor :
    (fuel a b : ℕ)
    → 0 < a
    → 0 < b
    → a + b ≤ fuel
    → (g : ℕ) × (gcd_loop fuel a b ≡ some g) × IsGreatestDivisor a b g
unfolding gcd_loop
gcd_loop-IsGreatestDivisor zero a b p q h = absurd (omega arith)
gcd_loop-IsGreatestDivisor (suc fuel) a b p q h = elim (order_cases a b) [
  | inl e ↦ (
    a,
    ground arith,
    record {
      left = Nat.dvd_refl a;
      right = subst (λ x. a ∣ x) e (Nat.dvd_refl a);
      greatest = λ k l r. l;
    },
  )
  | inr (inl more) ↦
      let (g, run, r) = gcd_loop-IsGreatestDivisor fuel (a - b) b (omega arith) q (omega arith) in
      (g, ground arith, left-IsGreatestDivisor a b g more r)
  | inr (inr less) ↦
      let (g, run, r) = gcd_loop-IsGreatestDivisor fuel a (b - a) p (omega arith) (omega arith) in
      (g, ground arith, right-IsGreatestDivisor a b g less r)
]

-- `GCD` of two positive numbers ends with their greatest common divisor.
pub gcd-IsGreatestDivisor :
    (a b : ℕ) → 0 < a → 0 < b → (g : ℕ) × (gcd a b ≡ some g) × IsGreatestDivisor a b g
unfolding gcd
gcd-IsGreatestDivisor a b p q =
    let (g, run, r) = gcd_loop-IsGreatestDivisor (a + b) a b p q (omega arith) in
    (g, ground arith, r)
