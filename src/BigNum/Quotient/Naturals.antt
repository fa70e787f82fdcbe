-- ===== src/BigNum/Quotient/Naturals.antt =====
-- The operations of src/CppBigNum.cpp on canonical numbers that are not negative.
use moon_lib.Common.{
  ℕ, ◌+◌, ◌-◌, ◌*◌, ◌≤◌, ◌≡◌, ap₂, sym, ap, ◌∙◌, some, arith, ltb, leb, ◌==◌, inl, inr, Bool-cases,
}
use moon_lib.Common.Int.{◌+ℤ◌, ◌-ℤ◌, ◌*ℤ◌, pos, ltb_ℤ}
use moon_lib.BigNum.{BigNum, less, equal, greater, greater_equal}
use moon_lib.BigNum.Parse.{value, IsCanonical}
use moon_lib.BigNum.Order.{less-ltb_ℤ, equal_iff}
use moon_lib.BigNum.Sum.{add, sub}
use moon_lib.BigNum.Sum.Value.{add-Gives, sub-Gives}
use moon_lib.BigNum.Product.{mul}
use moon_lib.BigNum.Product.Sign.{mul-Gives}

-- A canonical object of a natural number.
pub record Holds (x : BigNum) (n : ℕ) : Type 0 where
  pub canonical : IsCanonical x
  pub number : value x ≡ pos n

sub-pos_lem : (a b : ℕ) → b ≤ a → pos a -ℤ pos b ≡ pos (a - b)
unfolding ◌-ℤ◌
sub-pos_lem a b h = ground arith

add-pos_lem : (a b : ℕ) → pos a +ℤ pos b ≡ pos (a + b)
unfolding ◌+ℤ◌
add-pos_lem a b = ground arith

mul-pos_lem : (a b : ℕ) → pos a *ℤ pos b ≡ pos (a * b)
unfolding ◌*ℤ◌
mul-pos_lem a b = ground arith

module _ {x y : BigNum} {a b : ℕ} (hx : Holds x a) (hy : Holds y b) where
  pub add-Holds : (z : BigNum) × (add x y ≡ some z) × Holds z (a + b)
  add-Holds =
      let (z, run, c, v) = add-Gives x y hx.canonical hy.canonical in
      (
        z,
        run,
        record { canonical = c; number = v ∙ ap₂ ◌+ℤ◌ hx.number hy.number ∙ add-pos_lem a b },
      )

  pub sub-Holds : b ≤ a → (z : BigNum) × (sub x y ≡ some z) × Holds z (a - b)
  sub-Holds h =
      let (z, run, c, v) = sub-Gives x y hx.canonical hy.canonical in
      (
        z,
        run,
        record { canonical = c; number = v ∙ ap₂ ◌-ℤ◌ hx.number hy.number ∙ sub-pos_lem a b h },
      )

  pub mul-Holds : (z : BigNum) × (mul x y ≡ some z) × Holds z (a * b)
  mul-Holds =
      let (z, run, c, v) = mul-Gives x y hx.canonical hy.canonical in
      (
        z,
        run,
        record { canonical = c; number = v ∙ ap₂ ◌*ℤ◌ hx.number hy.number ∙ mul-pos_lem a b },
      )

  pub less-Holds : less x y ≡ ltb a b
  less-Holds =
      less-ltb_ℤ x y hx.canonical hy.canonical ∙ ap₂ ltb_ℤ hx.number hy.number ∙ ground arith

  pub greater-Holds : greater x y ≡ ltb b a
  unfolding greater
  greater-Holds =
      less-ltb_ℤ y x hy.canonical hx.canonical ∙ ap₂ ltb_ℤ hy.number hx.number ∙ ground arith

  equal-pos : (pos a ≡ pos b) → a ≡ b
  equal-pos e = cc

  pub equal-Holds : equal x y ≡ (a == b)
  equal-Holds =
      let decides = equal_iff x y hx.canonical hy.canonical in
      elim (Bool-cases (a == b)) [
        | inl e ↦
            let same : a ≡ b = ground arith in
            rw e (decides.1 (hx.number ∙ ap pos same ∙ sym hy.number))
        | inr n ↦ elim (Bool-cases (equal x y)) [
          | inl e ↦
              let same : a ≡ b = equal-pos (sym hx.number ∙ decides.0 e ∙ hy.number) in
              absurd (ground arith)
          | inr m ↦ rw (n, m)
        ]
      ]

  pub greater_equal-Holds : greater_equal x y ≡ leb b a
  unfolding greater_equal
  greater_equal-Holds = ground (arith, greater-Holds, equal-Holds)
