-- ===== src/BigNum/Product/Value.antt =====
-- The product of src/CppBigNum.cpp stands for that of the integers.
use native.Mathlib.Nat.{mul-le-mul}
use moon_lib.Common.{
  ℕ, ◌+◌, ◌-◌, ◌*◌, ◌/◌, ◌%◌, ◌≤◌, ◌≡◌, refl, ap, ap₂, ◌∙◌, List, [], ◌∷◌, ◌++◌, arith, leb,
  if◌then◌else◌,
}
use moon_lib.Common.Int.{◌+ℤ◌, pos}
use moon_lib.Text.{reverse_str}
use moon_lib.Text.Reverse.{reverse_str-reverse}
use moon_lib.BigNum.{BigNum, from_str}
use moon_lib.BigNum.Digits.{
  IsDigit, IsDigits, low_value, nat_value, horner, nat_value-reverse, reverse-IsDigits,
  append-IsDigits, horner-append,
}
use moon_lib.BigNum.Parse.{signed-true, value, IsCanonical, from_str_digits}
use moon_lib.BigNum.Sum.Value.{Gives, Gives-eq, add-Gives}
use moon_lib.BigNum.Product.{mul_row, mul_rows}

row_step : (x xs d : ℕ) → (x + 10 * xs) * d ≡ x * d + 10 * (xs * d)
row_step x xs d = omega arith

-- One row.
mul_row-value :
    (carry d : ℕ) (xs : List ℕ)
    → IsDigits xs
    → d ≤ 9
    → carry ≤ 9
    → IsDigits (mul_row carry d xs) × (low_value (mul_row carry d xs) ≡ low_value xs * d + carry)
unfolding mul_row low_value
mul_row-value carry d [] dx hd hc = ground arith
mul_row-value carry d (x ∷ xs) dx hd hc =
    let low : x - b'0' ≤ 9 = omega (arith, dx.0.high) in
    let bound : (x - b'0') * d ≤ 81 = mul-le-mul low hd in
    let curr : ℕ = (x - b'0') * d + carry in
    let next : ℕ = if leb 10 curr then curr / 10 else 0 in
    let small : next ≤ 9 = ground arith in
    let digit : IsDigit ((if leb 10 curr then curr % 10 else curr) + b'0') = ground arith in
    let rest = mul_row-value next d xs dx.1 hd small in
    let split : (if leb 10 curr then curr % 10 else curr) + 10 * next ≡ curr = ground arith in
    ((digit, rest.0), omega (arith, rest.1, split, row_step (x - b'0') (low_value xs) d))

distribute : (l d y p : ℕ) → l * d * p + l * y * (p * 10) ≡ l * (d + 10 * y) * p
distribute l d y p = omega arith

+ℤ-pos : (a b : ℕ) → pos a +ℤ pos b ≡ pos (a + b)
unfolding ◌+ℤ◌
+ℤ-pos a b = ground arith

nat_value-append : (s zeros : List ℕ) → nat_value (s ++ zeros) ≡ horner (nat_value s) zeros
unfolding nat_value
nat_value-append s zeros = horner-append 0 s zeros

-- The number that one round adds.
row-number :
    (xs zeros : List ℕ) (y p : ℕ)
    → IsDigits xs
    → IsDigit y
    → IsDigits zeros
    → ((a : ℕ) → horner a zeros ≡ a * p)
    → let r = from_str (reverse_str (mul_row 0 (y - b'0') xs) ++ zeros) in
      IsCanonical r × (value r ≡ pos (low_value xs * (y - b'0') * p))
row-number xs zeros y p dx dy dz weigh =
    let d = y - b'0' in
    let row = mul_row-value 0 d xs dx (omega (arith, dy.high)) (omega arith) in
    let back = reverse_str-reverse (mul_row 0 d xs) in
    let digits =
      append-IsDigits (reverse_str (mul_row 0 d xs)) zeros
        (rw back (reverse-IsDigits (mul_row 0 d xs) row.0)) dz in
    let parsed = from_str_digits (reverse_str (mul_row 0 d xs) ++ zeros) digits in
    let number : nat_value (reverse_str (mul_row 0 d xs) ++ zeros) ≡ low_value xs * d * p =
      nat_value-append (reverse_str (mul_row 0 d xs)) zeros
      ∙ weigh (nat_value (reverse_str (mul_row 0 d xs)))
      ∙ ap (λ (n : ℕ). n * p)
          (ap nat_value back ∙ nat_value-reverse (mul_row 0 d xs) ∙ row.1 ∙ omega arith) in
    (
      parsed.0,
      parsed.1 ∙ signed-true (nat_value (reverse_str (mul_row 0 d xs) ++ zeros)) ∙ ap pos number,
    )

zeros-step :
    (zeros : List ℕ) (p : ℕ)
    → ((a : ℕ) → horner a zeros ≡ a * p)
    → (a : ℕ) → horner a (zeros ++ b'0' ∷ []) ≡ a * (p * 10)
unfolding horner
zeros-step zeros p weigh a = horner-append a zeros (b'0' ∷ []) ∙ omega (arith, weigh a)

-- All rows.
pub mul_rows-Gives :
    (xs ys zeros : List ℕ) (total : BigNum) (t p : ℕ)
    → IsDigits xs
    → IsDigits ys
    → IsDigits zeros
    → ((a : ℕ) → horner a zeros ≡ a * p)
    → IsCanonical total
    → value total ≡ pos t
    → Gives (mul_rows xs ys zeros total) (pos (t + low_value xs * low_value ys * p))
unfolding mul_rows low_value
mul_rows-Gives xs [] zeros total t p dx dy dz weigh c v = (total, refl, c, v ∙ ap pos (omega arith))
mul_rows-Gives xs (y ∷ ys) zeros total t p dx dy dz weigh c v =
    let row = row-number xs zeros y p dx dy.0 dz weigh in
    let (total', run, c', v') =
      add-Gives total (from_str (reverse_str (mul_row 0 (y - b'0') xs) ++ zeros)) c row.0 in
    let t' = low_value xs * (y - b'0') * p in
    rw run (
      Gives-eq
        (mul_rows-Gives xs ys (zeros ++ b'0' ∷ []) total' (t + t') (p * 10) dx dy.1
          (append-IsDigits zeros (b'0' ∷ []) dz
            (record { low = omega arith; high = omega arith }, tt))
          (zeros-step zeros p weigh) c' (v' ∙ ap₂ ◌+ℤ◌ v row.1 ∙ +ℤ-pos t t'))
        (ap pos (omega (arith, distribute (low_value xs) (y - b'0') (low_value ys) p))))
