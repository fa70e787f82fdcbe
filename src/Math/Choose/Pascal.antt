-- ===== src/Math/Choose/Pascal.antt =====
-- `Combination` of src/CppMath.cpp and Pascal's triangle.
use native.Mathlib.Nat.{
  mul_assoc, mul-one, div-div-eq-div-mul, mul-div_cancel_left, mod-eq_of_lt, div-one,
}
use moon_lib.Common.{
  ℕ, zero, suc, ◌+◌, ◌-◌, ◌*◌, ◌/◌, ◌%◌, ◌^◌, ◌≤◌, ◌<◌, ◌≡◌, refl, sym, ap, subst, ◌∙◌, true, false,
  some, leb, arith,
}
use moon_lib.Math.Counting.{product_to, low_mul}
use moon_lib.Math.Choose.{up_loop, down_loop, combination}

-- The number in Pascal's triangle that has a steps to the left and b to the right above it.
unfoldable pub pascal : ℕ → ℕ → ℕ
pascal zero b = 1
pascal (suc a) zero = 1
pascal (suc a) (suc b) = pascal a (suc b) + pascal (suc a) b

-- The product of the k numbers after r.
unfoldable pub rising : ℕ → ℕ → ℕ
rising r zero = 1
rising r (suc k) = rising r k * (r + suc k)

rising-first : (r k : ℕ) → rising r (suc k) ≡ (r + 1) * rising (suc r) k
unfolding rising
rising-first r zero = omega arith
rising-first r (suc k) = rw (rising-first r k) (
    mul_assoc (r + 1) (rising (suc r) k) (r + suc (suc k))
    ∙ ap (λ x. (r + 1) * (rising (suc r) k * x)) (next r k))
  where
    next : (r k : ℕ) → r + suc (suc k) ≡ suc r + suc k
    next r k = omega arith

rising-zero : (k : ℕ) → rising 0 k ≡ product_to k
unfolding rising product_to
rising-zero zero = refl
rising-zero (suc k) = rw (rising-zero k) (ap (λ x. product_to k * x) (zero_left k))
  where
    zero_left : (k : ℕ) → 0 + suc k ≡ suc k
    zero_left k = omega arith

rising-pascal : (r k : ℕ) → rising r k ≡ product_to k * pascal r k
unfolding pascal rising product_to
rising-pascal zero k = rising-zero k ∙ sym (mul-one (product_to k))
rising-pascal (suc r) zero = refl
rising-pascal (suc r) (suc k) =
    two_ways (rising (suc r) k) (product_to k) (pascal r (suc k)) (pascal (suc r) k) r k
      (sym (rising-first r k) ∙ rising-pascal r (suc k)) (rising-pascal (suc r) k)
  where
    two_ways :
        (x p a b r k : ℕ)
        → (r + 1) * x ≡ p * suc k * a
        → x ≡ p * b
        → x * (suc r + suc k) ≡ p * suc k * (a + b)
    two_ways x p a b r k e f =
        let g : x * suc k ≡ p * b * suc k = ap (λ y. y * suc k) f in omega arith

product_to-positive : (k : ℕ) → 0 < product_to k
unfolding product_to
product_to-positive zero = omega arith
product_to-positive (suc k) = let ih = product_to-positive k in more (product_to k) k ih
  where
    more : (p k : ℕ) → 0 < p → 0 < p * suc k
    more p k h = omega arith

-- The first loop at the number after r + j, with the product of the j numbers before it.
up_loop-rising :
    (m fuel n r j k : ℕ)
    → j + m ≡ k
    → n ≡ r + k
    → m < fuel
    → n + 1 < 2 ^ 32
    → up_loop fuel n (r + j + 1) (rising r j % 2 ^ 32) ≡ some (rising r k % 2 ^ 32)
unfolding up_loop rising
up_loop-rising m zero n r j k e f h b = absurd (omega arith)
up_loop-rising zero (suc fuel) n r j k e f h b =
    let done : leb (r + j + 1) n ≡ false = ground arith in
    let same : j ≡ k = omega arith in rw done (ap (λ x. some (rising r x % 2 ^ 32)) same)
up_loop-rising (suc m) (suc fuel) n r j k e f h b =
    let more : leb (r + j + 1) n ≡ true = ground arith in
    let next : (r + j + 1 + 1) % 2 ^ 32 ≡ r + suc j + 1 = omega arith in
    let factor : r + j + 1 ≡ r + suc j = omega arith in
    let low : rising r j % 2 ^ 32 * (r + j + 1) % 2 ^ 32 ≡ rising r (suc j) % 2 ^ 32 =
      low_mul (2 ^ 32) (rising r j) (r + j + 1) ∙ ap (λ x. rising r j * x % 2 ^ 32) factor in
    rw (more, next, low) (up_loop-rising m fuel n r (suc j) k (omega arith) f (omega arith) b)

-- The second loop at the number after j, with the quotient by the j numbers before it.
down_loop-product_to :
    (m fuel d j x : ℕ)
    → j + m ≡ d
    → m < fuel
    → d + 1 < 2 ^ 32
    → down_loop fuel d (j + 1) (x / product_to j) ≡ some (x / product_to d)
unfolding down_loop product_to
down_loop-product_to m zero d j x e h b = absurd (omega arith)
down_loop-product_to zero (suc fuel) d j x e h b =
    let done : leb (j + 1) d ≡ false = ground arith in
    let same : j ≡ d = omega arith in rw done (ap (λ y. some (x / product_to y)) same)
down_loop-product_to (suc m) (suc fuel) d j x e h b =
    let more : leb (j + 1) d ≡ true = ground arith in
    let next : (j + 1 + 1) % 2 ^ 32 ≡ suc j + 1 = omega arith in
    let factor : j + 1 ≡ suc j = omega arith in
    let quotient : x / product_to j / (j + 1) ≡ x / product_to (suc j) =
      div-div-eq-div-mul x (product_to j) (j + 1) ∙ ap (λ y. x / (product_to j * y)) factor in
    rw (more, next, quotient)
      (down_loop-product_to m fuel d (suc j) x (omega arith) (omega arith) b)

divide-product_to : (k x : ℕ) → k + 1 < 2 ^ 32 → down_loop (suc k) k 2 x ≡ some (x / product_to k)
unfolding down_loop product_to
divide-product_to zero x b = ap some (sym (div-one x))
divide-product_to (suc k) x b =
    subst (λ y. down_loop (suc (suc k)) (suc k) 2 y ≡ some (x / product_to (suc k))) (div-one x)
      (down_loop-product_to k (suc (suc k)) (suc k) 1 x (omega arith) (omega arith) b)

-- `Combination` of n and r ends with the number in Pascal's triangle that has r steps to the left and
-- n - r to the right above it, where r is at most n, n is below 2 ^ 32 - 1 and the product of the numbers
-- after r up to n fits 32 bits.
pub combination-pascal :
    (n r : ℕ)
    → r ≤ n
    → n + 1 < 2 ^ 32
    → rising r (n - r) < 2 ^ 32
    → combination n r ≡ some (pascal r (n - r))
unfolding combination
combination-pascal n r h b s =
    let k = n - r in
    let d : (n + 2 ^ 32 - r) % 2 ^ 32 ≡ k = omega arith in
    let i : (r + 1) % 2 ^ 32 ≡ r + 0 + 1 = omega arith in
    let up : up_loop (suc n) n (r + 0 + 1) 1 ≡ some (rising r k % 2 ^ 32) =
      unfold rising in
      up_loop-rising k (suc n) n r 0 k (omega arith) (omega arith) (omega arith) b in
    let low : rising r k % 2 ^ 32 ≡ rising r k = mod-eq_of_lt s in
    rw (d, i, up, low) (divide-product_to k (rising r k) (omega arith) ∙ ap some (quotient r k))
  where
    quotient : (r k : ℕ) → rising r k / product_to k ≡ pascal r k
    quotient r k =
        ap (λ x. x / product_to k) (rising-pascal r k)
        ∙ mul-div_cancel_left (pascal r k) (product_to-positive k)
