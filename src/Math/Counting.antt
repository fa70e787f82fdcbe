-- ===== src/Math/Counting.antt =====
-- `Factorial` of src/CppMath.cpp gives the factorial, as uint32_t has it.
use native.Mathlib.Nat.{add-mul-mod_self_left, div-add-mod}
use moon_lib.Common.{
  ℕ, zero, suc, ◌+◌, ◌*◌, ◌/◌, ◌%◌, ◌^◌, ◌<◌, ◌≡◌, refl, sym, ap, subst, ◌∙◌, true, false, some,
  arith, leb,
}
use moon_lib.Math.{factorial_loop, factorial}

-- The product of the numbers from 1 to n.
unfoldable pub product_to : ℕ → ℕ
product_to zero = 1
product_to (suc n) = product_to n * suc n

-- A factor may be reduced before the product is.
pub low_mul : (m a s : ℕ) → a % m * s % m ≡ a * s % m
low_mul m a s = sym (add-mul-mod_self_left (a % m * s) m (a / m * s)) ∙ ap (λ x. x % m) whole
  where
    whole : a % m * s + m * (a / m * s) ≡ a * s
    whole = omega (arith, ap (λ x. x * s) (div-add-mod a m))

-- The loop at i, with the product of the smaller numbers so far.
pub factorial_loop-product_to :
    (k i n : ℕ)
    → k + i ≡ n
    → n + 1 < 2 ^ 32
    → factorial_loop (suc k) n (suc i) (product_to i % 2 ^ 32) ≡ some (product_to n % 2 ^ 32)
unfolding factorial_loop product_to
factorial_loop-product_to zero i n e h =
    subst (λ x. factorial_loop 1 n (suc i) (product_to i % 2 ^ 32) ≡ some (product_to x % 2 ^ 32)) e
      (ground arith)
factorial_loop-product_to (suc k) i n e h =
    let next : (suc i + 1) % 2 ^ 32 ≡ suc (suc i) = omega arith in
    let low : product_to i % 2 ^ 32 * suc i % 2 ^ 32 ≡ product_to (suc i) % 2 ^ 32 =
      low_mul (2 ^ 32) (product_to i) (suc i) in
    let more : leb (suc i) n ≡ true = ground arith in
    rw (more, next, low) (factorial_loop-product_to k (suc i) n (omega arith) h)

short : (n : ℕ) → leb (suc (suc n)) 1 ≡ false
short n = ground arith

-- `Factorial` of a number below 2 ^ 32 - 1 ends with the low 32 bits of the factorial.
pub factorial-product_to : (n : ℕ) → n + 1 < 2 ^ 32 → factorial n ≡ some (product_to n % 2 ^ 32)
unfolding factorial product_to
factorial-product_to zero h = refl
factorial-product_to (suc zero) h = refl
factorial-product_to (suc (suc n)) h =
    rw (short n) (factorial_loop-product_to (suc n) 1 (suc (suc n)) (omega arith) h)
