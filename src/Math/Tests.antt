-- ===== src/Math/Tests.antt =====
-- Functions of CppMath at inputs, with a square root on the natural numbers.
use moon_lib.Common.{
  ℕ, zero, suc, ◌≡◌, ◌+◌, ◌*◌, ◌<◌, ◌%◌, refl, true, some, subst, List, [], arith, leb,
  if◌then◌else◌, inl, inr, Bool-cases, ◌↔◌, Bool, ◌∷◌,
}
use moon_lib.Math.{gcd_loop, gcd, factorial_loop, factorial}
use moon_lib.Math.Divisor.{IsGreatestDivisor, gcd-IsGreatestDivisor}
use moon_lib.Math.Counting.{product_to}
use moon_lib.Math.Choose.{up_loop, down_loop, combination}
use moon_lib.Math.Choose.Pascal.{pascal, rising, combination-pascal}
use moon_lib.Math.Primes.{is_prime}
use moon_lib.Math.Primes.Trial.{IsPrime, IsRoot, is_prime-IsPrime}
use moon_lib.Math.Primes.Cache.{Agrees, is_prime_cached-Agrees}
use moon_lib.Math.Factors.{get_primer_factor_num}
use moon_lib.Math.Factors.Product.{product, AllPrimeKeys, get_primer_factor_num-product}
use moon_lib.Math.Cached.{Cache, factorial_with_cache}
use moon_lib.Math.Cached.Agrees.{IsValid, AgreesWith, factorial_with_cache-AgreesWith}

gcd_run : gcd 12 18 ≡ some 6
unfolding gcd gcd_loop
gcd_run = refl

gcd_zero_run : gcd 0 18 ≡ some 0
unfolding gcd
gcd_zero_run = refl

factorial_run : factorial 13 ≡ some 1932053504
unfolding factorial factorial_loop
factorial_run = refl

gcd-IsGreatestDivisor_example : (g : ℕ) × (gcd 12 18 ≡ some g) × IsGreatestDivisor 12 18 g
gcd-IsGreatestDivisor_example = gcd-IsGreatestDivisor 12 18 (omega arith) (omega arith)

-- The square root, rounded down.
unfoldable int_root : ℕ → ℕ
int_root zero = 0
int_root (suc n) = let r = int_root n in if leb ((r + 1) * (r + 1)) (suc n) then r + 1 else r

int_root-IsRoot : IsRoot int_root
unfolding int_root
int_root-IsRoot zero b = (omega arith, omega arith)
int_root-IsRoot (suc n) b =
    let (low, high) = int_root-IsRoot n (omega arith) in
    elim (Bool-cases (leb ((int_root n + 1) * (int_root n + 1)) (suc n))) [
      | inl e ↦ rw e (ground arith, next (int_root n) n high)
      | inr e ↦ rw e (omega arith, ground arith)
    ]
  where
    next : (r n : ℕ) → n < (r + 1) * (r + 1) → suc n < (r + 1 + 1) * (r + 1 + 1)
    next r n h = omega arith

is_prime-IsPrime_example : (b : Bool) × (is_prime int_root 97 ≡ some b) × ((b ≡ true) ↔ IsPrime 97)
is_prime-IsPrime_example = is_prime-IsPrime int_root 97 int_root-IsRoot (omega arith)

three-IsPrime : IsPrime 3
three-IsPrime = (omega arith, λ k l b h. no_divisor k l b h)
  where
    no_divisor : (k : ℕ) → 1 < k → k < 3 → 3 % k ≡ 0 → ⊥
    no_divisor k l b h =
        let two : k ≡ 2 = omega arith in omega (arith, subst (λ x. 3 % x ≡ 0) two h)

is_prime_cached-Agrees_example : Agrees int_root (3 ∷ []) 97
is_prime_cached-Agrees_example =
    is_prime_cached-Agrees int_root (3 ∷ []) 97 int_root-IsRoot (omega arith) (three-IsPrime, tt)

get_primer_factor_num-product_example :
    (m : List (ℕ × ℕ)) × (get_primer_factor_num int_root 84 ≡ some m)
    × (product m ≡ 84)
    × AllPrimeKeys m
get_primer_factor_num-product_example =
    get_primer_factor_num-product int_root 84 int_root-IsRoot (omega arith) (omega arith)

abbrev two_factorials : Cache
two_factorials = (3, 6) ∷ (9, 362880) ∷ []

two_factorials-IsValid : IsValid two_factorials
unfolding product_to
two_factorials-IsValid = (refl, (refl, tt))

factorial_with_cache-AgreesWith_example :
    AgreesWith 7 20 two_factorials (factorial_with_cache 7 20 two_factorials)
factorial_with_cache-AgreesWith_example =
    factorial_with_cache-AgreesWith 7 20 two_factorials (omega arith) two_factorials-IsValid

combination_run : combination 10 7 ≡ some 120
unfolding combination up_loop down_loop
combination_run = refl

-- The product 11 * 12 * .. * 20 does not fit 32 bits, though 184756, the number asked for, does.
combination_overflow_run : combination 20 10 ≡ some 117
unfolding combination up_loop down_loop
combination_overflow_run = refl

combination-pascal_example : combination 10 7 ≡ some (pascal 7 3)
unfolding rising
combination-pascal_example = combination-pascal 10 7 (omega arith) (omega arith) (omega arith)
