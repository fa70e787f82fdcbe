-- ===== src/Math.antt =====
-- CppMath of src/CppMath.h and src/CppMath.cpp: the greatest common divisor and factorials.
pub mod Divisor
pub mod Primes
pub mod Factors
pub mod Cached
pub mod Choose
pub mod Counting
mod Tests
use moon_lib.Common.{
  ℕ, zero, suc, ◌+◌, ◌-◌, ◌*◌, ◌/◌, ◌%◌, ◌^◌, Bool, true, false, ◌||◌, Option, none, some, ltb, leb,
  ◌==◌, if◌then◌else◌,
}

-- The loop of `GCD`, by subtraction.
unfoldable pub gcd_loop : ℕ → ℕ → ℕ → Option ℕ
gcd_loop zero a b = none
gcd_loop (suc fuel) a b =
    let left = gcd_loop fuel (a - b) b in
    let right = gcd_loop fuel a (b - a) in
    if a == b then some a else if ltb b a then left else right

-- `GCD` of unsigned numbers. Each round takes one off the sum of the two at least.
unfoldable pub gcd : ℕ → ℕ → Option ℕ
gcd a b = if a == 0 || b == 0 then some 0 else gcd_loop (a + b) a b

-- The loop of `Factorial`, on uint32_t.
unfoldable pub factorial_loop : ℕ → ℕ → ℕ → ℕ → Option ℕ
factorial_loop zero n i result = none
factorial_loop (suc fuel) n i result =
    let rest = factorial_loop fuel n ((i + 1) % 2 ^ 32) (result * i % 2 ^ 32) in
    if leb i n then rest else some result

-- `Factorial`. One round for each number up to n and one to see the end.
unfoldable pub factorial : ℕ → Option ℕ
factorial n = if leb n 1 then some 1 else factorial_loop n n 2 1
