-- ===== src/Math/Primes.antt =====
-- `IsPrime` and `GetPrimerFactorNum` of CppMath and the cache of CppMathPrimeWithCache, of
-- src/CppMath.cpp. `root` is `(uint32_t)sqrt((double)num)` of the C library.
pub mod Trial
pub mod Cache
use moon_lib.Common.{
  ℕ, zero, suc, ◌+◌, ◌/◌, ◌%◌, ◌^◌, Bool, true, false, Option, none, some, List, [], ◌∷◌, ◌++◌, leb,
  ltb, ◌==◌, if◌then◌else◌,
}

-- The loop of `IsPrime` over the odd numbers. `none` is a loop that does not end within the fuel.
unfoldable pub prime_loop : ℕ → ℕ → ℕ → ℕ → Option Bool
prime_loop zero num i sqrt_of_num = none
prime_loop (suc fuel) num i sqrt_of_num =
    let rest = prime_loop fuel num ((i + 2) % 2 ^ 32) sqrt_of_num in
    if leb i sqrt_of_num then (if num % i == 0 then some false else rest) else some true

-- `IsPrime`. Each round raises the number that is tried.
unfoldable pub is_prime : (ℕ → ℕ) → ℕ → Option Bool
is_prime root num =
    if ltb num 2
    then some false
    else if num == 2
    then some true
    else if num % 2 == 0
    then some false
    else prime_loop (suc (root num)) num 3 (root num)

-- `PrimeSet.find`.
unfoldable pub in_set : ℕ → List ℕ → Bool
in_set num [] = false
in_set num (p ∷ set) = if p == num then true else in_set num set

-- The loop over the set, in the order in which the set gives it: whether a divisor was found.
unfoldable pub divided : ℕ → List ℕ → Bool
divided num [] = false
divided num (p ∷ set) =
    let rest = divided num set in if num % p == 0 then true else if ltb num p then false else rest

abbrev pub remember : ℕ → List ℕ → Option Bool → Option (Bool × List ℕ)
remember num set none = none
remember num set (some true) = some (true, num ∷ set)
remember num set (some false) = some (false, set)

-- `IsPrime` of CppMathPrimeWithCache: the answer, and the set.
unfoldable pub is_prime_cached : (ℕ → ℕ) → List ℕ → ℕ → Option (Bool × List ℕ)
is_prime_cached root set num =
    if ltb num 2
    then some (false, set)
    else if num == 2
    then some (true, set)
    else if num % 2 == 0
    then some (false, set)
    else if in_set num set
    then some (true, set)
    else if divided num set
    then some (false, set)
    else remember num set (is_prime root num)
