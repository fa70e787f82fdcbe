-- ===== src/Math/Cached.antt =====
-- `FactorialWithCache` of CppMath of src/CppMath.cpp. The static std::map is its entries in the order
-- of the keys, and is a part of the result.
pub mod Agrees
use moon_lib.Common.{
  ℕ, zero, suc, ◌+◌, ◌*◌, ◌%◌, ◌^◌, Option, none, some, List, [], ◌∷◌, leb, ltb, ◌==◌, length,
  if◌then◌else◌,
}

abbrev pub Cache : Type 0
Cache = List (ℕ × ℕ)

-- `find(n)`.
unfoldable pub lookup : ℕ → Cache → Option ℕ
lookup n [] = none
lookup n ((k, v) ∷ m) = let rest = lookup n m in if k == n then some v else rest

-- `lower_bound(n)`, and the entry before it where it is neither the end nor the beginning.
unfoldable pub before_bound : ℕ → Option (ℕ × ℕ) → Cache → Option (ℕ × ℕ)
before_bound n prev [] = none
before_bound n prev ((k, v) ∷ m) =
    let rest = before_bound n (some (k, v)) m in if ltb k n then rest else prev

-- `factorialCache[k] = v`.
unfoldable pub store : ℕ → ℕ → Cache → Cache
store k v [] = (k, v) ∷ []
store k v ((j, w) ∷ m) =
    let rest = (j, w) ∷ store k v m in
    if j == k then (k, v) ∷ m else if ltb k j then (k, v) ∷ (j, w) ∷ m else rest

-- The loop, with the result and the cache.
unfoldable pub cache_loop : ℕ → ℕ → ℕ → ℕ → ℕ → Cache → Option (ℕ × Cache)
cache_loop zero cache_size n i result cache = none
cache_loop (suc fuel) cache_size n i result cache =
    let next = result * i % 2 ^ 32 in
    let rest =
      cache_loop fuel cache_size n ((i + 1) % 2 ^ 32) next
        (if ltb (length cache) cache_size then store i next cache else cache) in
    if leb i n then rest else some (result, cache)

abbrev pub drop_last : Cache → Cache
drop_last [] = []
drop_last (e ∷ []) = []
drop_last (e ∷ f ∷ m) = e ∷ drop_last (f ∷ m)

-- The loop that erases from the end, with the rounds that are left.
unfoldable pub shrink : ℕ → ℕ → Cache → Cache
shrink zero cache_size cache = cache
shrink (suc rounds) cache_size cache =
    let rest = shrink rounds cache_size (drop_last cache) in
    if ltb cache_size (length cache) then rest else cache

abbrev pub shrunk : ℕ → Option (ℕ × Cache) → Option (ℕ × Cache)
shrunk cache_size none = none
shrunk cache_size (some (result, cache)) = some (result, shrink (length cache) cache_size cache)

-- Where the loop begins: after the entry before the bound, or at 2.
abbrev pub from_entry : ℕ → ℕ → Cache → Option (ℕ × ℕ) → Option (ℕ × Cache)
from_entry cache_size n cache none = cache_loop (suc n) cache_size n 2 1 cache
from_entry cache_size n cache (some (k, v)) =
    cache_loop (suc n) cache_size n ((k + 1) % 2 ^ 32) v cache

abbrev pub found_or : Option ℕ → Cache → Option (ℕ × Cache) → Option (ℕ × Cache)
found_or none cache other = other
found_or (some v) cache other = some (v, cache)

-- `FactorialWithCache`. One round for each number up to n and one to see the end are enough.
unfoldable pub factorial_with_cache : ℕ → ℕ → Cache → Option (ℕ × Cache)
factorial_with_cache n cache_size cache =
    let computed = shrunk cache_size (from_entry cache_size n cache (before_bound n none cache)) in
    if leb n 1 then some (1, cache) else found_or (lookup n cache) cache computed
