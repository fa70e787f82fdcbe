-- ===== src/BigNumPro/Quotient/Search.antt =====
-- The binary search of operator/ of CppBigNumPro of src/CppBigNum.cpp: the sum of its bounds may
-- leave uint32_t, and then it does not end.

use moon_lib.Common.{
  ℕ, zero, suc, ◌+◌, ◌-◌, ◌*◌, ◌/◌, ◌%◌, ◌≤◌, ◌≡◌, ◌≢◌, refl, true, false, none, some, [], ◌∷◌,
  arith, ◌==◌, if◌then◌else◌,
}
use moon_lib.BigNumPro.{
  BigNumPro, base, high_less, num_vec_less, from_uint32, from_uint64, less, greater, equal,
  same_digits, add, add_same, add_loop, from_vec, greater_equal,
}
use moon_lib.BigNumPro.Product.{mul, magnitude, with_sign}
use moon_lib.BigNumPro.Quotient.{search_digit, shift, div_step, div_loop, div}

-- 2 ^ 31 - 1, the first middle of the search.
abbrev pub half : ℕ
half = 2147483647

-- A trial of the search that is too small.
abbrev TooSmall : BigNumPro → BigNumPro → ℕ → Type 0
TooSmall right curr c =
    (test : BigNumPro) × (mul right (from_uint32 c) ≡ some test)
    × (greater test curr ≡ false)
    × (less test curr ≡ true)

middle_moves :
    (b : ℕ) → b ≤ half → ((b + (base - 1)) % base / 2 ≤ half) × ((b + (base - 1)) % base / 2 ≢ b)
middle_moves b h = (omega arith, omega arith)

-- Where every trial below 2 ^ 31 times the divisor is less than what is in hand, the search from 0
-- (or any such value) to 2 ^ 32 - 1 has no result, whatever the fuel: the sum of the bounds leaves
-- uint32_t, so the lower bound never passes 2 ^ 31 - 1.
pub search_endless :
    (fuel b : ℕ) (right curr : BigNumPro)
    → ((c : ℕ) → c ≤ half → TooSmall right curr c)
    → b ≤ half
    → search_digit fuel b (base - 1) right curr ≡ none
unfolding search_digit
search_endless zero b right curr small h = refl
search_endless (suc fuel) b right curr small h =
    let (bound, moved) = middle_moves b h in
    let middle = (b + (base - 1)) % base / 2 in
    let (test, run, above, below) = small middle bound in
    let go : (middle == b) ≡ false = ground arith in
    let rest = search_endless fuel middle right curr small bound in rw (go, run, above, below) rest

abbrev pub digit : ℕ → BigNumPro
digit d = record { flag = true; num_vec = d ∷ [] }

-- Two times a trial of 31 bits.
twice :
    (c : ℕ)
    → c ≤ half
    → mul (digit 2) (from_uint32 c) ≡ some (if c == 0 then from_uint32 0 else digit (2 * c))
unfolding mul magnitude with_sign from_uint32 from_uint64 equal same_digits
twice c h = ground arith

-- Twice a trial of 31 bits is below 2 ^ 32 - 1.
pub twice_small : (c : ℕ) → c ≤ half → TooSmall (digit 2) (digit (base - 1)) c
unfolding greater less num_vec_less high_less from_uint32
twice_small c h =
    (if c == 0 then from_uint32 0 else digit (2 * c), twice c h, ground arith, ground arith)

-- The quotient 4294967295 / 2 has no result, whatever the fuel of the search.
div_endless : (fuel : ℕ) → div fuel (digit (base - 1)) (digit 2) ≡ none
unfolding div div_loop div_step less num_vec_less high_less shift add add_same add_loop from_vec
    from_uint32 greater_equal greater equal same_digits
div_endless fuel = rw (search_endless fuel 0 (digit 2) (digit (base - 1)) twice_small (omega arith))
