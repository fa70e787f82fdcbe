-- ===== src/BigNumPro.antt =====
-- CppBigNumPro of src/CppBigNum.h and src/CppBigNum.cpp: a sign and the digits in base 2 ^ 32, the
-- lowest first. Here: construction, sign changes, comparison and sums; the other operators are in
-- `Product` and `Quotient`.
pub mod Limbs
pub mod Order
pub mod Sum
pub mod Borrow
pub mod Product
pub mod Quotient
mod Tests
use moon_lib.Common.{
  ℕ, zero, suc, ◌+◌, ◌-◌, ◌*◌, ◌/◌, ◌%◌, ◌^◌, Bool, true, false, not, ◌&&◌, ◌||◌, Option, none,
  some, List, [], ◌∷◌, ltb, leb, ◌==◌, length, reverse, if◌then◌else◌,
}

-- `flag` is true for a number that is not negative.
pub record BigNumPro : Type 0 where
  pub flag : Bool
  pub num_vec : List ℕ

-- 2 ^ 32.
abbrev pub base : ℕ
base = 4294967296

abbrev pub is_empty : List ℕ → Bool
is_empty [] = true
is_empty (x ∷ xs) = false

-- The constructors from a sign and digits: zero is not negative.
unfoldable pub from_vec : Bool → List ℕ → BigNumPro
from_vec flag vec = record { flag = if is_empty vec then true else flag; num_vec = vec }

-- The constructors from an unsigned integer of 32 and of 64 bits.
unfoldable pub from_uint32 : ℕ → BigNumPro
from_uint32 n = record { flag = true; num_vec = if n == 0 then [] else n ∷ [] }

unfoldable pub from_uint64 : ℕ → BigNumPro
from_uint64 n = record {
  flag = true;
  num_vec = if n == 0 then [] else (n % base) ∷ (if ltb 0 (n / base) then (n / base) ∷ [] else []);
}

unfoldable pub negative : BigNumPro → BigNumPro
negative x = from_vec (not x.flag) x.num_vec

unfoldable pub abs : BigNumPro → BigNumPro
abs x = from_vec true x.num_vec

-- The loop of `numVecLess`, from the highest digit on.
unfoldable pub high_less : List ℕ → List ℕ → Bool
high_less [] ys = false
high_less (x ∷ xs) [] = false
high_less (x ∷ xs) (y ∷ ys) =
    let rest = high_less xs ys in if ltb x y then true else if ltb y x then false else rest

-- `numVecLess`.
unfoldable pub num_vec_less : List ℕ → List ℕ → Bool
num_vec_less xs ys =
    if ltb (length xs) (length ys)
    then true
    else if ltb (length ys) (length xs)
    then false
    else high_less (reverse xs) (reverse ys)

-- operator<.
unfoldable pub less : BigNumPro → BigNumPro → Bool
less x y =
    if x.flag
    then (if y.flag then num_vec_less x.num_vec y.num_vec else not x.flag)
    else (if y.flag then not x.flag else num_vec_less y.num_vec x.num_vec)

-- The loop of operator==, and the test behind it.
unfoldable pub same_digits : List ℕ → List ℕ → Bool
same_digits [] [] = true
same_digits [] (y ∷ ys) = false
same_digits (x ∷ xs) [] = false
same_digits (x ∷ xs) (y ∷ ys) = x == y && same_digits xs ys

unfoldable pub equal : BigNumPro → BigNumPro → Bool
equal x y =
    if is_empty x.num_vec && is_empty y.num_vec
    then true
    else if x.flag
    then (if y.flag then same_digits x.num_vec y.num_vec else false)
    else (if y.flag then false else same_digits x.num_vec y.num_vec)

unfoldable pub not_equal : BigNumPro → BigNumPro → Bool
not_equal x y = not (equal x y)

unfoldable pub less_equal : BigNumPro → BigNumPro → Bool
less_equal x y = less x y || equal x y

unfoldable pub greater : BigNumPro → BigNumPro → Bool
greater x y = less y x

unfoldable pub greater_equal : BigNumPro → BigNumPro → Bool
greater_equal x y = greater x y || equal x y

-- The digit that is stored of a sum, and the carry.
abbrev pub low_part : ℕ → ℕ
low_part v = if v / base == 0 then v else v % base

-- The loop over equal signs, with the carry. Where both numbers have ended, one more round stores a
-- carry, which is a number of 32 bits.
unfoldable pub add_loop : ℕ → List ℕ → List ℕ → List ℕ
add_loop last [] [] = if last == 0 then [] else last ∷ []
add_loop last (x ∷ xs) [] = let v = last + x in low_part v ∷ add_loop (v / base) xs []
add_loop last [] (y ∷ ys) = let v = last + y in low_part v ∷ add_loop (v / base) [] ys
add_loop last (x ∷ xs) (y ∷ ys) = let v = last + x + y in low_part v ∷ add_loop (v / base) xs ys

abbrev pub borrowed : Bool → ℕ
borrowed c = if c then 1 else 0

-- The digit m - s, which is negative where m < s: the base is added to it then.
abbrev pub sub_digit : ℕ → ℕ → ℕ
sub_digit m s = if ltb m s then m + base - s else m - s

abbrev pub push_digit : ℕ → Option (List ℕ) → Option (List ℕ)
push_digit d none = none
push_digit d (some r) = some (d ∷ r)

-- The loop over different signs, with the borrow. `none` is a loop that does not end.
unfoldable pub sub_loop : Bool → List ℕ → List ℕ → Option (List ℕ)
sub_loop c [] [] = if c then none else some []
sub_loop c (x ∷ xs) [] = push_digit (sub_digit x (borrowed c)) (sub_loop (ltb x (borrowed c)) xs [])
sub_loop c [] (y ∷ ys) =
    let s = borrowed c + y in push_digit (sub_digit 0 s) (sub_loop (ltb 0 s) [] ys)
sub_loop c (x ∷ xs) (y ∷ ys) =
    let s = borrowed c + y in push_digit (sub_digit x s) (sub_loop (ltb x s) xs ys)

unfoldable pub finish : Bool → Option (List ℕ) → Option BigNumPro
finish flag none = none
finish flag (some r) = some (from_vec flag r)

-- The branch of equal signs of operator+.
unfoldable pub add_same : BigNumPro → BigNumPro → BigNumPro
add_same x y = from_vec x.flag (add_loop 0 x.num_vec y.num_vec)

-- The branch of different signs.
unfoldable pub add_different : BigNumPro → BigNumPro → Option BigNumPro
add_different x y =
    if num_vec_less x.num_vec y.num_vec
    then finish y.flag (sub_loop false y.num_vec x.num_vec)
    else if num_vec_less y.num_vec x.num_vec
    then finish x.flag (sub_loop false x.num_vec y.num_vec)
    else some (from_uint32 0)

-- operator+. `none` is a loop that does not end.
unfoldable pub add : BigNumPro → BigNumPro → Option BigNumPro
add x y =
    if x.flag
    then (if y.flag then some (add_same x y) else add_different x y)
    else (if y.flag then add_different x y else some (add_same x y))

-- operator-.
unfoldable pub sub : BigNumPro → BigNumPro → Option BigNumPro
sub x y = add x (negative y)
