-- ===== src/BigNum/Sum.antt =====
-- operator+ and operator- of src/CppBigNum.cpp, and the operators that they define.
pub mod Value
use moon_lib.Common.{
  ℕ, suc, ◌+◌, ◌-◌, Bool, true, false, not, ◌&&◌, ◌||◌, Option, none, some, List, [], ◌∷◌, ◌++◌,
  reverse, ltb, leb, ◌==◌, if◌then◌else◌,
}
use moon_lib.Text.{str_eq, reverse_str}
use moon_lib.BigNum.{BigNum, from_str, negative, num_str_less, sign_text, zero_num}

-- The carry or the borrow, which can only be one.
abbrev pub carried : Bool → ℕ
carried c = if c then 1 else 0

-- The character of a sum of two digits and a carry: ten is taken off where it is reached.
abbrev pub add_digit : ℕ → ℕ
add_digit v = (if leb 10 v then v - 10 else v) + b'0'

-- The loop over equal signs, on the texts in reverse, lowest digit first, with the carry. The
-- result is in the order in which the loop appends to it.
unfoldable pub add_loop : Bool → List ℕ → List ℕ → List ℕ
add_loop c [] [] = if c then add_digit 1 ∷ [] else []
add_loop c (x ∷ xs) [] = let v = carried c + (x - b'0') in add_digit v ∷ add_loop (leb 10 v) xs []
add_loop c [] (y ∷ ys) = let v = carried c + (y - b'0') in add_digit v ∷ add_loop (leb 10 v) [] ys
add_loop c (x ∷ xs) (y ∷ ys) =
    let v = carried c + (x - b'0') + (y - b'0') in add_digit v ∷ add_loop (leb 10 v) xs ys

-- The character of the difference m - s, which is negative where m < s: ten is added to it then.
abbrev pub sub_digit : ℕ → ℕ → ℕ
sub_digit m s = (if ltb m s then m + 10 - s else m - s) + b'0'

abbrev pub push_digit : ℕ → Option (List ℕ) → Option (List ℕ)
push_digit d none = none
push_digit d (some r) = some (d ∷ r)

-- The loop over different signs, with the borrow. `none` is a loop that does not end: with a borrow
-- left behind the last digit of both texts it appends a nine and borrows again.
unfoldable pub sub_loop : Bool → List ℕ → List ℕ → Option (List ℕ)
sub_loop c [] [] = if c then none else some []
sub_loop c (x ∷ xs) [] =
    let m = x - b'0' in let s = carried c in push_digit (sub_digit m s) (sub_loop (ltb m s) xs [])
sub_loop c [] (y ∷ ys) =
    let s = carried c + (y - b'0') in push_digit (sub_digit 0 s) (sub_loop (ltb 0 s) [] ys)
sub_loop c (x ∷ xs) (y ∷ ys) =
    let m = x - b'0' in
    let s = carried c + (y - b'0') in push_digit (sub_digit m s) (sub_loop (ltb m s) xs ys)

-- The last line of operator+: the text goes through the constructor.
unfoldable pub finish : Bool → Option (List ℕ) → Option BigNum
unfolding reverse_str from_str
finish flag none = none
finish flag (some result) = some (from_str (sign_text flag ++ reverse_str result))

-- The branch of equal signs of operator+.
unfoldable pub add_same : BigNum → BigNum → Option BigNum
add_same x y = finish x.flag (some (add_loop false (reverse x.num_str) (reverse y.num_str)))

-- The branch of different signs: the smaller magnitude is taken from the larger one.
unfoldable pub add_different : BigNum → BigNum → Option BigNum
add_different x y =
    if num_str_less x.num_str y.num_str
    then finish y.flag (sub_loop false (reverse y.num_str) (reverse x.num_str))
    else if str_eq x.num_str y.num_str
    then some zero_num
    else finish x.flag (sub_loop false (reverse x.num_str) (reverse y.num_str))

-- operator+. `none` is a loop that does not end.
unfoldable pub add : BigNum → BigNum → Option BigNum
add x y =
    if x.flag
    then (if y.flag then add_same x y else add_different x y)
    else (if y.flag then add_different x y else add_same x y)

-- operator-.
unfoldable pub sub : BigNum → BigNum → Option BigNum
sub x y = add x (negative y)
