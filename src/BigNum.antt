-- ===== src/BigNum.antt =====
-- CppBigNum of src/CppBigNum.h and src/CppBigNum.cpp: a sign and the decimal digits as text, the
-- highest first. Here: construction, sign changes and comparison; the arithmetic is in the
-- children `Sum`, `Product` and `Quotient`.
pub mod Digits
pub mod Parse
pub mod Order
pub mod Sum
pub mod Decimal
pub mod Product
pub mod Quotient
pub mod Text
pub mod Assign
mod Tests
use moon_lib.Common.{
  ℕ, zero, suc, ◌+◌, ◌-◌, ◌*◌, ◌/◌, ◌%◌, Bool, true, false, not, ◌&&◌, ◌||◌, Option, none, some,
  List, [], ◌∷◌, ◌++◌, ltb, leb, ◌==◌, drop, length, if◌then◌else◌,
}
use moon_lib.Text.{str_eq, str_less, reverse_str}

-- `flag` is true for a number that is not negative.
pub record BigNum : Type 0 where
  pub flag : Bool
  pub num_str : List ℕ

-- std::isdigit.
abbrev pub is_digit : ℕ → Bool
is_digit c = leb b'0' c && leb c b'9'

-- The loop of `GetNumFromStr` at the index `i`: the place where the digits begin and the sign, or
-- `none` where it meets a character that is no digit.
unfoldable pub scan : List ℕ → ℕ → ℕ → Bool → Option (ℕ × Bool)
scan [] i start flag = some (start, flag)
scan (c ∷ cs) i start flag =
    let leading = (start == i) && (c == b'+' || c == b'-' || c == b'0') in
    let skip = scan cs (i + 1) (start + 1) (if c == b'-' then not flag else flag) in
    let keep = scan cs (i + 1) start flag in
    if leading then skip else if is_digit c then keep else none

abbrev pub zero_num : BigNum
zero_num = record { flag = true; num_str = b'0' ∷ [] }

-- What follows the loop.
unfoldable pub take_digits : List ℕ → Option (ℕ × Bool) → BigNum
take_digits num none = zero_num
take_digits num (some (start, flag)) =
    if start == length num
    then zero_num
    else let num_str = if start == 0 then num else drop start num in
      record { flag = if str_eq num_str (b'0' ∷ []) then true else flag; num_str = num_str }

-- `GetNumFromStr` on an object whose sign is `flag`.
unfoldable pub get_num_from_str : Bool → List ℕ → BigNum
unfolding scan take_digits
get_num_from_str flag num = take_digits num (scan num 0 0 flag)

-- The constructors from a string. The base class's constructor sets the sign to true.
unfoldable pub from_str : List ℕ → BigNum
unfolding get_num_from_str
from_str num = get_num_from_str true num

abbrev pub sign_text : Bool → List ℕ
sign_text flag = if flag then [] else b'-' ∷ []

unfoldable pub value_text : BigNum → List ℕ
value_text x = sign_text x.flag ++ x.num_str

unfoldable pub negative : BigNum → BigNum
negative x = from_str (sign_text (not x.flag) ++ x.num_str)

unfoldable pub abs : BigNum → BigNum
abs x = from_str x.num_str

unfoldable pub reverse_num : BigNum → BigNum
reverse_num x = from_str (sign_text x.flag ++ reverse_str x.num_str)

-- `numStrLess`.
unfoldable pub num_str_less : List ℕ → List ℕ → Bool
unfolding str_less
num_str_less s t =
    if ltb (length s) (length t)
    then true
    else if ltb (length t) (length s)
    then false
    else str_less s t

-- operator<.
unfoldable pub less : BigNum → BigNum → Bool
unfolding num_str_less
less x y =
    if x.flag
    then (if y.flag then num_str_less x.num_str y.num_str else not x.flag)
    else (if y.flag then not x.flag else num_str_less y.num_str x.num_str)

-- operator==.
unfoldable pub equal : BigNum → BigNum → Bool
unfolding less str_eq
equal x y =
    if str_eq x.num_str (b'0' ∷ []) && str_eq y.num_str (b'0' ∷ [])
    then true
    else if less x y
    then false
    else if less y x
    then false
    else true

-- operator!=, operator<=, operator> and operator>=.
unfoldable pub not_equal : BigNum → BigNum → Bool
unfolding equal
not_equal x y = not (equal x y)

unfoldable pub less_equal : BigNum → BigNum → Bool
unfolding equal
less_equal x y = less x y || equal x y

unfoldable pub greater : BigNum → BigNum → Bool
unfolding less
greater x y = less y x

unfoldable pub greater_equal : BigNum → BigNum → Bool
unfolding equal greater
greater_equal x y = greater x y || equal x y
