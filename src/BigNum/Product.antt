-- ===== src/BigNum/Product.antt =====
-- operator* of src/CppBigNum.cpp.
pub mod Value
pub mod Sign
use moon_lib.Common.{
  ℕ, suc, ◌+◌, ◌-◌, ◌*◌, ◌/◌, ◌%◌, ◌^◌, Bool, true, false, not, ◌&&◌, ◌||◌, Option, none, some,
  List, [], ◌∷◌, ◌++◌, reverse, ltb, leb, ◌==◌, if◌then◌else◌,
}
use moon_lib.Text.{str_eq, reverse_str}
use moon_lib.BigNum.{BigNum, from_str, less, abs, zero_num}
use moon_lib.BigNum.Decimal.{from_uint, from_string}
use moon_lib.BigNum.Sum.{add}

infixl 5 ◌>>=◌
abbrev pub ◌>>=◌ : {A B : Type 0} → Option A → (A → Option B) → Option B
none >>= f = none
some a >>= f = f a

-- The product of the digits of one number, lowest first, with one digit of the other.
unfoldable pub mul_row : ℕ → ℕ → List ℕ → List ℕ
mul_row last_flag d [] = if last_flag == 0 then [] else (last_flag + b'0') ∷ []
mul_row last_flag d (x ∷ xs) =
    let curr = (x - b'0') * d + last_flag in
    ((if leb 10 curr then curr % 10 else curr) + b'0')
    ∷ mul_row (if leb 10 curr then curr / 10 else 0) d xs

-- The loop over the digits of the second number, lowest first. `zeros` is `currValueMul`.
unfoldable pub mul_rows : List ℕ → List ℕ → List ℕ → BigNum → Option BigNum
mul_rows xs [] zeros total = some total
mul_rows xs (y ∷ ys) zeros total = do
  total' ← add total (from_str (reverse_str (mul_row 0 (y - b'0') xs) ++ zeros))
  mul_rows xs ys (zeros ++ b'0' ∷ []) total'

-- The sign of a product or a quotient: zero is not negative.
unfoldable pub with_sign : BigNum → BigNum → BigNum → BigNum
with_sign x y r =
    let same = if x.flag then y.flag else not y.flag in
    record { flag = if str_eq r.num_str (b'0' ∷ []) then true else same; num_str = r.num_str }

-- uint32_t(-1).
abbrev pub small_limit : ℕ
small_limit = 2 ^ 32 - 1

-- operator*. `none` is a loop of a sum that does not end.
unfoldable pub mul : BigNum → BigNum → Option BigNum
mul x y =
    let quick = from_uint (from_string x.num_str * from_string y.num_str % 2 ^ 64) in
    let long = mul_rows (reverse x.num_str) (reverse y.num_str) [] zero_num in
    let magnitude =
      if less (abs x) (from_uint small_limit) && less (abs y) (from_uint small_limit)
      then some quick
      else long in
    do r ← magnitude; some (with_sign x y r)
