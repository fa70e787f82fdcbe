-- ===== src/BigNumPro/Product.antt =====
-- operator* of CppBigNumPro of src/CppBigNum.cpp.
pub mod Rows
pub mod Value
use moon_lib.Common.{
  ℕ, suc, ◌+◌, ◌-◌, ◌*◌, ◌/◌, ◌%◌, ◌^◌, Bool, true, false, not, ◌&&◌, ◌||◌, Option, none, some,
  List, [], ◌∷◌, ◌++◌, ltb, leb, ◌==◌, if◌then◌else◌, replicate,
}
use moon_lib.BigNumPro.{BigNumPro, base, is_empty, from_uint32, from_uint64, negative, equal, add}

infixl 5 ◌>>=◌
abbrev pub ◌>>=◌ : {A B : Type 0} → Option A → (A → Option B) → Option B
none >>= f = none
some a >>= f = f a

-- The product of a number with one digit; the arithmetic is on uint64_t.
unfoldable pub mul_row : ℕ → ℕ → List ℕ → List ℕ
mul_row last d [] = if last == 0 then [] else last ∷ []
mul_row last d (x ∷ xs) =
    let curr = (x * d + last) % 2 ^ 64 in (curr % base) ∷ mul_row (curr / base) d xs

-- The loop over the second number's digits, the lowest first, with the zeros for the digit's place.
unfoldable pub mul_rows : List ℕ → List ℕ → ℕ → BigNumPro → Option BigNumPro
mul_rows xs [] k total = some total
mul_rows xs (y ∷ ys) k total = do
  total' ← add total (record { flag = true; num_vec = replicate k 0 ++ mul_row 0 y xs })
  mul_rows xs ys (k + 1) total'

-- The product of the magnitudes: two numbers of one digit are multiplied as uint64_t.
unfoldable pub magnitude : List ℕ → List ℕ → Option BigNumPro
magnitude (x ∷ []) (y ∷ []) = some (from_uint64 (x * y % 2 ^ 64))
magnitude xs ys = mul_rows xs ys 0 (record { flag = true; num_vec = [] })

-- The sign of a product or a quotient.
unfoldable pub with_sign : BigNumPro → BigNumPro → BigNumPro → BigNumPro
with_sign x y r =
    let same = if x.flag then y.flag else not y.flag in
    record { flag = if is_empty r.num_vec then true else same; num_vec = r.num_vec }

abbrev pub minus_one : BigNumPro
minus_one = record { flag = false; num_vec = 1 ∷ [] }

-- operator*. `none` is a loop of a sum that does not end.
unfoldable pub mul : BigNumPro → BigNumPro → Option BigNumPro
mul x y =
    if is_empty x.num_vec || is_empty y.num_vec
    then some (from_uint32 0)
    else if equal y (from_uint32 1)
    then some x
    else if equal y minus_one
    then some (negative x)
    else (do r ← magnitude x.num_vec y.num_vec; some (with_sign x y r))
