-- ===== src/BigNum/Assign.antt =====
-- The operators of src/CppBigNum.cpp that change the object: each gives the object after the call
-- and the value that the call returns.
use moon_lib.Common.{◌≡◌, Option, none, some}
use moon_lib.Common.Int.{pos, ◌+ℤ◌}
use moon_lib.BigNum.{BigNum}
use moon_lib.BigNum.Parse.{value, IsCanonical}
use moon_lib.BigNum.Decimal.{from_uint, from_uint-IsCanonical}
use moon_lib.BigNum.Sum.{add, sub}
use moon_lib.BigNum.Sum.Value.{add-Gives}
use moon_lib.BigNum.Product.{mul}
use moon_lib.BigNum.Quotient.{div, mod_num}

-- `*this = r; return *this;`
unfoldable pub store : Option BigNum → Option (BigNum × BigNum)
store none = none
store (some r) = some (r, r)

unfoldable pub add_assign : BigNum → BigNum → Option (BigNum × BigNum)
add_assign x y = store (add x y)

unfoldable pub sub_assign : BigNum → BigNum → Option (BigNum × BigNum)
sub_assign x y = store (sub x y)

unfoldable pub mul_assign : BigNum → BigNum → Option (BigNum × BigNum)
mul_assign x y = store (mul x y)

unfoldable pub div_assign : BigNum → BigNum → Option (BigNum × BigNum)
div_assign x y = store (div x y)

unfoldable pub mod_assign : BigNum → BigNum → Option (BigNum × BigNum)
mod_assign x y = store (mod_num x y)

-- operator++ in front.
unfoldable pub pre_increment : BigNum → Option (BigNum × BigNum)
pre_increment x = store (add x (from_uint 1))

-- operator++ behind: the copy that was made first is returned.
unfoldable pub return_old : BigNum → Option (BigNum × BigNum) → Option (BigNum × BigNum)
return_old old none = none
return_old old (some (x, _)) = some (x, old)

unfoldable pub post_increment : BigNum → Option (BigNum × BigNum)
post_increment x = return_old x (add_assign x (from_uint 1))

-- Both forms of operator++ end on a canonical number and leave the canonical object of the integer
-- one above; the form in front returns that object and the form behind the old one.
pub increment-value :
    (x : BigNum)
    → IsCanonical x
    → (z : BigNum) × (pre_increment x ≡ some (z, z))
      × (post_increment x ≡ some (z, x))
      × IsCanonical z
      × (value z ≡ value x +ℤ pos 1)
unfolding pre_increment post_increment return_old add_assign store
increment-value x c =
    let (one_c, one_v) = from_uint-IsCanonical 1 in
    let (z, run, zc, zv) = add-Gives x (from_uint 1) c one_c in
    (z, rw run, rw run, zc, rw (← one_v) zv)
