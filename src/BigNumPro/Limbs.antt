-- ===== src/BigNumPro/Limbs.antt =====
-- Digits in base 2 ^ 32 and the numbers that they stand for, for CppBigNumPro of src/CppBigNum.cpp.
use moon_lib.Common.{ℕ, ◌+◌, ◌*◌, ◌<◌, ◌≡◌, true, List, [], ◌∷◌}
use moon_lib.Common.Int.{ℤ}
pub use moon_lib.Common.Int.{signed}
use moon_lib.BigNumPro.{BigNumPro, base, is_empty}

abbrev pub IsLimbs : List ℕ → Type 0
IsLimbs [] = Unit
IsLimbs (x ∷ xs) = (x < base) × IsLimbs xs

-- The number of digits, the lowest first.
unfoldable pub limb_value : List ℕ → ℕ
limb_value [] = 0
limb_value (x ∷ xs) = x + base * limb_value xs

-- The highest digit is not zero.
abbrev pub IsTrimmed : List ℕ → Type 0
IsTrimmed [] = Unit
IsTrimmed (x ∷ []) = 0 < x
IsTrimmed (x ∷ y ∷ ys) = IsTrimmed (y ∷ ys)

-- The integer that an object stands for.
unfoldable pub value : BigNumPro → ℤ
value x = signed x.flag (limb_value x.num_vec)

-- What the class's comment asks of the digits, with zero not negative.
pub record IsCanonical (x : BigNumPro) : Type 0 where
  pub limbs : IsLimbs x.num_vec
  pub trimmed : IsTrimmed x.num_vec
  pub zero_flag : is_empty x.num_vec ≡ true → x.flag ≡ true
