-- ===== src/Text.antt =====
-- Text as the library's code sees it: a std::string is the list of its character codes.
-- `reverse_str` is CppString::Reverse of src/CppString.cpp.
pub mod Reverse
pub mod Dict
pub mod Split
pub mod Replace
pub mod Trim
pub mod Count
pub mod Distance
mod Tests
use moon_lib.Common.{
  ℕ, zero, suc, ◌+◌, ◌-◌, Bool, true, false, ◌&&◌, List, [], ◌∷◌, ◌++◌, ltb, ◌==◌, get_or, length,
  if◌then◌else◌,
}

-- The loop of `Reverse`, with the rounds that are left.
unfoldable pub reverse_loop : List ℕ → ℕ → ℕ → List ℕ → List ℕ
reverse_loop src zero i out = out
reverse_loop src (suc rounds) i out =
    reverse_loop src rounds (i + 1) (out ++ get_or src (length src - i - 1) 0 ∷ [])

unfoldable pub reverse_str : List ℕ → List ℕ
unfolding reverse_loop
reverse_str src = reverse_loop src (length src) 0 []

-- operator== of std::string.
unfoldable pub str_eq : List ℕ → List ℕ → Bool
str_eq [] [] = true
str_eq [] (d ∷ t) = false
str_eq (c ∷ s) [] = false
str_eq (c ∷ s) (d ∷ t) = c == d && str_eq s t

-- operator< of std::string.
unfoldable pub str_less : List ℕ → List ℕ → Bool
str_less s [] = false
str_less [] (d ∷ t) = true
str_less (c ∷ s) (d ∷ t) =
    let rest = str_less s t in if ltb c d then true else if ltb d c then false else rest
