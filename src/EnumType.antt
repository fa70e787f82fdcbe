-- ===== src/EnumType.antt =====
-- CppEnumType of src/CppEnumType.h and src/CppEnumType.cpp: a value with the name that a table gives it. A
-- subclass is its table, with one name for each value.
pub mod Names
mod Tests
use moon_lib.Common.{
  ℕ, suc, ◌-◌, ◌^◌, Bool, true, false, not, ◌||◌, Option, none, some, List, [], ◌∷◌, ltb, ◌==◌,
  length, get_elem?, if◌then◌else◌,
}
use moon_lib.Text.{str_eq}

-- CppEnumType: `mValue`.
pub record EnumType : Type 0 where
  pub value : ℕ

-- `INVALID_VALUE`.
abbrev pub invalid_value : List ℕ
invalid_value =
    b'I' ∷ b'n' ∷ b'v' ∷ b'a' ∷ b'l' ∷ b'i' ∷ b'd' ∷ b'V' ∷ b'a' ∷ b'l' ∷ b'u' ∷ b'e' ∷ []

-- The constructors from a number and from nothing, which takes -1.
abbrev pub from_value : ℕ → EnumType
from_value value = record { value = value }

abbrev pub new_enum : EnumType
new_enum = record { value = 2 ^ 32 - 1 }

-- `StrToIntValue`: the place of the first such name, or the number of names. `EnumString` has
-- `EnumCount` names.
unfoldable pub str_to_int_value : List (List ℕ) → List ℕ → ℕ
str_to_int_value [] value_str = 0
str_to_int_value (name ∷ names) value_str =
    let rest = suc (str_to_int_value names value_str) in if str_eq value_str name then 0 else rest

-- The constructors from a text.
unfoldable pub from_text : List (List ℕ) → List ℕ → EnumType
from_text names value_str = record { value = str_to_int_value names value_str }

abbrev pub name_or_invalid : Option (List ℕ) → List ℕ
name_or_invalid none = invalid_value
name_or_invalid (some name) = name

-- `ToString`.
unfoldable pub to_string : List (List ℕ) → EnumType → List ℕ
to_string names e =
    if ltb e.value (length names) then name_or_invalid (get_elem? names e.value) else invalid_value

-- The operators.
unfoldable pub less : EnumType → EnumType → Bool
less e f = ltb e.value f.value

unfoldable pub greater : EnumType → EnumType → Bool
greater e f = less f e

unfoldable pub equal : EnumType → EnumType → Bool
equal e f = not (less e f || less f e)

unfoldable pub equal_text : List (List ℕ) → EnumType → List ℕ → Bool
equal_text names e value_str = str_eq (to_string names e) value_str

unfoldable pub equal_value : EnumType → ℕ → Bool
equal_value e value = e.value == value

-- `operator!=` by whichever operator== fits.
abbrev pub not_equal : Bool → Bool
not_equal is_equal = not is_equal
