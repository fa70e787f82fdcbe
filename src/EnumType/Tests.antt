-- ===== src/EnumType/Tests.antt =====
-- CppEnumType of src/CppEnumType.cpp with a table of two names.
use moon_lib.Common.{ℕ, ◌≡◌, refl, inl, inr, List, [], ◌∷◌, arith, if◌then◌else◌}
use moon_lib.EnumType.{invalid_value, new_enum, from_value, from_text, to_string}
use moon_lib.EnumType.Names.{Has, IsApart, is_listed, round_trips}

abbrev names : List (List ℕ)
names = (b'o' ∷ b'n' ∷ []) ∷ (b'o' ∷ b'f' ∷ b'f' ∷ []) ∷ []

new_run : to_string names new_enum ≡ invalid_value
unfolding to_string
new_run = refl

names-IsApart : IsApart names
names-IsApart = (other, ((λ h. h), tt))
  where
    other : Has (b'o' ∷ b'n' ∷ []) ((b'o' ∷ b'f' ∷ b'f' ∷ []) ∷ []) → ⊥
    other (inl e) = absurd (cc)
    other (inr k) = k

round_trips_example :
    (from_text names (to_string names (from_value 1)) ≡ from_value 1)
    × (to_string names (from_text names (b'o' ∷ []))
        ≡ (if is_listed (b'o' ∷ []) names then b'o' ∷ [] else invalid_value))
round_trips_example = round_trips names (from_value 1) (b'o' ∷ []) names-IsApart (omega arith)
