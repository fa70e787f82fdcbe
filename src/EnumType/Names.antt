-- ===== src/EnumType/Names.antt =====
-- Names and values of CppEnumType of src/CppEnumType.cpp.
use moon_lib.Common.{
  ℕ, zero, suc, ◌<◌, ◌≡◌, ◌↔◌, ◌⊎◌, refl, sym, subst, ◌∙◌, Bool, true, false, some, List, [], ◌∷◌,
  ltb, length, get_elem?, if◌then◌else◌, inl, inr, Bool-cases, arith,
}
use moon_lib.Text.{str_eq}
use moon_lib.Text.Reverse.{str_eq_iff}
use moon_lib.EnumType.{EnumType, invalid_value, str_to_int_value, from_text, to_string, less, equal}

-- The name is in the table.
abbrev pub Has : List ℕ → List (List ℕ) → Type 0
Has s [] = ⊥
Has s (name ∷ names) = (s ≡ name) ⊎ Has s names

-- The names differ.
abbrev pub IsApart : List (List ℕ) → Type 0
IsApart [] = Unit
IsApart (name ∷ names) = (Has name names → ⊥) × IsApart names

get_elem?-Has :
    (names : List (List ℕ)) (i : ℕ)
    → i < length names
    → (s : List ℕ) × (get_elem? names i ≡ some s) × Has s names
get_elem?-Has [] i h = absurd (omega arith)
get_elem?-Has (name ∷ names) zero h = (name, refl, inl refl)
get_elem?-Has (name ∷ names) (suc i) h =
    let (s, e, k) = get_elem?-Has names i (omega arith) in (s, e, inr k)

Has-place : (names : List (List ℕ)) (i : ℕ) (s : List ℕ) → get_elem? names i ≡ some s → Has s names
Has-place [] i s h = absurd (cc)
Has-place (name ∷ names) zero s h = inl (found name s h)
  where
    found : (x y : List ℕ) → some x ≡ some y → y ≡ x
    found x y e = cc
Has-place (name ∷ names) (suc i) s h = inr (Has-place names i s h)

-- The search finds the place of a name.
str_to_int_value-place :
    (names : List (List ℕ)) (i : ℕ) (s : List ℕ)
    → IsApart names
    → get_elem? names i ≡ some s
    → str_to_int_value names s ≡ i
unfolding str_to_int_value
str_to_int_value-place [] i s a h = absurd (cc)
str_to_int_value-place (name ∷ names) zero s a h =
    let same : s ≡ name = found name s h in rw ((str_eq_iff s name).1 same) refl
  where
    found : (x y : List ℕ) → some x ≡ some y → y ≡ x
    found x y e = cc
str_to_int_value-place (name ∷ names) (suc i) s (n, a) h =
    let ih = str_to_int_value-place names i s a h in
    elim (Bool-cases (str_eq s name)) [
      | inl e ↦
          let same : s ≡ name = (str_eq_iff s name).0 e in
          absurd (n (subst (λ x. Has x names) same (Has-place names i s h)))
      | inr e ↦ rw (e, ih) refl
    ]

-- Whether a text is a name of the table.
unfoldable pub is_listed : List ℕ → List (List ℕ) → Bool
is_listed s [] = false
is_listed s (name ∷ names) = let rest = is_listed s names in if str_eq s name then true else rest

printed-next :
    (name : List ℕ) (names : List (List ℕ)) (s : List ℕ)
    → str_eq s name ≡ false
    → to_string (name ∷ names) (from_text (name ∷ names) s) ≡ to_string names (from_text names s)
unfolding to_string from_text str_to_int_value
printed-next name names s e =
    let step : ltb (suc (str_to_int_value names s)) (suc (length names))
        ≡ ltb (str_to_int_value names s) (length names) =
      ground arith in
    rw (e, step) refl

to_string-from_text :
    (names : List (List ℕ)) (s : List ℕ)
    → to_string names (from_text names s) ≡ (if is_listed s names then s else invalid_value)
to_string-from_text [] s = unfold to_string is_listed from_text str_to_int_value in refl
to_string-from_text (name ∷ names) s = elim (Bool-cases (str_eq s name)) [
  | inl e ↦
      unfold to_string from_text str_to_int_value is_listed in
      let small : ltb 0 (suc (length names)) ≡ true = ground arith in
      rw (e, small) (sym ((str_eq_iff s name).0 e))
  | inr e ↦
      printed-next name names s e ∙ to_string-from_text names s ∙ unfold is_listed in rw e refl
]

from_text-to_string :
    (names : List (List ℕ)) (e : EnumType)
    → IsApart names
    → e.value < length names
    → from_text names (to_string names e) ≡ e
unfolding to_string from_text
from_text-to_string names e a h =
    let (s, there, k) = get_elem?-Has names e.value h in
    let small : ltb e.value (length names) ≡ true = ground arith in
    rw (small, there, str_to_int_value-place names e.value s a there) refl

-- Where the names of the table differ, every value of the table is read back from the text that is
-- printed of it. Every name is printed again as it was read, and any other text is printed as the text
-- of an invalid value.
pub round_trips :
    (names : List (List ℕ)) (e : EnumType) (s : List ℕ)
    → IsApart names
    → e.value < length names
    → (from_text names (to_string names e) ≡ e)
      × (to_string names (from_text names s) ≡ (if is_listed s names then s else invalid_value))
round_trips names e s a h = (from_text-to_string names e a h, to_string-from_text names s)

-- Operator== by operator< is the equality of the values.
pub equal-value : (e f : EnumType) → (equal e f ≡ true) ↔ (e.value ≡ f.value)
unfolding equal less
equal-value e f = (ground arith, ground arith)
