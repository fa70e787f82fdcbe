-- ===== src/Zookeeper/Absolute.antt =====
-- Absolute paths of src/CppZookeeper.cpp.
use moon_lib.Common.{ℕ, ◌≡◌, List, [], ◌∷◌, ◌++◌, arith, ◌==◌, true, Bool-cases, inl, inr}
use moon_lib.Zookeeper.{Manager, change_to_abs_path, ends_in_slash}

-- An absolute path.
abbrev pub IsAbsolute : List ℕ → Type 0
IsAbsolute [] = ⊥
IsAbsolute (c ∷ s) = c ≡ b'/'

pub absolute_stays :
    (m : Manager) (path : List ℕ) → IsAbsolute path → change_to_abs_path m path ≡ path
unfolding change_to_abs_path
absolute_stays m [] h = absurd h
absolute_stays m (c ∷ s) h = ground arith

append-IsAbsolute : (s t : List ℕ) → IsAbsolute s → IsAbsolute (s ++ t)
append-IsAbsolute [] t h = absurd h
append-IsAbsolute (c ∷ s) t h = h

-- With an absolute root path, every path becomes an absolute one.
pub change_to_abs_path-IsAbsolute :
    (m : Manager) (path : List ℕ) → IsAbsolute m.root_path → IsAbsolute (change_to_abs_path m path)
unfolding change_to_abs_path
change_to_abs_path-IsAbsolute m [] h = h
change_to_abs_path-IsAbsolute m (c ∷ s) h = elim (Bool-cases (c == b'/')) [
  | inl e ↦ rw e (slash c e)
  | inr e ↦ elim (Bool-cases (ends_in_slash m.root_path)) [
    | inl f ↦ rw (e, f) (append-IsAbsolute m.root_path (c ∷ s) h)
    | inr f ↦ rw (e, f) (append-IsAbsolute m.root_path (b'/' ∷ c ∷ s) h)
  ]
]
  where
    slash : (c : ℕ) → (c == b'/') ≡ true → c ≡ b'/'
    slash c e = ground arith
