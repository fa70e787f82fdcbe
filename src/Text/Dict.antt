-- ===== src/Text/Dict.antt =====
-- std::map with texts as keys, as src/CppZookeeper.cpp uses it: the entries in the order of the keys.
use moon_lib.Common.{
  ℕ, ◌≡◌, refl, sym, ◌∙◌, true, Option, none, some, List, [], ◌∷◌, arith, if◌then◌else◌, Bool-cases,
  inl, inr,
}
use moon_lib.Text.{str_eq, str_less}
use moon_lib.Text.Reverse.{str_eq_iff}

str_eq-congr : (i j k : List ℕ) → str_eq j k ≡ true → str_eq j i ≡ str_eq k i
str_eq-congr i j k e = rw ((str_eq_iff j k).0 e) refl

str_eq-meet : (i j k : List ℕ) → str_eq j i ≡ true → str_eq k i ≡ true → str_eq j k ≡ true
str_eq-meet i j k e f = (str_eq_iff j k).1 ((str_eq_iff j i).0 e ∙ sym ((str_eq_iff k i).0 f))

module _ {V : Type 0} where
  -- `find(k)`.
  unfoldable pub find : List ℕ → List (List ℕ × V) → Option V
  find k [] = none
  find k ((j, w) ∷ m) = let rest = find k m in if str_eq j k then some w else rest

  -- `m[k] = v`.
  unfoldable pub put : List ℕ → V → List (List ℕ × V) → List (List ℕ × V)
  put k v [] = (k, v) ∷ []
  put k v ((j, w) ∷ m) =
      let rest = (j, w) ∷ put k v m in
      if str_eq j k then (k, v) ∷ m else if str_less k j then (k, v) ∷ (j, w) ∷ m else rest

  -- `erase(k)`.
  unfoldable pub drop_key : List ℕ → List (List ℕ × V) → List (List ℕ × V)
  drop_key k [] = []
  drop_key k ((j, w) ∷ m) = let rest = drop_key k m in if str_eq j k then rest else (j, w) ∷ rest

  pub find-cons :
      (i j : List ℕ) (w : V) (m : List (List ℕ × V))
      → find i ((j, w) ∷ m) ≡ (if str_eq j i then some w else find i m)
  unfolding find
  find-cons i j w m = refl

  pub find-put :
      (i k : List ℕ) (v : V) (m : List (List ℕ × V))
      → find i (put k v m) ≡ (if str_eq k i then some v else find i m)
  unfolding put
  find-put i k v [] = find-cons i k v [] ∙ unfold find in refl
  find-put i k v ((j, w) ∷ m) = elim (Bool-cases (str_eq j k)) [
    | inl e ↦
        let same = str_eq-congr i j k e in
        rw e (find-cons i k v m ∙ ground (arith, find-cons i j w m, same))
    | inr e ↦ elim (Bool-cases (str_less k j)) [
      | inl f ↦ rw (e, f) (find-cons i k v ((j, w) ∷ m))
      | inr f ↦
          let ih = find-put i k v m in
          rw (e, f)
            (find-cons i j w (put k v m) ∙ ground (arith, find-cons i j w m, ih, str_eq-meet i j k))
    ]
  ]

  pub find-drop_key :
      (i k : List ℕ) (m : List (List ℕ × V))
      → find i (drop_key k m) ≡ (if str_eq k i then none else find i m)
  unfolding drop_key
  find-drop_key i k [] = unfold find in ground arith
  find-drop_key i k ((j, w) ∷ m) = elim (Bool-cases (str_eq j k)) [
    | inl e ↦
        let same = str_eq-congr i j k e in
        let ih = find-drop_key i k m in rw e (ih ∙ ground (arith, find-cons i j w m, same))
    | inr e ↦
        let ih = find-drop_key i k m in
        rw e (
          find-cons i j w (drop_key k m) ∙ ground (arith, find-cons i j w m, ih, str_eq-meet i j k))
  ]
