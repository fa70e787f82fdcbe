-- ===== src/Lru/Sets.antt =====
-- Sets and queues as lists: what std::unordered_set and std::list do in src/CppLRU.h.
use moon_lib.Common.{◌+◌, ◌≡◌, ◌≢◌, refl, Bool, true, false, List, [], ◌∷◌, ◌++◌, arith, length}

module _ {ℓ} {A : Type ℓ} (dec : Discrete A) where
  -- `find(a) != end()`.
  unfoldable pub contains : List A → A → Bool
  contains [] a = false
  contains (x ∷ xs) a = elim (dec x a) [ yes _ ↦ true | no _ ↦ contains xs a ]

  -- The removal of the first element that equals `a`.
  unfoldable pub erase : List A → A → List A
  erase [] a = []
  erase (x ∷ xs) a = elim (dec x a) [ yes _ ↦ xs | no _ ↦ x ∷ erase xs a ]

  abbrev pub IsDistinct : List A → Type 0
  IsDistinct [] = Unit
  IsDistinct (x ∷ xs) = (contains xs x ≡ false) × IsDistinct xs

  pub contains-erase_ne : (xs : List A) (a b : A) → a ≢ b → contains (erase xs a) b ≡ contains xs b
  unfolding contains erase
  contains-erase_ne [] a b h = refl
  contains-erase_ne (x ∷ xs) a b h = ground (arith, contains-erase_ne xs a b h)

  pub contains-erase_self : (xs : List A) (a : A) → IsDistinct xs → contains (erase xs a) a ≡ false
  unfolding contains erase
  contains-erase_self [] a h = refl
  contains-erase_self (x ∷ xs) a h = ground (arith, contains-erase_self xs a h.1)

  pub erase-IsDistinct : (xs : List A) (a : A) → IsDistinct xs → IsDistinct (erase xs a)
  unfolding contains erase
  erase-IsDistinct [] a h = tt
  erase-IsDistinct (x ∷ xs) a h =
      ground (arith, erase-IsDistinct xs a h.1, contains-erase_ne xs a x)

  pub length-erase :
      (xs : List A) (a : A) → contains xs a ≡ true → length (erase xs a) + 1 ≡ length xs
  unfolding contains erase
  length-erase [] a h = ground arith
  length-erase (x ∷ xs) a h = ground (arith, length-erase xs a)

  pub contains-append_last :
      (xs : List A) (a b : A) → contains xs b ≡ false → a ≢ b → contains (xs ++ a ∷ []) b ≡ false
  unfolding contains
  contains-append_last [] a b h n = ground arith
  contains-append_last (x ∷ xs) a b h n = ground (arith, contains-append_last xs a b)

  pub append_last-IsDistinct :
      (xs : List A) (a : A) → IsDistinct xs → contains xs a ≡ false → IsDistinct (xs ++ a ∷ [])
  unfolding contains
  append_last-IsDistinct [] a d h = (refl, tt)
  append_last-IsDistinct (x ∷ xs) a d h =
      ground (arith, append_last-IsDistinct xs a d.1, contains-append_last xs a x d.0)
