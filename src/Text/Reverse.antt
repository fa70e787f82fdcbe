-- ===== src/Text/Reverse.antt =====
-- CppString::Reverse of src/CppString.cpp reverses, and texts are compared as they should be.
use mathlib.Core.List.{append-nil, append_assoc, reverse-append}
use moon_lib.Common.{
  ℕ, zero, suc, ◌+◌, ◌-◌, ◌≡◌, ◌↔◌, refl, sym, ap, ◌∙◌, true, List, [], ◌∷◌, ◌++◌, reverse, arith,
  get_or, length, length-append,
}
use moon_lib.Text.{reverse_loop, reverse_str, str_eq}

get_or-append : (xs ys : List ℕ) (y : ℕ) (d : ℕ) → get_or (xs ++ y ∷ ys) (length xs) d ≡ y
get_or-append [] ys y d = refl
get_or-append (x ∷ xs) ys y d = get_or-append xs ys y d

-- A list that is not empty ends in an element.
last_split :
    (x : ℕ) (xs : List ℕ)
    → (ys : List ℕ) × (z : ℕ) × (x ∷ xs ≡ ys ++ z ∷ []) × (length ys ≡ length xs)
last_split x [] = ([], x, refl, refl)
last_split x (w ∷ xs) = let (ys, z, e, n) = last_split w xs in (x ∷ ys, z, ap (◌∷◌ x) e, ap suc n)

reverse-last : (ys : List ℕ) (z : ℕ) → reverse (ys ++ z ∷ []) ≡ z ∷ reverse ys
reverse-last ys z = reverse-append ys (z ∷ [])

-- The loop at a text of which the first part, `todo`, is still to be copied.
reverse_loop-append :
    (n : ℕ) (todo done out src : List ℕ) (i : ℕ)
    → src ≡ todo ++ done
    → length todo ≡ n
    → length done ≡ i
    → reverse_loop src n i out ≡ out ++ reverse todo
unfolding reverse_loop
reverse_loop-append zero [] done out src i e l m = sym (append-nil out)
reverse_loop-append zero (x ∷ todo) done out src i e l m = absurd (omega arith)
reverse_loop-append (suc n) [] done out src i e l m = absurd (omega arith)
reverse_loop-append (suc n) (x ∷ todo) done out src i e l m =
    let (ys, z, split, shorter) = last_split x todo in
    let whole : src ≡ ys ++ z ∷ done =
      e ∙ ap (λ l. l ++ done) split ∙ append_assoc ys (z ∷ []) done in
    let at_end : length src - i - 1 ≡ length ys =
      omega (arith, ap length whole, length-append ys (z ∷ done), m) in
    let taken : get_or src (length src - i - 1) 0 ≡ z =
      rw (at_end, whole) (get_or-append ys done z 0) in
    rw taken (
      reverse_loop-append n ys (z ∷ done) (out ++ z ∷ []) src (i + 1) whole
        (omega (arith, l, shorter)) (omega (arith, m))
      ∙ append_assoc out (z ∷ []) (reverse ys)
      ∙ ap (◌++◌ out) (sym (ap reverse split ∙ reverse-last ys z)))

-- `Reverse` gives the characters in the opposite order.
pub reverse_str-reverse : (s : List ℕ) → reverse_str s ≡ reverse s
unfolding reverse_str
reverse_str-reverse s = reverse_loop-append (length s) s [] [] s 0 (sym (append-nil s)) refl refl

pub str_eq_iff : (s t : List ℕ) → (str_eq s t ≡ true) ↔ (s ≡ t)
unfolding str_eq
str_eq_iff [] [] = (λ _. refl, λ _. refl)
str_eq_iff [] (d ∷ t) = (ground arith, ground arith)
str_eq_iff (c ∷ s) [] = (ground arith, ground arith)
str_eq_iff (c ∷ s) (d ∷ t) = (ground (arith, str_eq_iff s t), ground (arith, str_eq_iff s t))

pub str_eq_self : (s : List ℕ) → str_eq s s ≡ true
str_eq_self s = (str_eq_iff s s).1 refl
