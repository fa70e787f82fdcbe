-- ===== src/Zookeeper/Tree/Forgotten.antt =====
-- `DeletePathRecursion` of src/CppZookeeper.cpp ends, and forgets the ephemeral nodes at the path and
-- below it, and no others.
use mathlib.Core.List.{append_assoc}
use moon_lib.Common.{
  ℕ, ◌≡◌, refl, ap, subst, ◌∙◌, Bool, true, ◌||◌, none, List, [], ◌∷◌, ◌++◌, arith, if◌then◌else◌,
  Bool-cases, inl, inr,
}
use moon_lib.Text.{str_eq}
use moon_lib.Text.Reverse.{str_eq_iff}
use moon_lib.Text.Dict.{find, find-cons, find-drop_key}
use moon_lib.Text.Split.{begins_with}
use moon_lib.Zookeeper.{Info, Manager}
use moon_lib.Zookeeper.Absolute.{IsAbsolute}
use moon_lib.Zookeeper.Tree.{drop_below, forget_path}
use moon_lib.Zookeeper.Tree.Deletes.{In, HasParent, IsOrdered}

-- The path itself, or a path below it.
abbrev pub under : List ℕ → List ℕ → Bool
under root p = str_eq root p || begins_with (root ++ b'/' ∷ []) p

begins_with-append : (p s : List ℕ) → begins_with p (p ++ s) ≡ true
unfolding begins_with
begins_with-append [] s = refl
begins_with-append (c ∷ p) s = ground (arith, begins_with-append p s)

begins_with-more : (p s t : List ℕ) → begins_with p s ≡ true → begins_with p (s ++ t) ≡ true
unfolding begins_with
begins_with-more [] s t h = refl
begins_with-more (c ∷ p) [] t h = cc
begins_with-more (c ∷ p) (d ∷ s) t h = ground (arith, begins_with-more p s t)

under-child : (root p k : List ℕ) → under root p ≡ true → under root (p ++ b'/' ∷ k) ≡ true
under-child root p k h = elim (Bool-cases (str_eq root p)) [
  | inl e ↦
      let same : root ≡ p = (str_eq_iff root p).0 e in
      let begins : begins_with (root ++ b'/' ∷ []) ((root ++ b'/' ∷ []) ++ k) ≡ true =
        begins_with-append (root ++ b'/' ∷ []) k in
      let at_p : begins_with (root ++ b'/' ∷ []) (p ++ b'/' ∷ k) ≡ true =
        subst (λ x. begins_with (root ++ b'/' ∷ []) (x ++ b'/' ∷ k) ≡ true) same
          (subst (λ x. begins_with (root ++ b'/' ∷ []) x ≡ true) (append_assoc root (b'/' ∷ []) k)
            begins) in
      ground arith
  | inr e ↦
      let begins : begins_with (root ++ b'/' ∷ []) p ≡ true = ground arith in
      let more = begins_with-more (root ++ b'/' ∷ []) p (b'/' ∷ k) begins in ground arith
]

under-root : (root : List ℕ) → under root root ≡ true
under-root root = let self : str_eq root root ≡ true = (str_eq_iff root root).1 refl in ground arith

abbrev pub AllUnder : List ℕ → List (List ℕ) → Type 0
AllUnder root [] = Unit
AllUnder root (x ∷ l) = (under root x ≡ true) × AllUnder root l

In-under : (root x : List ℕ) (l : List (List ℕ)) → AllUnder root l → In x l → under root x ≡ true
In-under root x [] h i = absurd i
In-under root x (y ∷ l) (h, hs) (inl e) = rw e h
In-under root x (y ∷ l) (h, hs) (inr i) = In-under root x l hs i

HasParent-under :
    (root x : List ℕ) (l : List (List ℕ))
    → AllUnder root l
    → HasParent root l x
    → under root x ≡ true
HasParent-under root x l h (inl e) = rw e (under-root root)
HasParent-under root x l h (inr (p, k, i, e)) = rw e (under-child root p k (In-under root p l h i))

pub IsOrdered-AllUnder : (root : List ℕ) (l : List (List ℕ)) → IsOrdered root l → AllUnder root l
IsOrdered-AllUnder root [] h = tt
IsOrdered-AllUnder root (x ∷ l) (h, hs) =
    let rest = IsOrdered-AllUnder root l hs in (HasParent-under root x l rest h, rest)

-- A path below an absolute one is absolute.
pub under-IsAbsolute : (root p : List ℕ) → IsAbsolute root → under root p ≡ true → IsAbsolute p
unfolding begins_with str_eq
under-IsAbsolute [] p a h = absurd a
under-IsAbsolute (c ∷ r) [] a h = cc
under-IsAbsolute (c ∷ r) (d ∷ s) a h = ground arith

-- What is found after entries below a path were taken out.
find-drop_below :
    (q pre : List ℕ) (l : List (List ℕ × Info))
    → find q (drop_below pre l) ≡ (if begins_with pre q then none else find q l)
unfolding drop_below
find-drop_below q pre [] = unfold find in ground arith
find-drop_below q pre ((p, i) ∷ l) = elim (Bool-cases (begins_with pre p)) [
  | inl e ↦ rw e (find-drop_below q pre l ∙ ground (arith, find-cons q p i l, same))
  | inr e ↦ rw e (
      find-cons q p i (drop_below pre l)
      ∙ ground (arith, find-drop_below q pre l, find-cons q p i l, same))
]
  where
    same : str_eq p q ≡ true → begins_with pre p ≡ begins_with pre q
    same e = ap (begins_with pre) ((str_eq_iff p q).0 e)

pub forget_path-find :
    (q root : List ℕ) (m : Manager)
    → find q (forget_path root m).ephemerals ≡ (if under root q then none else find q m.ephemerals)
unfolding forget_path
forget_path-find q root m =
    find-drop_key q root (drop_below (root ++ b'/' ∷ []) m.ephemerals)
    ∙ ground (arith, find-drop_below q (root ++ b'/' ∷ []) m.ephemerals)
