-- ===== src/Zookeeper/Tree/Deletes.antt =====
-- `DeletePathRecursion` of src/CppZookeeper.cpp deletes children before their parents.

use moon_lib.Common.{
  ℕ, zero, suc, ◌≡◌, ◌⊎◌, refl, Option, none, some, List, [], ◌∷◌, ◌++◌, Bool-cases, inl, inr,
}
use moon_lib.Zookeeper.{Rc, is_ok, is_no_node, Manager, change_to_abs_path}
use moon_lib.Zookeeper.Tree.{Client, push_children, collect}

abbrev pub In : List ℕ → List (List ℕ) → Type 0
In x [] = ⊥
In x (y ∷ l) = (x ≡ y) ⊎ In x l

-- A path is the root of the walk, or is a child of a path of the list.
abbrev pub HasParent : List ℕ → List (List ℕ) → List ℕ → Type 0
HasParent root l x = (x ≡ root) ⊎ ((p : List ℕ) × (k : List ℕ) × In p l × (x ≡ p ++ b'/' ∷ k))

-- Every path stands before its parent.
abbrev pub IsOrdered : List ℕ → List (List ℕ) → Type 0
IsOrdered root [] = Unit
IsOrdered root (x ∷ l) = HasParent root l x × IsOrdered root l

abbrev AllParents : List ℕ → List (List ℕ) → List (List ℕ) → Type 0
AllParents root l [] = Unit
AllParents root l (x ∷ xs) = HasParent root l x × AllParents root l xs

HasParent-cons :
    (root y x : List ℕ) (l : List (List ℕ)) → HasParent root l x → HasParent root (y ∷ l) x
HasParent-cons root y x l (inl e) = inl e
HasParent-cons root y x l (inr (p, k, i, e)) = inr (p, k, inr i, e)

AllParents-cons :
    (root y : List ℕ) (l xs : List (List ℕ)) → AllParents root l xs → AllParents root (y ∷ l) xs
AllParents-cons root y l [] h = tt
AllParents-cons root y l (x ∷ xs) (h, hs) =
    (HasParent-cons root y x l h, AllParents-cons root y l xs hs)

push_children-parents :
    (root curr : List ℕ) (l children stack : List (List ℕ))
    → AllParents root (curr ∷ l) stack
    → AllParents root (curr ∷ l) (push_children curr children stack)
unfolding push_children
push_children-parents root curr l [] stack h = h
push_children-parents root curr l (k ∷ ks) stack h =
    push_children-parents root curr l ks ((curr ++ b'/' ∷ k) ∷ stack)
      (inr (curr, k, inl refl, refl), h)

module _ {S : Type 0} (c : Client S) where
  -- The result of the walk.
  abbrev pub Walked : List ℕ → Option (S × (Rc × List (List ℕ))) → Type 0
  Walked root none = Unit
  Walked root (some (s, (rc, nodes))) = IsOrdered root nodes

  collect-IsOrdered :
      (m : Manager) (root : List ℕ) (fuel : ℕ) (stack nodes : List (List ℕ)) (s : S)
      → AllParents root nodes stack
      → IsOrdered root nodes
      → Walked root (collect c m fuel stack nodes s)
  unfolding collect
  collect-IsOrdered m root zero stack nodes s h o = tt
  collect-IsOrdered m root (suc fuel) [] nodes s h o = o
  collect-IsOrdered m root (suc fuel) (curr ∷ stack) nodes s (h, hs) o =
      let r = c.zoo_get_children (change_to_abs_path m curr) s in
      let deeper =
        push_children-parents root curr nodes r.1.1 stack
          (AllParents-cons root curr nodes stack hs) in
      elim (Bool-cases (is_ok r.1.0)) [
        | inl e ↦ rw e (
            collect-IsOrdered m root fuel (push_children curr r.1.1 stack) (curr ∷ nodes) r.0 deeper
              (h, o))
        | inr e ↦ elim (Bool-cases (is_no_node r.1.0)) [
          | inl f ↦ rw (e, f) (collect-IsOrdered m root fuel stack nodes r.0 hs o)
          | inr f ↦ rw (e, f) o
        ]
      ]

  -- Whatever the server answers, every path that the walk lists for deletion stands before its parent,
  -- except the path that the walk began with.
  pub collect_order :
      (m : Manager) (fuel : ℕ) (root : List ℕ) (s : S)
      → Walked root (collect c m fuel (root ∷ []) [] s)
  collect_order m fuel root s = collect-IsOrdered m root fuel (root ∷ []) [] s (inl refl, tt) tt
