-- ===== src/Zookeeper/Tree/Ends.antt =====
-- The walk of `DeletePathRecursion` of src/CppZookeeper.cpp ends on a tree, and what the whole call
-- leaves of the ephemeral nodes.
use mathlib.Core.List.{append_assoc, append-nil}
use moon_lib.Common.{
  ℕ, zero, suc, ◌+◌, ◌<◌, ◌≡◌, refl, sym, ap, ◌∙◌, true, false, Option, none, some, List, [], ◌∷◌,
  ◌++◌, map, arith, if◌then◌else◌, Bool-cases, inl, inr,
}
use moon_lib.Text.{str_eq}
use moon_lib.Text.Reverse.{str_eq_iff}
use moon_lib.Text.Dict.{find, find-drop_key}
use moon_lib.Zookeeper.{Rc, ok, is_ok, is_no_node, Info, Manager, change_to_abs_path}
use moon_lib.Zookeeper.Absolute.{IsAbsolute, absolute_stays, change_to_abs_path-IsAbsolute}
use moon_lib.Zookeeper.Requests.{erase_found}
use moon_lib.Zookeeper.Multi.{Op, delete_op, add_delete_op, proc_op, proc_multi, multi}
use moon_lib.Zookeeper.Tree.{
  Client, After, call_multi, push_children, collect, delete_ops, forget_path, delete_nodes,
  after_collect, delete_path_recursion,
}
use moon_lib.Zookeeper.Tree.Deletes.{Walked, collect_order}
use moon_lib.Zookeeper.Tree.Forgotten.{
  under, AllUnder, IsOrdered-AllUnder, under-IsAbsolute, forget_path-find,
}

-- The sizes of paths, and of the children of a path.
unfoldable pub total : (List ℕ → ℕ) → List (List ℕ) → ℕ
total size [] = 0
total size (p ∷ l) = size p + total size l

unfoldable pub total_children : (List ℕ → ℕ) → List ℕ → List (List ℕ) → ℕ
total_children size p [] = 0
total_children size p (k ∷ ks) = size (p ++ b'/' ∷ k) + total_children size p ks

total-push_children :
    (size : List ℕ → ℕ) (p : List ℕ) (ks stack : List (List ℕ))
    → total size (push_children p ks stack) ≡ total_children size p ks + total size stack
unfolding total total_children push_children
total-push_children size p [] stack = omega arith
total-push_children size p (k ∷ ks) stack =
    omega (arith, total-push_children size p ks ((p ++ b'/' ∷ k) ∷ stack))

-- What the server lists is a tree: a node is larger than its children together.
abbrev pub IsTree : {S : Type 0} → Client S → Manager → (List ℕ → ℕ) → Type 0
IsTree {S} c m size =
    (p : List ℕ) (s : S)
    → (0 < size p)
      × (total_children size p (c.zoo_get_children (change_to_abs_path m p) s).1.1 < size p)

-- An operation that has a value.
abbrev pub Defined : {A : Type 0} → Option A → Type 0
Defined {A} o = (a : A) × (o ≡ some a)

collect_ends :
    {S : Type 0} (c : Client S) (m : Manager) (size : List ℕ → ℕ) (fuel : ℕ)
    (stack nodes : List (List ℕ)) (s : S)
    → IsTree c m size
    → total size stack < fuel
    → Defined (collect c m fuel stack nodes s)
unfolding collect total
collect_ends c m size zero stack nodes s t h = absurd (omega arith)
collect_ends c m size (suc fuel) [] nodes s t h = (_, refl)
collect_ends c m size (suc fuel) (curr ∷ stack) nodes s t h =
    let r = c.zoo_get_children (change_to_abs_path m curr) s in
    let (larger, tree) = t curr s in
    let deeper : total size (push_children curr r.1.1 stack) < fuel =
      omega (arith, total-push_children size curr r.1.1 stack) in
    let rest : total size stack < fuel = omega arith in
    elim (Bool-cases (is_ok r.1.0)) [
      | inl e ↦
          rw e (
            collect_ends c m size fuel (push_children curr r.1.1 stack) (curr ∷ nodes) r.0 t deeper)
      | inr e ↦ elim (Bool-cases (is_no_node r.1.0)) [
        | inl f ↦ rw (e, f) (collect_ends c m size fuel stack nodes r.0 t rest)
        | inr f ↦ rw (e, f) (_, refl)
      ]
    ]

-- The delete operations of absolute paths.
delete_ops-map :
    (m : Manager) (root : List ℕ) (nodes : List (List ℕ)) (ops : List Op)
    → IsAbsolute root
    → AllUnder root nodes
    → delete_ops m nodes ops ≡ ops ++ map delete_op nodes
unfolding delete_ops add_delete_op
delete_ops-map m root [] ops a u = sym (append-nil ops)
delete_ops-map m root (p ∷ nodes) ops a (u, us) =
    rw (absolute_stays m p (under-IsAbsolute root p a u)) (
      delete_ops-map m root nodes (ops ++ delete_op p ∷ []) a us
      ∙ append_assoc ops (delete_op p ∷ []) (map delete_op nodes))

-- A path that is not below the root is not among the paths below it.
apart : (root p q : List ℕ) → under root p ≡ true → under root q ≡ false → str_eq p q ≡ false
apart root p q u v = elim (Bool-cases (str_eq p q)) [
  | inl e ↦ absurd (absurd_Bool (sym u ∙ ap (under root) ((str_eq_iff p q).0 e) ∙ v))
  | inr e ↦ e
]
  where
    absurd_Bool : true ≡ false → ⊥
    absurd_Bool h = cc

find-erase_found :
    (o : Option Info) (q p : List ℕ) (m : Manager)
    → str_eq p q ≡ false
    → find q (erase_found o p m).ephemerals ≡ find q m.ephemerals
find-erase_found none q p m e = refl
find-erase_found (some i) q p m e = find-drop_key q p m.ephemerals ∙ ground arith

-- The results of the delete operations leave the other paths.
find-proc_multi :
    (q root : List ℕ) (nodes : List (List ℕ)) (results : List Rc) (m : Manager)
    → AllUnder root nodes
    → under root q ≡ false
    → find q (proc_multi (map delete_op nodes) results m).ephemerals ≡ find q m.ephemerals
unfolding proc_multi proc_op
find-proc_multi q root [] results m u v = refl
find-proc_multi q root (p ∷ nodes) [] m u v = refl
find-proc_multi q root (p ∷ nodes) (rc ∷ results) m (u, us) v =
    let erased = find-erase_found (find p m.ephemerals) q p m (apart root p q u v) in
    find-proc_multi q root nodes results _ us v ∙ ground arith

not_ok : (rc : Rc) → is_ok rc ≡ false → rc ≡ ok → ⊥
not_ok rc h e = absurd_Bool (sym (ap is_ok e) ∙ h)
  where
    absurd_Bool : true ≡ false → ⊥
    absurd_Bool q = cc

module _ {S : Type 0} (c : Client S) where
  -- When the code is ok, the ephemeral nodes at the path and below it are gone, and all others stay.
  abbrev pub ForgetsBelow : List ℕ → Manager → After S → Type 0
  ForgetsBelow root m a =
      a.code ≡ ok
      → (q : List ℕ)
      → find q a.manager.ephemerals ≡ (if under root q then none else find q m.ephemerals)

  forget_after :
      (root : List ℕ) (nodes : List (List ℕ)) (results : List Rc) (m : Manager) (q : List ℕ)
      → AllUnder root nodes
      → find q (forget_path root (proc_multi (map delete_op nodes) results m)).ephemerals
        ≡ (if under root q then none else find q m.ephemerals)
  forget_after root nodes results m q u =
      forget_path-find q root (proc_multi (map delete_op nodes) results m)
      ∙ elim (Bool-cases (under root q)) [
        | inl e ↦ rw e refl
        | inr e ↦ rw e (find-proc_multi q root nodes results m u e)
      ]

  delete_nodes-ForgetsBelow :
      (root : List ℕ) (nodes : List (List ℕ)) (s : S) (m : Manager)
      → IsAbsolute root
      → AllUnder root nodes
      → ForgetsBelow root m (delete_nodes c root nodes s m)
  unfolding delete_nodes call_multi multi
  delete_nodes-ForgetsBelow root [] s m a u = λ e q. forget_path-find q root m
  delete_nodes-ForgetsBelow root (p ∷ nodes) s m a u =
      let ops = map delete_op (p ∷ nodes) in
      let r = c.zoo_multi ops s in
      rw (delete_ops-map m root (p ∷ nodes) [] a u) (elim (Bool-cases (is_ok r.1.0)) [
        | inl e ↦ rw e (λ _ q. forget_after root (p ∷ nodes) r.1.1 m q u)
        | inr e ↦ rw e (λ f q. absurd (not_ok r.1.0 e f))
      ])

  after_collect-ForgetsBelow :
      (root : List ℕ) (m : Manager) (o : Option (S × (Rc × List (List ℕ))))
      → IsAbsolute root
      → Walked c root o
      → Defined o
      → (a : After S) × (after_collect c root m o ≡ some a) × ForgetsBelow root m a
  after_collect-ForgetsBelow root m none a w (x, e) = absurd (none_some x e)
    where
      none_some : (x : S × (Rc × List (List ℕ))) → none ≡ some x → ⊥
      none_some x e = cc
  after_collect-ForgetsBelow root m (some (s, (rc, nodes))) a w d = elim (Bool-cases (is_ok rc)) [
    | inl e ↦
        let forgets =
          delete_nodes-ForgetsBelow root nodes s m a (IsOrdered-AllUnder root nodes w) in
        rw e (delete_nodes c root nodes s m, refl, forgets)
    | inr e ↦
        rw e (record { server = s; code = rc; manager = m }, refl, λ f. absurd (not_ok rc e f))
  ]

-- With an absolute root path and a server that lists a tree, `DeletePathRecursion` ends within a fuel
-- above the size of the path. When its code is ok, the ephemeral nodes at the path and below it are
-- forgotten, and every other one is as before.
pub delete_path_recursion-ForgetsBelow :
    {S : Type 0} (c : Client S) (size : List ℕ → ℕ) (fuel : ℕ) (path : List ℕ) (s : S) (m : Manager)
    → IsAbsolute m.root_path
    → IsTree c m size
    → size (change_to_abs_path m path) < fuel
    → (a : After S) × (delete_path_recursion c fuel path s m ≡ some a)
      × ForgetsBelow c (change_to_abs_path m path) m a
unfolding delete_path_recursion total
delete_path_recursion-ForgetsBelow c size fuel path s m a t h =
    let root = change_to_abs_path m path in
    let small : total size (root ∷ []) < fuel = omega arith in
    after_collect-ForgetsBelow c root m (collect c m fuel (root ∷ []) [] s)
      (change_to_abs_path-IsAbsolute m path a) (collect_order c m fuel root s)
      (collect_ends c m size fuel (root ∷ []) [] s t small)
