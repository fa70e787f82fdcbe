-- ===== src/Zookeeper/Tree/Quiet.antt =====
-- The operations of `CreatePathRecursion` of src/CppZookeeper.cpp change nothing of the manager.
use moon_lib.Common.{
  ℕ, ◌≡◌, refl, ◌∙◌, Bool, true, false, not, ◌&&◌, List, [], ◌∷◌, ◌++◌, Bool-cases, inl, inr,
}
use moon_lib.Text.Split.{split_str}
use moon_lib.Zookeeper.{Rc, is_ok, is_no_node, Manager, change_to_abs_path}
use moon_lib.Zookeeper.Multi.{Op, add_check_op, add_create_op, proc_op, proc_multi, multi}
use moon_lib.Zookeeper.Tree.{
  Client, call_multi, check_ops, missing_ops, pieces, create_path_recursion,
}

-- Operations that change nothing of the manager.
abbrev pub IsQuiet : Op → Type 0
IsQuiet op = (m : Manager) → proc_op op m ≡ m

abbrev pub AllQuiet : List Op → Type 0
AllQuiet [] = Unit
AllQuiet (op ∷ ops) = IsQuiet op × AllQuiet ops

AllQuiet-append : (ops : List Op) (op : Op) → AllQuiet ops → IsQuiet op → AllQuiet (ops ++ op ∷ [])
AllQuiet-append [] op q h = (h, tt)
AllQuiet-append (o ∷ ops) op (q, qs) h = (q, AllQuiet-append ops op qs h)

pub proc_multi-AllQuiet :
    (ops : List Op) (results : List Rc) (m : Manager) → AllQuiet ops → proc_multi ops results m ≡ m
unfolding proc_multi
proc_multi-AllQuiet [] results m q = refl
proc_multi-AllQuiet (op ∷ ops) [] m q = refl
proc_multi-AllQuiet (op ∷ ops) (rc ∷ results) m (q, qs) = elim (Bool-cases (is_ok rc)) [
  | inl e ↦ rw (e, q m) (proc_multi-AllQuiet ops results m qs)
  | inr e ↦ rw e (proc_multi-AllQuiet ops results m qs)
]

pub check_ops-AllQuiet :
    (m : Manager) (curr : List ℕ) (dirs : List (List ℕ)) (ops : List Op)
    → AllQuiet ops
    → AllQuiet (check_ops m curr dirs ops)
unfolding check_ops add_check_op proc_op
check_ops-AllQuiet m curr [] ops q = q
check_ops-AllQuiet m curr (dir ∷ dirs) ops q =
    check_ops-AllQuiet m (curr ++ b'/' ∷ dir) dirs _ (AllQuiet-append ops _ q (λ m'. refl))

module _ {S : Type 0} (c : Client S) where
  missing_ops-AllQuiet :
      (m : Manager) (start : Bool) (checks : List Op) (results : List Rc) (ops : List Op)
      → AllQuiet ops
      → AllQuiet (missing_ops c m start checks results ops)
  unfolding missing_ops add_create_op proc_op
  missing_ops-AllQuiet m start [] results ops q = q
  missing_ops-AllQuiet m start (check ∷ checks) [] ops q = q
  missing_ops-AllQuiet m start (check ∷ checks) (rc ∷ results) ops q =
      elim (Bool-cases (is_ok rc && not start)) [
        | inl e ↦ rw e (missing_ops-AllQuiet m false checks results ops q)
        | inr e ↦
            rw e
              (missing_ops-AllQuiet m true checks results _ (AllQuiet-append ops _ q (λ m'. refl)))
      ]

  call_multi-AllQuiet :
      (ops : List Op) (s : S) (m : Manager) → AllQuiet ops → (call_multi c ops s m).0.manager ≡ m
  unfolding call_multi multi
  call_multi-AllQuiet [] s m q = refl
  call_multi-AllQuiet (op ∷ ops) s m q = proc_multi-AllQuiet (op ∷ ops) _ m q

  -- `CreatePathRecursion` leaves the manager as it is.
  pub create_path_recursion-manager :
      (path : List ℕ) (s : S) (m : Manager) → (create_path_recursion c path s m).manager ≡ m
  unfolding create_path_recursion
  create_path_recursion-manager path s m =
      let dirs = pieces (split_str (change_to_abs_path m path) ((b'/' ∷ []) ∷ []) true 0) in
      let checks = check_ops m [] dirs [] in
      let a = call_multi c checks s m in
      let first : a.0.manager ≡ m =
        call_multi-AllQuiet checks s m (check_ops-AllQuiet m [] dirs [] tt) in
      let creates = missing_ops c a.0.manager false checks a.1 [] in
      let second : (call_multi c creates a.0.server a.0.manager).0.manager ≡ a.0.manager =
        call_multi-AllQuiet creates a.0.server a.0.manager
          (missing_ops-AllQuiet a.0.manager false checks a.1 [] tt) in
      elim (Bool-cases (is_no_node a.0.code)) [ inl e ↦ rw e (second ∙ first) | inr e ↦ rw e first ]
