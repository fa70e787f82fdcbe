-- ===== src/Zookeeper/Tree/Levels.antt =====
-- `CreatePathRecursion` of src/CppZookeeper.cpp asks for exactly the levels that are missing.
use mathlib.Core.List.{append_assoc, append-nil}
use moon_lib.Common.{
  ℕ, suc, ◌≡◌, refl, sym, ap, subst, ◌∙◌, Bool, true, false, ◌&&◌, List, [], ◌∷◌, ◌++◌, map, arith,
  length, drop, if◌then◌else◌, Bool-cases, inl, inr,
}
use moon_lib.Text.Split.{split_str}
use moon_lib.Zookeeper.{Rc, no_node, is_ok, Manager, change_to_abs_path}
use moon_lib.Zookeeper.Absolute.{IsAbsolute, absolute_stays}
use moon_lib.Zookeeper.Multi.{Op, create_op, check_op, add_check_op, add_create_op, multi}
use moon_lib.Zookeeper.Tree.{
  Client, call_multi, check_ops, missing_ops, pieces, no_flags, create_path_recursion,
}
use moon_lib.Zookeeper.Tree.Quiet.{AllQuiet, check_ops-AllQuiet, proc_multi-AllQuiet}

-- The paths of the levels, from the top.
unfoldable pub levels : List ℕ → List (List ℕ) → List (List ℕ)
levels curr [] = []
levels curr (dir ∷ dirs) = (curr ++ b'/' ∷ dir) ∷ levels (curr ++ b'/' ∷ dir) dirs

-- The levels that are there before the first one that is not.
unfoldable pub leading : List Rc → ℕ
leading [] = 0
leading (rc ∷ results) = let rest = suc (leading results) in if is_ok rc then rest else 0

abbrev Joinable : List ℕ → Type 0
Joinable [] = Unit
Joinable (c ∷ s) = c ≡ b'/'

join-IsAbsolute : (curr dir : List ℕ) → Joinable curr → IsAbsolute (curr ++ b'/' ∷ dir)
join-IsAbsolute [] dir j = refl
join-IsAbsolute (c ∷ s) dir j = j

join-Joinable : (curr dir : List ℕ) → Joinable curr → Joinable (curr ++ b'/' ∷ dir)
join-Joinable [] dir j = refl
join-Joinable (c ∷ s) dir j = j

AllAbsolute : List (List ℕ) → Type 0
AllAbsolute [] = Unit
AllAbsolute (p ∷ l) = IsAbsolute p × AllAbsolute l

levels-AllAbsolute :
    (curr : List ℕ) (dirs : List (List ℕ)) → Joinable curr → AllAbsolute (levels curr dirs)
unfolding levels AllAbsolute
levels-AllAbsolute curr [] j = tt
levels-AllAbsolute curr (dir ∷ dirs) j = (
  join-IsAbsolute curr dir j,
  levels-AllAbsolute (curr ++ b'/' ∷ dir) dirs (join-Joinable curr dir j),
)

length-levels : (curr : List ℕ) (dirs : List (List ℕ)) → length (levels curr dirs) ≡ length dirs
unfolding levels
length-levels curr [] = refl
length-levels curr (dir ∷ dirs) = ap suc (length-levels (curr ++ b'/' ∷ dir) dirs)

check_ops-levels :
    (m : Manager) (curr : List ℕ) (dirs : List (List ℕ)) (ops : List Op)
    → Joinable curr
    → check_ops m curr dirs ops ≡ ops ++ map check_op (levels curr dirs)
unfolding check_ops levels add_check_op
check_ops-levels m curr [] ops j = sym (append-nil ops)
check_ops-levels m curr (dir ∷ dirs) ops j =
    let p = curr ++ b'/' ∷ dir in
    rw (absolute_stays m p (join-IsAbsolute curr dir j)) (
      check_ops-levels m p dirs (ops ++ check_op p ∷ []) (join-Joinable curr dir j)
      ∙ append_assoc ops (check_op p ∷ []) (map check_op (levels p dirs)))

and_false : (b : Bool) → (b && false) ≡ false
and_false true = refl
and_false false = refl

and_true : (b : Bool) → (b && true) ≡ b
and_true true = refl
and_true false = refl

module _ {S : Type 0} (c : Client S) where
  -- The operation that makes a level.
  abbrev pub make_level : List ℕ → Op
  make_level p = create_op p [] c.open_acl no_flags

  missing_ops-all :
      (m : Manager) (l : List (List ℕ)) (results : List Rc) (ops : List Op)
      → AllAbsolute l
      → length results ≡ length l
      → missing_ops c m true (map check_op l) results ops ≡ ops ++ map make_level l
  unfolding missing_ops add_create_op AllAbsolute
  missing_ops-all m [] results ops a e = sym (append-nil ops)
  missing_ops-all m (p ∷ l) [] ops a e = absurd (omega arith)
  missing_ops-all m (p ∷ l) (rc ∷ results) ops (a, rest) e =
      rw (missing_ops, and_false (is_ok rc), absolute_stays m p a)
        (missing_ops-all m l results (ops ++ make_level p ∷ []) rest (omega arith)
          ∙ append_assoc ops (make_level p ∷ []) (map make_level l))

  missing_ops-drop :
      (m : Manager) (l : List (List ℕ)) (results : List Rc)
      → AllAbsolute l
      → length results ≡ length l
      → missing_ops c m false (map check_op l) results []
        ≡ map make_level (drop (leading results) l)
  unfolding missing_ops add_create_op AllAbsolute leading
  missing_ops-drop m [] [] a e = refl
  missing_ops-drop m [] (rc ∷ results) a e = absurd (omega arith)
  missing_ops-drop m (p ∷ l) [] a e = absurd (omega arith)
  missing_ops-drop m (p ∷ l) (rc ∷ results) (a, rest) e = elim (Bool-cases (is_ok rc)) [
    | inl o ↦ rw (missing_ops, o) (missing_ops-drop m l results rest (omega arith))
    | inr o ↦
        rw (missing_ops, o, absolute_stays m p a)
          (missing_ops-all m l results (make_level p ∷ []) rest (omega arith))
  ]

  -- The answer to the check of all levels.
  abbrev pub asked : List (List ℕ) → S → S × (Rc × List Rc)
  asked dirs s = c.zoo_multi (map check_op (levels [] dirs)) s

  asked_call :
      (d : List ℕ) (ds : List (List ℕ)) (s : S) (m : Manager)
      → (asked (d ∷ ds) s).1.0 ≡ no_node
      → call_multi c (map check_op (levels [] (d ∷ ds))) s m ≡ (
        record { server = (asked (d ∷ ds) s).0; code = no_node; manager = m },
        (asked (d ∷ ds) s).1.1,
      )
  unfolding call_multi multi levels
  asked_call d ds s m h =
      let quiet : AllQuiet (map check_op (levels [] (d ∷ ds))) =
        subst AllQuiet (check_ops-levels m [] (d ∷ ds) [] tt)
          (check_ops-AllQuiet m [] (d ∷ ds) [] tt) in
      rw (h, proc_multi-AllQuiet (map check_op (levels [] (d ∷ ds))) (asked (d ∷ ds) s).1.1 m quiet)
        refl

  -- Where the check of the levels of a path fails because a node is missing, with one result for each
  -- level, `CreatePathRecursion` then sends the creation of the levels from the first one that was not
  -- there on, from the top, and no others, and returns what that call returns.
  pub create_path_recursion-levels :
      (path d : List ℕ) (ds : List (List ℕ)) (s : S) (m : Manager)
      → pieces (split_str (change_to_abs_path m path) ((b'/' ∷ []) ∷ []) true 0) ≡ d ∷ ds
      → (asked (d ∷ ds) s).1.0 ≡ no_node
      → length (asked (d ∷ ds) s).1.1 ≡ length (d ∷ ds)
      → create_path_recursion c path s m
        ≡ (call_multi c
            (map make_level (drop (leading (asked (d ∷ ds) s).1.1) (levels [] (d ∷ ds))))
            (asked (d ∷ ds) s).0
            m).0
  unfolding create_path_recursion
  create_path_recursion-levels path d ds s m e h l =
      let same = l ∙ sym (length-levels [] (d ∷ ds)) in
      let absolute = levels-AllAbsolute [] (d ∷ ds) tt in
      let rest = missing_ops-drop m (levels [] (d ∷ ds)) (asked (d ∷ ds) s).1.1 absolute same in
      rw (e, check_ops-levels m [] (d ∷ ds) [] tt, asked_call d ds s m h, rest) refl
