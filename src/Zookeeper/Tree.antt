-- ===== src/Zookeeper/Tree.antt =====
-- The calls of src/CppZookeeper.cpp that walk over the nodes: `CreatePathRecursion`,
-- `DeletePathRecursion` and the ephemeral nodes of `ReconnectResumeEnv`. The server is a parameter.
pub mod Deletes
pub mod Forgotten
pub mod Ends
pub mod Resumed
pub mod Quiet
pub mod Levels
use moon_lib.Common.{
  ℕ, zero, suc, ◌+◌, ◌≡◌, Bool, true, false, not, ◌&&◌, ◌||◌, Option, none, some, List, [], ◌∷◌,
  ◌++◌, map, ◌==◌, if◌then◌else◌,
}
use moon_lib.Text.Split.{begins_with, split_str}
use moon_lib.Text.Dict.{find, drop_key}
use moon_lib.Zookeeper.{
  Rc, ok, no_node, is_ok, is_no_node, Flags, Info, Manager, change_to_abs_path,
}
use moon_lib.Zookeeper.Requests.{create}
use moon_lib.Zookeeper.Multi.{
  Op, create_op, delete_op, check_op, add_create_op, add_delete_op, add_check_op, multi,
}

-- What the C client does, with a state of the server.
pub record Client (S : Type 0) : Type 0 where
  pub zoo_create : List ℕ → List ℕ → ℕ → Flags → S → S × Rc
  pub zoo_get_children : List ℕ → S → S × (Rc × List (List ℕ))
  pub zoo_multi : List Op → S → S × (Rc × List Rc)
  pub open_acl : ℕ

abbrev pub no_flags : Flags
no_flags = record { ephemeral = false; sequence = false }

-- What a call leaves: the server, the code and the manager.
pub record After (S : Type 0) : Type 0 where
  pub server : S
  pub code : Rc
  pub manager : Manager

-- The check operations of `CreatePathRecursion`, level by level.
unfoldable pub check_ops : Manager → List ℕ → List (List ℕ) → List Op → List Op
check_ops m curr_path [] ops = ops
check_ops m curr_path (dir ∷ dirs) ops =
    let p = curr_path ++ b'/' ∷ dir in check_ops m p dirs (add_check_op m p ops)

abbrev pub path_of : Op → List ℕ
path_of (create_op path value acl flags) = path
path_of (delete_op path) = path
path_of (Op.set_op path value) = path
path_of (check_op path) = path

abbrev pub pieces : Option (List (List ℕ)) → List (List ℕ)
pieces none = []
pieces (some l) = l

-- The children of a node are put on the stack, the last one on top.
unfoldable pub push_children : List ℕ → List (List ℕ) → List (List ℕ) → List (List ℕ)
push_children curr_path [] stack = stack
push_children curr_path (child ∷ children) stack =
    push_children curr_path children ((curr_path ++ b'/' ∷ child) ∷ stack)

unfoldable pub delete_ops : Manager → List (List ℕ) → List Op → List Op
delete_ops m [] ops = ops
delete_ops m (path ∷ paths) ops = delete_ops m paths (add_delete_op m path ops)

module _ {S : Type 0} (c : Client S) where
  -- `Multi`, and the results that it leaves for the caller.
  unfoldable pub call_multi : List Op → S → Manager → After S × List Rc
  call_multi [] s m = (record { server = s; code = Rc.bad_arguments; manager = m }, [])
  call_multi (op ∷ ops) s m =
      let (s', (rc, results)) = c.zoo_multi (op ∷ ops) s in
      let (rc', m') = multi (op ∷ ops) rc results m in
      (record { server = s'; code = rc'; manager = m' }, results)

  -- The create operations, from the first level that is missing on.
  unfoldable pub missing_ops : Manager → Bool → List Op → List Rc → List Op → List Op
  missing_ops m start_no_node [] results ops = ops
  missing_ops m start_no_node (check ∷ checks) [] ops = ops
  missing_ops m start_no_node (check ∷ checks) (rc ∷ results) ops =
      let skip = is_ok rc && not start_no_node in
      missing_ops m (not skip) checks results
        (if skip then ops else add_create_op m (path_of check) [] c.open_acl no_flags ops)

  -- `CreatePathRecursion`.
  unfoldable pub create_path_recursion : List ℕ → S → Manager → After S
  create_path_recursion path s m =
      let dirs = pieces (split_str (change_to_abs_path m path) ((b'/' ∷ []) ∷ []) true 0) in
      let checks = check_ops m [] dirs [] in
      let (a, results) = call_multi checks s m in
      let (b, _) = call_multi (missing_ops a.manager false checks results []) a.server a.manager in
      if is_no_node a.code then b else a

  -- The loop of `DeletePathRecursion`: the stack, and the nodes to delete, the last one first. `none`
  -- is a loop that does not end within the fuel.
  unfoldable pub collect :
      Manager → ℕ → List (List ℕ) → List (List ℕ) → S → Option (S × (Rc × List (List ℕ)))
  collect m zero stack nodes s = none
  collect m (suc fuel) [] nodes s = some (s, (ok, nodes))
  collect m (suc fuel) (curr_path ∷ stack) nodes s =
      let (s', (rc, children)) = c.zoo_get_children (change_to_abs_path m curr_path) s in
      let gone = collect m fuel stack nodes s' in
      let there = collect m fuel (push_children curr_path children stack) (curr_path ∷ nodes) s' in
      if is_ok rc then there else if is_no_node rc then gone else some (s', (rc, nodes))

-- The entries below a path are taken out.
unfoldable pub drop_below : List ℕ → List (List ℕ × Info) → List (List ℕ × Info)
drop_below pre_path [] = []
drop_below pre_path ((p, i) ∷ l) =
    let rest = drop_below pre_path l in if begins_with pre_path p then rest else (p, i) ∷ rest

-- The end of `DeletePathRecursion`.
unfoldable pub forget_path : List ℕ → Manager → Manager
forget_path abs_path m = record m {
  ephemerals = drop_key abs_path (drop_below (abs_path ++ b'/' ∷ []) m.ephemerals);
}

module _ {S : Type 0} (c : Client S) where
  abbrev pub forget_if_ok : List ℕ → After S → After S
  forget_if_ok abs_path a =
      if is_ok a.code then record a { manager = forget_path abs_path a.manager } else a

  -- The part after the loop.
  unfoldable pub delete_nodes : List ℕ → List (List ℕ) → S → Manager → After S
  delete_nodes abs_path [] s m = record { server = s; code = ok; manager = forget_path abs_path m }
  delete_nodes abs_path (path ∷ paths) s m =
      let (a, results) = call_multi c (delete_ops m (path ∷ paths) []) s m in
      forget_if_ok abs_path a

  abbrev pub after_collect : List ℕ → Manager → Option (S × (Rc × List (List ℕ))) → Option (After S)
  after_collect abs_path m none = none
  after_collect abs_path m (some (s, (rc, nodes))) = some (
      if is_ok rc
      then delete_nodes abs_path nodes s m
      else record { server = s; code = rc; manager = m })

  -- `DeletePathRecursion`.
  unfoldable pub delete_path_recursion : ℕ → List ℕ → S → Manager → Option (After S)
  delete_path_recursion fuel path s m =
      let p = change_to_abs_path m path in after_collect p m (collect c m fuel (p ∷ []) [] s)
