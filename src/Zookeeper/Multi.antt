-- ===== src/Zookeeper/Multi.antt =====
-- MultiOps of src/CppZookeeper.cpp, and what the manager makes of the results of several operations
-- that are sent at once.
pub mod Each
use moon_lib.Common.{
  ℕ, ◌≡◌, Bool, true, false, not, ◌&&◌, Option, none, some, List, [], ◌∷◌, ◌++◌, ltb, length,
  get_elem?, if◌then◌else◌,
}
use moon_lib.Text.Dict.{find}
use moon_lib.Zookeeper.{Rc, ok, bad_arguments, is_ok, Flags, Info, Manager, change_to_abs_path}
use moon_lib.Zookeeper.Requests.{put_info, new_info, change_info, with_bytes, erase_found}

-- A `zoo_op` with its absolute path.
pub data Op : Type 0 where
  create_op : (path value : List ℕ) (acl : ℕ) → Flags → Op
  delete_op : List ℕ → Op
  set_op : (path value : List ℕ) → Op
  check_op : List ℕ → Op

-- `AddCreateOp`, `AddDeleteOp`, `AddSetOp` and `AddCheckOp`, for operations that were made with a
-- manager.
unfoldable pub add_create_op : Manager → List ℕ → List ℕ → ℕ → Flags → List Op → List Op
add_create_op m path value acl flags ops =
    ops ++ create_op (change_to_abs_path m path) value acl flags ∷ []

unfoldable pub add_delete_op : Manager → List ℕ → List Op → List Op
add_delete_op m path ops = ops ++ delete_op (change_to_abs_path m path) ∷ []

unfoldable pub add_set_op : Manager → List ℕ → List ℕ → List Op → List Op
add_set_op m path value ops = ops ++ set_op (change_to_abs_path m path) value ∷ []

unfoldable pub add_check_op : Manager → List ℕ → List Op → List Op
add_check_op m path ops = ops ++ check_op (change_to_abs_path m path) ∷ []

abbrev pub found_op : Option Op → Option (Rc × Option Op)
found_op none = none
found_op (some op) = some (ok, some op)

-- `GetOp`: the code, and the operation that it gives. `none` is an access out of bounds.
unfoldable pub get_op : ℕ → List Op → Option (Rc × Option Op)
get_op index ops =
    if ltb index (length ops) then some (bad_arguments, none) else found_op (get_elem? ops index)

-- One round of `ProcMultiEphemeralNode`, for an operation that did not fail.
unfoldable pub proc_op : Op → Manager → Manager
proc_op (create_op path value acl flags) m =
    if flags.ephemeral then put_info path (new_info value acl flags) m else m
proc_op (delete_op path) m = erase_found (find path m.ephemerals) path m
proc_op (set_op path value) m = change_info (find path m.ephemerals) path (with_bytes value) m
proc_op (check_op path) m = m

-- `ProcMultiEphemeralNode`.
unfoldable pub proc_multi : List Op → List Rc → Manager → Manager
proc_multi [] results m = m
proc_multi (op ∷ ops) [] m = m
proc_multi (op ∷ ops) (rc ∷ results) m =
    proc_multi ops results (if is_ok rc then proc_op op m else m)

-- `Multi`, at what the client answers; `InnerMultiCompletion` does the same for `AMulti`.
unfoldable pub multi : List Op → Rc → List Rc → Manager → Rc × Manager
multi [] rc results m = (bad_arguments, m)
multi (op ∷ ops) rc results m = (rc, proc_multi (op ∷ ops) results m)

unfoldable pub multi_completion : List Op → List Rc → Manager → Manager
multi_completion ops results m = proc_multi ops results m
