-- ===== src/Zookeeper/Tree/Resumed.antt =====
-- The last loop of `ReconnectResumeEnv` of src/CppZookeeper.cpp, which creates the ephemeral nodes again
-- after a reconnection.
pub mod Kept
use moon_lib.Common.{
  ℕ, ◌≡◌, Bool, true, false, Option, none, some, List, [], ◌∷◌, ◌++◌, ◌==◌, if◌then◌else◌,
}
use moon_lib.Zookeeper.{Rc, is_ok, is_no_node, Info, Manager, change_to_abs_path}
use moon_lib.Zookeeper.Requests.{create}
use moon_lib.Zookeeper.Tree.{Client, After, create_path_recursion}

-- The text that C++ makes of `Data.data()`: the data up to its first zero.
unfoldable pub cut : List ℕ → List ℕ
cut [] = []
cut (c ∷ s) = let rest = c ∷ cut s in if c == 0 then [] else rest

abbrev pub longer : ℕ → Option (List ℕ) → Option (List ℕ)
longer c none = if c == b'/' then some [] else none
longer c (some s) = some (c ∷ s)

-- `substr(0, rfind('/'))`, where `none` is a path without a slash.
unfoldable pub parent_of : List ℕ → Option (List ℕ)
parent_of [] = none
parent_of (c ∷ s) = longer c (parent_of s)

module _ {S : Type 0} (c : Client S) where
  -- `Create` of a node with what is known of it.
  unfoldable pub create_again : List ℕ → Info → S → Manager → After S
  create_again path info s m =
      let (s', rc) =
        c.zoo_create (change_to_abs_path m path) (cut info.bytes) info.acl info.flags s in
      record {
        server = s';
        code = rc;
        manager = create rc path (cut info.bytes) info.acl info.flags m;
      }

  -- One more try.
  unfoldable pub retry : List ℕ → Info → After S → After S
  retry path info a = if is_ok a.code then a else create_again path info a.server a.manager

  -- The node's parent is made, with one more try, and then the node.
  unfoldable pub with_parent : List ℕ → Info → Option (List ℕ) → After S → After S
  with_parent path info none a = a
  with_parent path info (some []) a = a
  with_parent path info (some (d ∷ parent_path)) a =
      let b = create_path_recursion c (d ∷ parent_path) a.server a.manager in
      let b' =
        if is_ok b.code then b else create_path_recursion c (d ∷ parent_path) b.server b.manager in
      if is_ok b'.code then retry path info (create_again path info b'.server b'.manager) else b'

  -- One round of the loop.
  unfoldable pub resume_node : List ℕ → Info → S → Manager → After S
  resume_node path info s m =
      let a = create_again path info s m in
      if is_no_node a.code then with_parent path info (parent_of path) a else retry path info a

  -- The loop. A round changes no other entry than its own.
  unfoldable pub resume_nodes : List (List ℕ × Info) → S → Manager → S × Manager
  resume_nodes [] s m = (s, m)
  resume_nodes ((path, info) ∷ l) s m =
      let a = resume_node path info s m in resume_nodes l a.server a.manager

  unfoldable pub resume_ephemerals : S → Manager → S × Manager
  resume_ephemerals s m = resume_nodes m.ephemerals s m
