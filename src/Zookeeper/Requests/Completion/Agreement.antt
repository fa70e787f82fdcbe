-- ===== src/Zookeeper/Requests/Completion/Agreement.antt =====
-- A call of src/CppZookeeper.cpp that does not wait, with its completion, leaves the manager as the
-- call that waits does.
use moon_lib.Common.{ℕ, ◌≡◌, refl, Bool, false, List, [], ◌∷◌, ◌++◌, arith, Option-cases, inl, inr}
use moon_lib.Text.Dict.{find}
use moon_lib.Zookeeper.{Rc, Flags, Manager, change_to_abs_path}
use moon_lib.Zookeeper.Multi
use moon_lib.Zookeeper.Multi.{Op, multi_completion}
use moon_lib.Zookeeper.Requests
use moon_lib.Zookeeper.Requests.{Pending, new_watcher, plain, put_info}
use moon_lib.Zookeeper.Requests.Completion.{
  Request, Reply, call, start, complete, finish, acl_completion, amulti, is_empty,
  proc_async_watcher, stat_completion, data_completion, strings_completion, string_completion,
  void_completion,
}

append-not_empty : (s t : List ℕ) → is_empty s ≡ false → is_empty (s ++ t) ≡ false
append-not_empty [] t h = cc
append-not_empty (c ∷ s) t h = refl

-- An absolute path is not empty where the root path is not.
abs_not_empty :
    (m : Manager) (path : List ℕ)
    → is_empty m.root_path ≡ false
    → is_empty (change_to_abs_path m path) ≡ false
unfolding change_to_abs_path
abs_not_empty m [] h = h
abs_not_empty m (c ∷ s) h =
    ground
      (arith, append-not_empty m.root_path (c ∷ s) h, append-not_empty m.root_path (b'/' ∷ c ∷ s) h)

exists_global_lem :
    (path : List ℕ) (watch : Bool) (rc : Rc) (m : Manager)
    → is_empty m.root_path ≡ false
    → stat_completion rc (Requests.aexists_global path watch m) m
      ≡ Requests.exists_global rc path watch m
unfolding stat_completion proc_async_watcher Requests.exists_global Requests.aexists_global
exists_global_lem path watch rc m h = ground (arith, abs_not_empty m path h)

exists_custom_lem :
    (path : List ℕ) (id : ℕ) (rc : Rc) (m : Manager)
    → is_empty m.root_path ≡ false
    → (let r = Requests.aexists_custom path id m in stat_completion rc r.1 r.0)
      ≡ Requests.exists_custom rc path id m
unfolding stat_completion proc_async_watcher Requests.exists_custom Requests.aexists_custom
    new_watcher
exists_custom_lem path id rc m h = ground (arith, abs_not_empty m path h)

get_global_lem :
    (path : List ℕ) (watch : Bool) (rc : Rc) (m : Manager)
    → is_empty m.root_path ≡ false
    → data_completion rc (Requests.aget_global path watch m) m ≡ Requests.get_global rc path watch m
unfolding data_completion proc_async_watcher Requests.get_global Requests.aget_global
get_global_lem path watch rc m h = ground (arith, abs_not_empty m path h)

get_custom_lem :
    (path : List ℕ) (id : ℕ) (rc : Rc) (m : Manager)
    → is_empty m.root_path ≡ false
    → (let r = Requests.aget_custom path id m in data_completion rc r.1 r.0)
      ≡ Requests.get_custom rc path id m
unfolding data_completion proc_async_watcher Requests.get_custom Requests.aget_custom new_watcher
get_custom_lem path id rc m h = ground (arith, abs_not_empty m path h)

get_children_global_lem :
    (path : List ℕ) (watch : Bool) (rc : Rc) (m : Manager)
    → is_empty m.root_path ≡ false
    → strings_completion rc (Requests.aget_children_global path watch m) m
      ≡ Requests.get_children_global rc path watch m
unfolding strings_completion proc_async_watcher Requests.get_children_global
    Requests.aget_children_global
get_children_global_lem path watch rc m h = ground (arith, abs_not_empty m path h)

get_children_custom_lem :
    (path : List ℕ) (id : ℕ) (rc : Rc) (m : Manager)
    → is_empty m.root_path ≡ false
    → (let r = Requests.aget_children_custom path id m in strings_completion rc r.1 r.0)
      ≡ Requests.get_children_custom rc path id m
unfolding strings_completion proc_async_watcher Requests.get_children_custom
    Requests.aget_children_custom new_watcher
get_children_custom_lem path id rc m h = ground (arith, abs_not_empty m path h)

create_lem :
    (path value : List ℕ) (acl : ℕ) (flags : Flags) (rc : Rc) (m : Manager)
    → is_empty m.root_path ≡ false
    → string_completion rc (Requests.acreate path value acl flags m) m
      ≡ Requests.create rc path value acl flags m
unfolding string_completion Requests.create Requests.acreate
create_lem path value acl flags rc m h = ground (arith, abs_not_empty m path h)

set_data_lem :
    (path value : List ℕ) (rc : Rc) (m : Manager)
    → is_empty m.root_path ≡ false
    → stat_completion rc (Requests.aset_data path value m) m ≡ Requests.set_data rc path value m
unfolding stat_completion proc_async_watcher Requests.set_data Requests.aset_data
set_data_lem path value rc m h =
    elim (Option-cases (find (change_to_abs_path m path) m.ephemerals)) [
      | inl e ↦ rw e (ground arith)
      | inr (info, e) ↦ rw e (ground (arith, abs_not_empty m path h))
    ]

delete_node_lem :
    (path : List ℕ) (rc : Rc) (m : Manager)
    → is_empty m.root_path ≡ false
    → void_completion rc (Requests.adelete_node path m) m ≡ Requests.delete_node rc path m
unfolding void_completion Requests.delete_node Requests.adelete_node
delete_node_lem path rc m h = elim (Option-cases (find (change_to_abs_path m path) m.ephemerals)) [
  | inl e ↦ rw e (ground arith)
  | inr (info, e) ↦ rw e (ground (arith, abs_not_empty m path h))
]

set_acl_lem :
    (path : List ℕ) (acl : ℕ) (rc : Rc) (m : Manager)
    → is_empty m.root_path ≡ false
    → void_completion rc (Requests.aset_acl path acl m) m ≡ Requests.set_acl rc path acl m
unfolding void_completion Requests.set_acl Requests.aset_acl
set_acl_lem path acl rc m h = elim (Option-cases (find (change_to_abs_path m path) m.ephemerals)) [
  | inl e ↦ rw e (ground arith)
  | inr (info, e) ↦ rw e (ground (arith, abs_not_empty m path h))
]

multi_lem :
    (ops : List Op) (a : Reply) (m : Manager)
    → finish (Request.multi ops) a (m, amulti ops) ≡ (Multi.multi ops a.code a.results m).1
unfolding finish complete amulti Multi.multi multi_completion
multi_lem [] a m = refl
multi_lem (op ∷ ops) a m = refl

-- Exists, Get and GetChildren with the global watcher or their own, Create without
-- ephemeral_exist_skip, Set, Delete, GetAcl, SetAcl and Multi: the form that does not wait followed by
-- its completion, with no other call between the two, leaves the manager as the form that waits,
-- whatever the server answers, where the C client takes the call and the root path is not empty. Multi
-- without operations is not sent.
pub finish-start :
    (r : Request) (a : Reply) (m : Manager)
    → is_empty m.root_path ≡ false
    → finish r a (start r m) ≡ call r a m
unfolding finish complete start call Requests.get_acl Requests.aget_acl acl_completion
finish-start (Request.exists_global path watch) a m h = exists_global_lem path watch a.code m h
finish-start (Request.exists_custom path id) a m h = exists_custom_lem path id a.code m h
finish-start (Request.get_global path watch) a m h = get_global_lem path watch a.code m h
finish-start (Request.get_custom path id) a m h = get_custom_lem path id a.code m h
finish-start (Request.children_global path watch) a m h =
    get_children_global_lem path watch a.code m h
finish-start (Request.children_custom path id) a m h = get_children_custom_lem path id a.code m h
finish-start (Request.create path value acl flags) a m h =
    create_lem path value acl flags a.code m h
finish-start (Request.set_data path value) a m h = set_data_lem path value a.code m h
finish-start (Request.delete_node path) a m h = delete_node_lem path a.code m h
finish-start (Request.get_acl path) a m h = refl
finish-start (Request.set_acl path acl) a m h = set_acl_lem path acl a.code m h
finish-start (Request.multi ops) a m h = multi_lem ops a m
