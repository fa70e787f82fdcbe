-- ===== src/Zookeeper/Tests.antt =====
-- The manager of src/CppZookeeper.cpp at inputs, and the theorems about it there.
use moon_lib.Common.{
  ℕ, ◌+◌, ◌-◌, ◌≤◌, ◌≡◌, refl, true, false, some, inl, inr, List, [], ◌∷◌, ◌++◌, map, ◌==◌, ltb,
  length, drop, arith, Bool-cases, if◌then◌else◌,
}
use moon_lib.Text.{str_eq}
use moon_lib.Text.Dict.{find}
use moon_lib.Zookeeper.{
  ok, no_node, Info, watcher_get, watcher_get_children, mask_or, global, get, Manager,
  change_to_abs_path, has_custom, add_global,
}
use moon_lib.Zookeeper.Requests.{exists_global}
use moon_lib.Zookeeper.Requests.Completion.{Request, Reply, call, start, finish}
use moon_lib.Zookeeper.Requests.Completion.Agreement.{finish-start}
use moon_lib.Zookeeper.Watch.{changed, deleted, expired, Answers, inner_watcher}
use moon_lib.Zookeeper.Watch.Deaf.{handle_all, global_goes_deaf}
use moon_lib.Zookeeper.Watch.Table.{has_id, IsLive}
use moon_lib.Zookeeper.Watch.Live.{Same, inner_watcher-IsLive}
use moon_lib.Zookeeper.Multi.{create_op, delete_op, proc_multi}
use moon_lib.Zookeeper.Multi.Each.{Change, add_all, call_each, proc_multi-call_each}
use moon_lib.Zookeeper.Tree.{
  Client, After, call_multi, create_path_recursion, delete_path_recursion,
}
use moon_lib.Zookeeper.Tree.Levels.{
  levels, leading, make_level, asked, create_path_recursion-levels,
}
use moon_lib.Text.Split.{begins_with, index_of, nearest, split_at, split_loop, split_str}
use moon_lib.Zookeeper.Tree.Resumed.{resume_ephemerals}
use moon_lib.Zookeeper.Tree.Resumed.Kept.{KeptOrCut, resume_ephemerals-KeptOrCut}
use moon_lib.Zookeeper.Tree.Ends.{
  IsTree, total_children, ForgetsBelow, delete_path_recursion-ForgetsBelow,
}

abbrev node : List ℕ
node = b'/' ∷ b'a' ∷ []

-- Context 0 is that of the global watcher, context 1 that of a watcher of `Get`.
abbrev manager : Manager
manager = record {
  root_path = b'/' ∷ [];
  global_types = (node, mask_or watcher_get watcher_get_children) ∷ [];
  custom = (node, 1) ∷ [];
  contexts =
      λ i. record { kind = if i == 0 then global else get; is_stop = false; auto_reg = true };
  ephemerals = [];
}

-- The user's function keeps every watcher, and the server takes every registration.
abbrev keeping : Answers
keeping = record { user = λ e. false; again = ok }

relative_run : change_to_abs_path manager (b'a' ∷ []) ≡ node
unfolding change_to_abs_path
relative_run = refl

-- A new ephemeral node, and the end of one that is not there.
abbrev two_at_once : Request
two_at_once = Request.multi (
    create_op node (b'v' ∷ []) 5 (record { ephemeral = true; sequence = false })
    ∷ delete_op (b'/' ∷ b'c' ∷ [])
    ∷ [])

abbrev partly_done : Reply
partly_done = record { code = no_node; results = ok ∷ no_node ∷ [] }

finish-start_example :
    finish two_at_once partly_done (start two_at_once manager)
    ≡ call two_at_once partly_done manager
finish-start_example = finish-start two_at_once partly_done manager refl

global_goes_deaf_example :
    (let m = (inner_watcher (λ m. m) (λ m. m) keeping deleted node 0 manager).manager in
      handle_all (λ m. m) (λ m. m) ((keeping, changed, node) ∷ (keeping, expired, []) ∷ []) 0 m
      ≡ (m, []))
unfolding find str_eq
global_goes_deaf_example =
    global_goes_deaf (λ m. m) (λ m. m) keeping node 0 (mask_or watcher_get watcher_get_children)
      manager ((keeping, changed, node) ∷ (keeping, expired, []) ∷ []) refl refl refl refl

-- What a connection resumes here: a global watcher of one path.
abbrev watched_again : Manager → Manager
watched_again m = exists_global ok node true m

watched_again-Same : Same (watched_again manager) manager
unfolding exists_global add_global
watched_again-Same = (refl, refl)

inner_watcher-IsLive_example :
    IsLive (inner_watcher watched_again (λ m. m) keeping deleted node 1 manager).manager
unfolding has_custom str_eq has_id
inner_watcher-IsLive_example =
    inner_watcher-IsLive watched_again (λ m. m) keeping deleted node 1 manager watched_again-Same
      (refl, refl) (inr refl) (refl, refl, refl, tt)

abbrev two_changes : List Change
two_changes =
    Change.create (b'b' ∷ []) (b'v' ∷ []) 5 (record { ephemeral = true; sequence = false })
    ∷ Change.delete (b'c' ∷ [])
    ∷ []

proc_multi-call_each_example :
    proc_multi (add_all manager two_changes []) (ok ∷ no_node ∷ []) manager
    ≡ call_each two_changes (ok ∷ no_node ∷ []) manager
proc_multi-call_each_example = proc_multi-call_each manager two_changes (ok ∷ no_node ∷ [])

-- A server with a child `b` of every path of fewer than four characters, which takes every operation.
abbrev shallow : Client Unit
shallow = record {
  zoo_create = λ path value acl flags s. (s, ok);
  zoo_get_children = λ path s. (s, (ok, if ltb (length path) 4 then (b'b' ∷ []) ∷ [] else []));
  zoo_multi = λ ops s. (s, (ok, map (λ op. ok) ops));
  open_acl = 0;
}

abbrev info : Info
info = record { bytes = b'v' ∷ []; acl = 5; flags = record { ephemeral = true; sequence = false } }

-- The ephemeral nodes "/a/b" and "/ab".
abbrev with_nodes : Manager
with_nodes = record manager {
  ephemerals = (b'/' ∷ b'a' ∷ b'/' ∷ b'b' ∷ [], info) ∷ (b'/' ∷ b'a' ∷ b'b' ∷ [], info) ∷ [];
}

abbrev depth : List ℕ → ℕ
depth path = 1 + (10 - length path)

length-abs : (path : List ℕ) → length path ≤ length (change_to_abs_path with_nodes path)
unfolding change_to_abs_path
length-abs [] = omega arith
length-abs (c ∷ s) = ground arith

length-child : (path : List ℕ) → length (path ++ b'/' ∷ b'b' ∷ []) ≡ length path + 2
length-child [] = refl
length-child (c ∷ s) = omega (arith, length-child s)

shallow-IsTree : IsTree shallow with_nodes depth
unfolding total_children
shallow-IsTree path s = (
  omega arith,
  elim (Bool-cases (ltb (length (change_to_abs_path with_nodes path)) 4)) [
    | inl e ↦ rw e (ground (arith, length-abs path, length-child path))
    | inr e ↦ rw e (omega arith)
  ],
)

delete_path_recursion-ForgetsBelow_example :
    (a : After Unit) × (delete_path_recursion shallow 12 (b'a' ∷ []) tt with_nodes ≡ some a)
    × ForgetsBelow shallow (change_to_abs_path with_nodes (b'a' ∷ [])) with_nodes a
unfolding change_to_abs_path
delete_path_recursion-ForgetsBelow_example =
    delete_path_recursion-ForgetsBelow shallow depth 12 (b'a' ∷ []) tt with_nodes refl
      shallow-IsTree (omega arith)

resume_ephemerals-KeptOrCut_example :
    KeptOrCut with_nodes.ephemerals (resume_ephemerals shallow tt with_nodes).1.ephemerals
unfolding find str_eq
resume_ephemerals-KeptOrCut_example =
    resume_ephemerals-KeptOrCut shallow tt with_nodes (refl, refl, (refl, refl, tt))

-- A server on which only the first of two levels is there.
abbrev one_level : Client Unit
one_level = record shallow { zoo_multi = λ ops s. (s, (no_node, ok ∷ no_node ∷ [])) }

create_path_recursion-levels_example :
    create_path_recursion one_level (b'a' ∷ b'/' ∷ b'b' ∷ []) tt manager
    ≡ (call_multi one_level
        (map (make_level one_level) (
          drop
            (leading (asked one_level ((b'a' ∷ []) ∷ (b'b' ∷ []) ∷ []) tt).1.1)
            (levels [] ((b'a' ∷ []) ∷ (b'b' ∷ []) ∷ []))))
        (asked one_level ((b'a' ∷ []) ∷ (b'b' ∷ []) ∷ []) tt).0
        manager).0
unfolding change_to_abs_path begins_with index_of nearest split_at split_loop split_str
create_path_recursion-levels_example =
    create_path_recursion-levels one_level (b'a' ∷ b'/' ∷ b'b' ∷ []) (b'a' ∷ []) ((b'b' ∷ []) ∷ [])
      tt manager refl refl refl
