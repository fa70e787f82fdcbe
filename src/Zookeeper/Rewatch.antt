-- ===== src/Zookeeper/Rewatch.antt =====
-- The first two loops of `ReconnectResumeEnv` of src/CppZookeeper.cpp, which register every watcher again
-- after a reconnection, and the whole function. The server is a parameter.
pub mod Asked
pub mod Tables
mod Tests
use moon_lib.Common.{ℕ, Bool, true, false, List, [], ◌∷◌, ◌==◌, map, if◌then◌else◌}
use moon_lib.Text.{str_less}
use moon_lib.Text.Dict.{find}
use moon_lib.Zookeeper.{
  Rc, Mask, watcher_get, watcher_exists, watcher_get_children, or_zero, covers, Kind, not_watcher,
  global, exists, get, get_children, Manager, change_to_abs_path,
}
use moon_lib.Zookeeper.Requests.{exists_global, get_global, get_children_global}
use moon_lib.Zookeeper.Tree.{Client}
use moon_lib.Zookeeper.Tree.Resumed.{resume_ephemerals}

-- What the C client is asked: with the global watcher, or with a context as the watcher.
pub data Call : Type 0 where
  ask_exists : List ℕ → Call
  ask_get : List ℕ → Call
  ask_get_children : List ℕ → Call
  ask_wexists : List ℕ → ℕ → Call
  ask_wget : List ℕ → ℕ → Call
  ask_wget_children : List ℕ → ℕ → Call

-- What the server does with a call, and the code that it answers.
abbrev pub Server : Type 0 → Type 0
Server S = Call → S → S × Rc

-- The path begins with a slash.
abbrev pub is_absolute : List ℕ → Bool
is_absolute [] = false
is_absolute (c ∷ s) = c == b'/'

abbrev pub keys : {V : Type 0} → List (List ℕ × V) → List (List ℕ)
keys [] = []
keys ((path, v) ∷ l) = path ∷ keys l

-- std::multimap goes through its keys in their order, and through one key in the order of insertion.
unfoldable pub insert_keyed : List ℕ × ℕ → List (List ℕ × ℕ) → List (List ℕ × ℕ)
insert_keyed e [] = e ∷ []
insert_keyed e (f ∷ l) =
    let rest = f ∷ insert_keyed e l in if str_less e.0 f.0 then e ∷ f ∷ l else rest

unfoldable pub in_key_order : List (List ℕ × ℕ) → List (List ℕ × ℕ) → List (List ℕ × ℕ)
in_key_order sorted [] = sorted
in_key_order sorted (e ∷ l) = in_key_order (insert_keyed e sorted) l

module _ {S : Type 0} (server : Server S) where
  -- `Exists` or `Get` with the global watcher.
  unfoldable pub watch_node : List ℕ → Mask → S → Manager → S × Manager
  watch_node path types s m =
      let abs_path = change_to_abs_path m path in
      let (s_exists, rc_exists) = server (ask_exists abs_path) s in
      let (s_get, rc_get) = server (ask_get abs_path) s in
      if covers types watcher_exists
      then (s_exists, exists_global rc_exists path true m)
      else if covers types watcher_get
      then (s_get, get_global rc_get path true m)
      else (s, m)

  -- `GetChildren` with the global watcher.
  unfoldable pub watch_children : List ℕ → Mask → S → Manager → S × Manager
  watch_children path types s m =
      let (s', rc) = server (ask_get_children (change_to_abs_path m path)) s in
      if covers types watcher_get_children then (s', get_children_global rc path true m) else (s, m)

  -- The types of a path, as they are in the table now.
  abbrev pub types_of : List ℕ → Manager → Mask
  types_of path m = or_zero (find path m.global_types)

  -- One round of the first loop.
  unfoldable pub resume_path : List ℕ → S → Manager → S × Manager
  resume_path path s m =
      let (s', m') = watch_node path (types_of path m) s m in
      if is_absolute path then watch_children path (types_of path m') s' m' else (s, m)

  unfoldable pub resume_paths : List (List ℕ) → S → Manager → S × Manager
  resume_paths [] s m = (s, m)
  resume_paths (path ∷ paths) s m = let (s', m') = resume_path path s m in resume_paths paths s' m'

  -- One round of the second loop, by the kind of the context.
  unfoldable pub resume_custom : List ℕ → ℕ → Kind → S → S
  resume_custom path id not_watcher s = s
  resume_custom path id global s = s
  resume_custom path id exists s = (server (ask_wexists path id) s).0
  resume_custom path id get s = (server (ask_wget path id) s).0
  resume_custom path id get_children s = (server (ask_wget_children path id) s).0

  unfoldable pub resume_customs : Manager → List (List ℕ × ℕ) → S → S
  resume_customs m [] s = s
  resume_customs m ((path, id) ∷ l) s =
      resume_customs m l (resume_custom path id (m.contexts id).kind s)

  -- The first two loops.
  unfoldable pub resume_watchers : S → Manager → S × Manager
  resume_watchers s m =
      let (s', m') = resume_paths (keys m.global_types) s m in
      (resume_customs m' (in_key_order [] m'.custom) s', m')

  -- `ReconnectResumeEnv`.
  unfoldable pub reconnect_resume_env : Client S → S → Manager → S × Manager
  reconnect_resume_env c s m = let (s', m') = resume_watchers s m in resume_ephemerals c s' m'
