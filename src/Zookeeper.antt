-- ===== src/Zookeeper.antt =====
-- ZookeeperManager of src/CppZookeeper.h and src/CppZookeeper.cpp: the state that it keeps beside the
-- C client, and what every part of it uses.
mod Tests
pub mod Absolute
pub mod Requests
pub mod Multi
pub mod Tree
pub mod Watch
pub mod Skip
pub mod Rewatch
use moon_lib.Common.{
  ℕ, ◌≡◌, Bool, true, false, not, ◌&&◌, ◌||◌, Option, none, some, List, [], ◌∷◌, ◌++◌, ◌==◌,
  if◌then◌else◌,
}
use moon_lib.Text.{str_eq}
use moon_lib.Text.Dict.{find, put}

-- A return code of the C client: ZOK, ZNONODE, ZBADARGUMENTS, or another one.
pub data Rc : Type 0 where
  ok : Rc
  no_node : Rc
  bad_arguments : Rc
  failed : ℕ → Rc

abbrev pub is_ok : Rc → Bool
is_ok ok = true
is_ok _ = false

abbrev pub is_no_node : Rc → Bool
is_no_node no_node = true
is_no_node _ = false

-- The three low bits of a `GlobalWatcherType`, the only ones that are ever set.
pub record Mask : Type 0 where
  pub get_bit : Bool
  pub exists_bit : Bool
  pub children_bit : Bool

abbrev pub watcher_get : Mask
watcher_get = record { get_bit = true; exists_bit = false; children_bit = false }

abbrev pub watcher_exists : Mask
watcher_exists = record { get_bit = true; exists_bit = true; children_bit = false }

abbrev pub watcher_get_children : Mask
watcher_get_children = record { get_bit = false; exists_bit = false; children_bit = true }

abbrev pub no_watcher : Mask
no_watcher = record { get_bit = false; exists_bit = false; children_bit = false }

abbrev pub mask_or : Mask → Mask → Mask
mask_or a b = record {
  get_bit = a.get_bit || b.get_bit;
  exists_bit = a.exists_bit || b.exists_bit;
  children_bit = a.children_bit || b.children_bit;
}

abbrev pub mask_and : Mask → Mask → Mask
mask_and a b = record {
  get_bit = a.get_bit && b.get_bit;
  exists_bit = a.exists_bit && b.exists_bit;
  children_bit = a.children_bit && b.children_bit;
}

abbrev pub mask_not : Mask → Mask
mask_not a = record {
  get_bit = not a.get_bit;
  exists_bit = not a.exists_bit;
  children_bit = not a.children_bit;
}

abbrev pub is_zero : Mask → Bool
is_zero a = not (a.get_bit || (a.exists_bit || a.children_bit))

-- `(a & b) == b`.
abbrev pub covers : Mask → Mask → Bool
covers a b =
    (a.get_bit || not b.get_bit)
    && ((a.exists_bit || not b.exists_bit) && (a.children_bit || not b.children_bit))

-- `ZookeeperCtx::WatcherType`.
pub data Kind : Type 0 where
  not_watcher : Kind
  global : Kind
  exists : Kind
  get : Kind
  get_children : Kind

-- A ZookeeperCtx that was made for a watcher.
pub record Watcher : Type 0 where
  pub kind : Kind
  pub is_stop : Bool
  pub auto_reg : Bool

-- The flags of a new node, and EphemeralNodeInfo. An ACL is known by a number.
pub record Flags : Type 0 where
  pub ephemeral : Bool
  pub sequence : Bool

pub record Info : Type 0 where
  pub bytes : List ℕ
  pub acl : ℕ
  pub flags : Flags

-- ZookeeperManager: `m_root_path`, `m_global_watcher_path_type`, `m_custom_watcher_contexts` with the
-- contexts by their addresses, and `m_ephemeral_node_info`.
pub record Manager : Type 0 where
  pub root_path : List ℕ
  pub global_types : List (List ℕ × Mask)
  pub custom : List (List ℕ × ℕ)
  pub contexts : ℕ → Watcher
  pub ephemerals : List (List ℕ × Info)

abbrev pub ends_in_slash : List ℕ → Bool
ends_in_slash [] = false
ends_in_slash (c ∷ []) = c == b'/'
ends_in_slash (c ∷ d ∷ s) = ends_in_slash (d ∷ s)

-- `ChangeToAbsPath`. An empty `m_root_path`, at which the source reads out of bounds, does not pass
-- `Init`.
unfoldable pub change_to_abs_path : Manager → List ℕ → List ℕ
change_to_abs_path m [] = m.root_path
change_to_abs_path m (c ∷ s) =
    if c == b'/'
    then c ∷ s
    else if ends_in_slash m.root_path
    then m.root_path ++ c ∷ s
    else m.root_path ++ b'/' ∷ c ∷ s

-- `Init`: the code that it returns, and the root path.
unfoldable pub init : List ℕ → Manager → Rc × Manager
init [] m = (bad_arguments, record m { root_path = [] })
init (c ∷ s) m = (if c == b'/' then ok else bad_arguments, record m { root_path = c ∷ s })

abbrev pub or_zero : Option Mask → Mask
or_zero none = no_watcher
or_zero (some a) = a

-- `m_global_watcher_path_type[path] |= type`.
unfoldable pub add_global : List ℕ → Mask → Manager → Manager
add_global path type m = record m {
  global_types = put path (mask_or (or_zero (find path m.global_types)) type) m.global_types;
}

-- The search of `AddCustomWatcher`.
unfoldable pub has_custom : List ℕ → ℕ → List (List ℕ × ℕ) → Bool
has_custom path id [] = false
has_custom path id ((p, i) ∷ l) = (str_eq p path && i == id) || has_custom path id l

-- `AddCustomWatcher`: std::multimap keeps the entries of one key in the order of their insertion.
unfoldable pub add_custom : List ℕ → ℕ → Manager → Manager
add_custom path id m =
    if has_custom path id m.custom then m else record m { custom = m.custom ++ (path, id) ∷ [] }

unfoldable pub drop_custom : List ℕ → ℕ → List (List ℕ × ℕ) → List (List ℕ × ℕ)
drop_custom path id [] = []
drop_custom path id ((p, i) ∷ l) =
    let rest = (p, i) ∷ drop_custom path id l in if str_eq p path && i == id then l else rest

-- `DelCustomWatcher`.
unfoldable pub del_custom : List ℕ → ℕ → Manager → Manager
del_custom path id m = record m { custom = drop_custom path id m.custom }
