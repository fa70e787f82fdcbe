-- ===== src/Zookeeper/Requests.antt =====
-- The calls of src/CppZookeeper.cpp that wait for the server, those that do not, and the completions of
-- the latter. The answer of the C client is an argument, and so is the address of a new watcher context.
pub mod Completion
use moon_lib.Common.{
  ℕ, ◌≡◌, Bool, true, false, not, ◌&&◌, ◌||◌, Option, none, some, List, [], ◌∷◌, ◌==◌,
  if◌then◌else◌,
}
use moon_lib.Text.Dict.{find, put, drop_key}
use moon_lib.Zookeeper.{
  Rc, ok, no_node, bad_arguments, failed, is_ok, is_no_node, Mask, watcher_get, watcher_exists,
  watcher_get_children, no_watcher, is_zero, covers, Kind, exists, get, get_children, not_watcher,
  global, Watcher, Flags, Info, Manager, change_to_abs_path, add_global, add_custom,
}

-- `make_shared<ZookeeperCtx>(*this, kind)` with the watcher's function.
unfoldable pub new_watcher : ℕ → Kind → Manager → Manager
new_watcher id kind m = record m {
  contexts = λ j.
      if id == j then record { kind = kind; is_stop = false; auto_reg = true } else m.contexts j;
}

-- The calls that wait: `Exists`, `Get` and `GetChildren` with the global watcher or one of their own.
unfoldable pub exists_global : Rc → List ℕ → Bool → Manager → Manager
exists_global rc path watch m =
    if is_ok rc || is_no_node rc
    then (if watch then add_global (change_to_abs_path m path) watcher_exists m else m)
    else m

unfoldable pub exists_custom : Rc → List ℕ → ℕ → Manager → Manager
exists_custom rc path id m =
    if is_ok rc || is_no_node rc
    then add_custom (change_to_abs_path m path) id (new_watcher id exists m)
    else new_watcher id exists m

unfoldable pub get_global : Rc → List ℕ → Bool → Manager → Manager
get_global rc path watch m =
    if is_ok rc
    then (if watch then add_global (change_to_abs_path m path) watcher_get m else m)
    else m

unfoldable pub get_custom : Rc → List ℕ → ℕ → Manager → Manager
get_custom rc path id m =
    if is_ok rc
    then add_custom (change_to_abs_path m path) id (new_watcher id get m)
    else new_watcher id get m

unfoldable pub get_children_global : Rc → List ℕ → Bool → Manager → Manager
get_children_global rc path watch m =
    if is_ok rc
    then (if watch then add_global (change_to_abs_path m path) watcher_get_children m else m)
    else m

unfoldable pub get_children_custom : Rc → List ℕ → ℕ → Manager → Manager
get_children_custom rc path id m =
    if is_ok rc
    then add_custom (change_to_abs_path m path) id (new_watcher id get_children m)
    else new_watcher id get_children m

abbrev pub new_info : List ℕ → ℕ → Flags → Info
new_info value acl flags = record { bytes = value; acl = acl; flags = flags }

abbrev pub put_info : List ℕ → Info → Manager → Manager
put_info path info m = record m { ephemerals = put path info m.ephemerals }

-- A change of an ephemeral node that is known.
abbrev pub change_info : Option Info → List ℕ → (Info → Info) → Manager → Manager
change_info none path f m = m
change_info (some info) path f m = put_info path (f info) m

abbrev pub with_bytes : List ℕ → Info → Info
with_bytes value info = record info { bytes = value }

abbrev pub with_acl : ℕ → Info → Info
with_acl acl info = record info { acl = acl }

-- `Create` without `ephemeral_exist_skip`, `Set`, `Delete` and `SetAcl`.
unfoldable pub create : Rc → List ℕ → List ℕ → ℕ → Flags → Manager → Manager
create rc path value acl flags m =
    if is_ok rc
    then (if flags.ephemeral
        then put_info (change_to_abs_path m path) (new_info value acl flags) m
        else m)
    else m

unfoldable pub set_data : Rc → List ℕ → List ℕ → Manager → Manager
set_data rc path value m =
    let p = change_to_abs_path m path in
    if is_ok rc then change_info (find p m.ephemerals) p (with_bytes value) m else m

abbrev pub erase_found : Option Info → List ℕ → Manager → Manager
erase_found none path m = m
erase_found (some info) path m = record m { ephemerals = drop_key path m.ephemerals }

unfoldable pub delete_node : Rc → List ℕ → Manager → Manager
delete_node rc path m =
    let p = change_to_abs_path m path in
    if is_ok rc then erase_found (find p m.ephemerals) p m else m

unfoldable pub set_acl : Rc → List ℕ → ℕ → Manager → Manager
set_acl rc path acl m =
    let p = change_to_abs_path m path in
    if is_ok rc then change_info (find p m.ephemerals) p (with_acl acl) m else m

-- `GetAcl` changes nothing of the manager.
unfoldable pub get_acl : Rc → List ℕ → Manager → Manager
get_acl rc path m = m

-- The context of a call that does not wait.
pub record Pending : Type 0 where
  pub ephemeral_path : List ℕ
  pub ephemeral_info : Option Info
  pub watch_path : List ℕ
  pub watcher : Option ℕ
  pub global_add : Mask

abbrev pub plain : Pending
plain = record {
  ephemeral_path = [];
  ephemeral_info = none;
  watch_path = [];
  watcher = none;
  global_add = no_watcher;
}

abbrev pub global_pending : List ℕ → Bool → Mask → Pending
global_pending path watch type =
    if watch then record plain { watch_path = path; global_add = type } else plain

abbrev pub custom_pending : List ℕ → ℕ → Pending
custom_pending path id = record plain { watch_path = path; watcher = some id }

abbrev pub changed_pending : Option Info → List ℕ → (Info → Info) → Pending
changed_pending none path f = plain
changed_pending (some info) path f = record plain {
  ephemeral_path = path;
  ephemeral_info = some (f info);
}

abbrev pub deleted_pending : Option Info → List ℕ → Pending
deleted_pending none path = plain
deleted_pending (some info) path = record plain { ephemeral_path = path }

-- `AExists`, `AGet` and `AGetChildren`: the context, and the manager with a watcher's context.
unfoldable pub aexists_global : List ℕ → Bool → Manager → Pending
aexists_global path watch m = global_pending (change_to_abs_path m path) watch watcher_exists

unfoldable pub aexists_custom : List ℕ → ℕ → Manager → Manager × Pending
aexists_custom path id m = (new_watcher id exists m, custom_pending (change_to_abs_path m path) id)

unfoldable pub aget_global : List ℕ → Bool → Manager → Pending
aget_global path watch m = global_pending (change_to_abs_path m path) watch watcher_get

unfoldable pub aget_custom : List ℕ → ℕ → Manager → Manager × Pending
aget_custom path id m = (new_watcher id get m, custom_pending (change_to_abs_path m path) id)

unfoldable pub aget_children_global : List ℕ → Bool → Manager → Pending
aget_children_global path watch m =
    global_pending (change_to_abs_path m path) watch watcher_get_children

unfoldable pub aget_children_custom : List ℕ → ℕ → Manager → Manager × Pending
aget_children_custom path id m =
    (new_watcher id get_children m, custom_pending (change_to_abs_path m path) id)

-- `ACreate`, `ASet`, `ADelete`, `ASetAcl` and `AGetAcl`.
unfoldable pub acreate : List ℕ → List ℕ → ℕ → Flags → Manager → Pending
acreate path value acl flags m =
    if flags.ephemeral
    then record plain {
      ephemeral_path = change_to_abs_path m path;
      ephemeral_info = some (new_info value acl flags);
    }
    else plain

unfoldable pub aset_data : List ℕ → List ℕ → Manager → Pending
aset_data path value m =
    let p = change_to_abs_path m path in changed_pending (find p m.ephemerals) p (with_bytes value)

unfoldable pub adelete_node : List ℕ → Manager → Pending
adelete_node path m = let p = change_to_abs_path m path in deleted_pending (find p m.ephemerals) p

unfoldable pub aset_acl : List ℕ → ℕ → Manager → Pending
aset_acl path acl m =
    let p = change_to_abs_path m path in changed_pending (find p m.ephemerals) p (with_acl acl)

-- `AGetAcl`.
unfoldable pub aget_acl : List ℕ → Manager → Pending
aget_acl path m = plain
