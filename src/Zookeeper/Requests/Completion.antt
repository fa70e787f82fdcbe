-- ===== src/Zookeeper/Requests/Completion.antt =====
-- The completions of src/CppZookeeper.cpp, and the calls with both their halves.
pub mod Agreement
use moon_lib.Common.{
  ℕ, Bool, true, false, not, ◌&&◌, ◌||◌, Option, none, some, List, [], ◌∷◌, if◌then◌else◌,
}
use moon_lib.Text.Dict.{drop_key}
use moon_lib.Zookeeper.{
  Rc, is_ok, is_no_node, Mask, is_zero, covers, watcher_exists, Kind, exists, not_watcher, global,
  get, get_children, Watcher, Flags, Info, Manager, add_global, add_custom,
}
use moon_lib.Zookeeper.Multi
use moon_lib.Zookeeper.Multi.{Op, multi_completion}
use moon_lib.Zookeeper.Requests
use moon_lib.Zookeeper.Requests.{
  get_children_global, get_children_custom, put_info, Pending, plain, aexists_global,
  aexists_custom, aget_global, aget_custom, aget_children_global, aget_children_custom, acreate,
  aset_data, adelete_node, aset_acl, aget_acl,
}

abbrev pub is_empty : List ℕ → Bool
is_empty [] = true
is_empty (c ∷ s) = false

abbrev pub add_if_some : List ℕ → Option ℕ → Manager → Manager
add_if_some path none m = m
add_if_some path (some id) m = add_custom path id m

-- `ProcAsyncWatcher`.
unfoldable pub proc_async_watcher : Pending → Manager → Manager
proc_async_watcher c m =
    if is_empty c.watch_path
    then m
    else if not (is_zero c.global_add)
    then add_global c.watch_path c.global_add m
    else add_if_some c.watch_path c.watcher m

abbrev pub put_some : List ℕ → Option Info → Manager → Manager
put_some path none m = m
put_some path (some info) m = put_info path info m

abbrev pub put_or_erase : List ℕ → Option Info → Manager → Manager
put_or_erase path none m = record m { ephemerals = drop_key path m.ephemerals }
put_or_erase path (some info) m = put_info path info m

-- `InnerVoidCompletion`.
unfoldable pub void_completion : Rc → Pending → Manager → Manager
void_completion rc c m =
    if is_ok rc && not (is_empty c.ephemeral_path)
    then put_or_erase c.ephemeral_path c.ephemeral_info m
    else m

abbrev pub is_exists : Kind → Bool
is_exists exists = true
is_exists _ = false

abbrev pub waits_for_exists : Option ℕ → Manager → Bool
waits_for_exists none m = false
waits_for_exists (some id) m = is_exists (m.contexts id).kind

-- `m_global_watcher_add_type == WATCHER_EXISTS`.
abbrev pub is_watcher_exists : Mask → Bool
is_watcher_exists a = covers a watcher_exists && not a.children_bit

-- The first half of `InnerStatCompletion`.
abbrev pub stat_ephemeral : Rc → Pending → Manager → Manager
stat_ephemeral rc c m =
    if is_ok rc && not (is_empty c.ephemeral_path)
    then put_some c.ephemeral_path c.ephemeral_info m
    else m

-- `InnerStatCompletion`.
unfoldable pub stat_completion : Rc → Pending → Manager → Manager
stat_completion rc c m =
    let m' = stat_ephemeral rc c m in
    if is_ok rc
      || (is_no_node rc && (is_watcher_exists c.global_add || waits_for_exists c.watcher m'))
    then proc_async_watcher c m'
    else m'

-- `InnerDataCompletion`, `InnerStringsCompletion` and `InnerStringsStatCompletion`.
unfoldable pub data_completion : Rc → Pending → Manager → Manager
data_completion rc c m = if is_ok rc then proc_async_watcher c m else m

unfoldable pub strings_completion : Rc → Pending → Manager → Manager
strings_completion rc c m = if is_ok rc then proc_async_watcher c m else m

-- `InnerStringCompletion`.
unfoldable pub string_completion : Rc → Pending → Manager → Manager
string_completion rc c m =
    if is_ok rc && not (is_empty c.ephemeral_path)
    then put_some c.ephemeral_path c.ephemeral_info m
    else m

-- `InnerAclCompletion` only calls the user's function.
unfoldable pub acl_completion : Rc → Pending → Manager → Manager
acl_completion rc c m = m

-- `AMulti`. Without operations nothing is sent. The operations that the context holds are those of the
-- call, and `complete` takes them from there.
unfoldable pub amulti : List Op → Option Pending
amulti [] = none
amulti (op ∷ ops) = some plain

abbrev pub sent : Manager × Pending → Manager × Option Pending
sent (m, c) = (m, some c)

-- The calls that have both forms.
pub data Request : Type 0 where
  exists_global : List ℕ → Bool → Request
  exists_custom : List ℕ → ℕ → Request
  get_global : List ℕ → Bool → Request
  get_custom : List ℕ → ℕ → Request
  children_global : List ℕ → Bool → Request
  children_custom : List ℕ → ℕ → Request
  create : (path value : List ℕ) (acl : ℕ) → Flags → Request
  set_data : (path value : List ℕ) → Request
  delete_node : List ℕ → Request
  get_acl : List ℕ → Request
  set_acl : List ℕ → ℕ → Request
  multi : List Op → Request

-- What the server answers: a code, and those of the operations of `Multi`.
pub record Reply : Type 0 where
  pub code : Rc
  pub results : List Rc

-- The call that waits, at an answer.
unfoldable pub call : Request → Reply → Manager → Manager
call (Request.exists_global path watch) a m = Requests.exists_global a.code path watch m
call (Request.exists_custom path id) a m = Requests.exists_custom a.code path id m
call (Request.get_global path watch) a m = Requests.get_global a.code path watch m
call (Request.get_custom path id) a m = Requests.get_custom a.code path id m
call (Request.children_global path watch) a m = get_children_global a.code path watch m
call (Request.children_custom path id) a m = get_children_custom a.code path id m
call (Request.create path value acl flags) a m = Requests.create a.code path value acl flags m
call (Request.set_data path value) a m = Requests.set_data a.code path value m
call (Request.delete_node path) a m = Requests.delete_node a.code path m
call (Request.get_acl path) a m = Requests.get_acl a.code path m
call (Request.set_acl path acl) a m = Requests.set_acl a.code path acl m
call (Request.multi ops) a m = (Multi.multi ops a.code a.results m).1

-- The call that does not wait: what is pending, if the call is sent.
unfoldable pub start : Request → Manager → Manager × Option Pending
start (Request.exists_global path watch) m = (m, some (aexists_global path watch m))
start (Request.exists_custom path id) m = sent (aexists_custom path id m)
start (Request.get_global path watch) m = (m, some (aget_global path watch m))
start (Request.get_custom path id) m = sent (aget_custom path id m)
start (Request.children_global path watch) m = (m, some (aget_children_global path watch m))
start (Request.children_custom path id) m = sent (aget_children_custom path id m)
start (Request.create path value acl flags) m = (m, some (acreate path value acl flags m))
start (Request.set_data path value) m = (m, some (aset_data path value m))
start (Request.delete_node path) m = (m, some (adelete_node path m))
start (Request.get_acl path) m = (m, some (aget_acl path m))
start (Request.set_acl path acl) m = (m, some (aset_acl path acl m))
start (Request.multi ops) m = (m, amulti ops)

-- Its completion, at an answer.
unfoldable pub complete : Request → Reply → Pending → Manager → Manager
complete (Request.exists_global path watch) a c m = stat_completion a.code c m
complete (Request.exists_custom path id) a c m = stat_completion a.code c m
complete (Request.get_global path watch) a c m = data_completion a.code c m
complete (Request.get_custom path id) a c m = data_completion a.code c m
complete (Request.children_global path watch) a c m = strings_completion a.code c m
complete (Request.children_custom path id) a c m = strings_completion a.code c m
complete (Request.create path value acl flags) a c m = string_completion a.code c m
complete (Request.set_data path value) a c m = stat_completion a.code c m
complete (Request.delete_node path) a c m = void_completion a.code c m
complete (Request.get_acl path) a c m = acl_completion a.code c m
complete (Request.set_acl path acl) a c m = void_completion a.code c m
complete (Request.multi ops) a c m = multi_completion ops a.results m

-- The completion of what was started; a call that was not sent has none.
unfoldable pub finish : Request → Reply → Manager × Option Pending → Manager
finish r a (m, none) = m
finish r a (m, some c) = complete r a c m
