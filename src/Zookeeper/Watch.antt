-- ===== src/Zookeeper/Watch.antt =====
-- `InnerWatcher` of src/CppZookeeper.cpp: what the manager does with an event of a watcher. The user's
-- function is a parameter that answers for an event; it does not call the manager here.
pub mod Table
pub mod Deaf
pub mod Live
pub mod Kept
use moon_lib.Common.{
  ℕ, Bool, true, false, not, ◌&&◌, ◌||◌, Option, none, some, List, [], ◌∷◌, ◌==◌, if◌then◌else◌,
}
use moon_lib.Text.Dict.{find, put, drop_key}
use moon_lib.Zookeeper.{
  Rc, ok, is_ok, is_no_node, Mask, watcher_get, watcher_exists, watcher_get_children, no_watcher,
  mask_and, mask_not, is_zero, covers, Kind, not_watcher, global, exists, get, get_children,
  Watcher, Manager, del_custom,
}
use moon_lib.Zookeeper.Requests.{exists_global, get_global, get_children_global}

-- The types of the C client's events. A session event tells that the session is connected, expired, or
-- something else.
pub data Event : Type 0 where
  created : Event
  deleted : Event
  changed : Event
  child : Event
  not_watching : Event
  connected : Event
  expired : Event
  session : Event
  other : ℕ → Event

-- Whether the user's function answers that the watcher is to go, and what the client answers when the
-- watcher is registered again.
pub record Answers : Type 0 where
  pub user : Event → Bool
  pub again : Rc

-- The manager afterwards, and the event that the user's function was called with.
pub record Outcome : Type 0 where
  pub manager : Manager
  pub told : Option Event

-- What the registration leaves to the end of the handler: the event to tell, whether the context is
-- stopped, and the types that stay where the watcher goes.
pub record Turn : Type 0 where
  pub manager : Manager
  pub event : Event
  pub stop : Bool
  pub mask : Mask

abbrev pub set_stop : ℕ → Manager → Manager
set_stop id m = record m {
  contexts = λ j. if id == j then record (m.contexts j) { is_stop = true } else m.contexts j;
}

abbrev pub turn : Manager → Event → Bool → Turn
turn m e stop = record { manager = m; event = e; stop = stop; mask = no_watcher }

-- A watcher of `Exists` with a function of its own.
unfoldable pub exists_turn : Rc → Event → Manager → Turn
exists_turn rc e m = if is_ok rc || is_no_node rc then turn m e false else turn m not_watching true

abbrev pub is_deleted : Event → Bool
is_deleted deleted = true
is_deleted _ = false

-- One of `Get` or `GetChildren`.
unfoldable pub data_turn : Rc → Event → Manager → Turn
data_turn rc e m =
    if is_deleted e
    then turn m e true
    else if is_no_node rc
    then turn m deleted true
    else if is_ok rc
    then turn m e false
    else turn m not_watching true

-- The end of the global branch: an error of the registration.
abbrev pub checked : Rc → Event → Mask → Manager → Turn
checked rc e mask m =
    if is_ok rc
    then record { manager = m; event = e; stop = false; mask = mask }
    else record { manager = m; event = not_watching; stop = true; mask = mask }

-- A missing node is no error of `Exists`.
abbrev pub forgive : Rc → Rc
forgive rc = if is_no_node rc then ok else rc

-- The global watcher, at a change or at a new node.
unfoldable pub node_turn : Rc → Event → List ℕ → Mask → Manager → Turn
node_turn rc e path types m =
    if covers types watcher_exists
    then checked (forgive rc) e (mask_not watcher_exists) (exists_global rc path true m)
    else if covers types watcher_get
    then checked rc e (mask_not watcher_get) (get_global rc path true m)
    else record { manager = m; event = e; stop = true; mask = mask_not watcher_exists }

-- The global watcher, where the node is gone.
unfoldable pub gone_turn : Rc → List ℕ → Mask → Manager → Turn
gone_turn rc path types m =
    if covers types watcher_exists
    then checked (forgive rc) deleted no_watcher (
        exists_global rc path true
          (record m { global_types = put path watcher_exists m.global_types }))
    else record { manager = m; event = deleted; stop = true; mask = no_watcher }

-- The global watcher, at a change of the children.
unfoldable pub child_turn : Rc → List ℕ → Mask → Manager → Turn
child_turn rc path types m =
    if covers types watcher_get_children
    then checked rc child (mask_not watcher_get_children) (get_children_global rc path true m)
    else record { manager = m; event = child; stop = true; mask = mask_not watcher_get_children }

unfoldable pub global_turn : Rc → Event → List ℕ → Mask → Manager → Turn
global_turn rc changed path types m = node_turn rc changed path types m
global_turn rc created path types m = node_turn rc created path types m
global_turn rc deleted path types m = gone_turn rc path types m
global_turn rc child path types m = child_turn rc path types m
global_turn rc e path types m = turn m e false

abbrev pub put_or_drop : List ℕ → Mask → Manager → Manager
put_or_drop path a m = record m {
  global_types = if is_zero a then drop_key path m.global_types else put path a m.global_types;
}

abbrev pub mask_found : Option Mask → List ℕ → Mask → Manager → Manager
mask_found none path stay m = m
mask_found (some a) path stay m = put_or_drop path (mask_and a stay) m

-- The user's function is called, and the watcher goes where it says so or the context is stopped.
unfoldable pub end_global : Answers → List ℕ → ℕ → Turn → Outcome
end_global ans path id t =
    let m = if t.stop then set_stop id t.manager else t.manager in
    record {
      manager =
          if ans.user t.event || t.stop
          then mask_found (find path m.global_types) path t.mask m
          else m;
      told = some t.event;
    }

unfoldable pub end_custom : Answers → List ℕ → ℕ → Turn → Outcome
end_custom ans path id t = record {
  manager =
      if ans.user t.event || t.stop then del_custom path id (set_stop id t.manager) else t.manager;
  told = some t.event;
}

abbrev pub global_found : Answers → Event → List ℕ → ℕ → Option Mask → Manager → Outcome
global_found ans e path id none m = record { manager = m; told = none }
global_found ans e path id (some types) m =
    end_global ans path id (global_turn ans.again e path types m)

-- The branches on the kind of the watcher, for a watcher that is registered again.
unfoldable pub register : Answers → Event → List ℕ → ℕ → Kind → Manager → Outcome
register ans e path id not_watcher m = record { manager = m; told = none }
register ans e path id global m = global_found ans e path id (find path m.global_types) m
register ans e path id exists m = end_custom ans path id (exists_turn ans.again e m)
register ans e path id get m = end_custom ans path id (data_turn ans.again e m)
register ans e path id get_children m = end_custom ans path id (data_turn ans.again e m)

abbrev pub is_empty : List ℕ → Bool
is_empty [] = true
is_empty (c ∷ s) = false

-- The handler from the test of the user's function on.
unfoldable pub inform : Answers → Event → List ℕ → ℕ → Manager → Outcome
inform ans e path id m =
    if not (m.contexts id).auto_reg || is_empty path
    then record { manager = m; told = some e }
    else register ans e path id (m.contexts id).kind m

-- Session events: `resume` is what the manager does when it is connected, and `reconnect` when the
-- session is expired, after which the handler returns.
unfoldable pub sessions :
    (Manager → Manager) → (Manager → Manager) → Answers → Event → List ℕ → ℕ → Manager → Outcome
sessions resume reconnect ans connected path id m = inform ans connected path id (resume m)
sessions resume reconnect ans expired path id m = record { manager = reconnect m; told = none }
sessions resume reconnect ans e path id m = inform ans e path id m

abbrev pub is_not_watcher : Kind → Bool
is_not_watcher not_watcher = true
is_not_watcher _ = false

-- `InnerWatcher`, for a handle that is the manager's and a watcher with a user's function.
unfoldable pub inner_watcher :
    (Manager → Manager) → (Manager → Manager) → Answers → Event → List ℕ → ℕ → Manager → Outcome
inner_watcher resume reconnect ans e path id m =
    if is_not_watcher (m.contexts id).kind || (m.contexts id).is_stop
    then record { manager = m; told = none }
    else sessions resume reconnect ans e path id m
