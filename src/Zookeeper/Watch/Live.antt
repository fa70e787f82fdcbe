-- ===== src/Zookeeper/Watch/Live.antt =====
-- The table of watchers with functions of their own, of src/CppZookeeper.cpp, holds no context that is
-- stopped.
use moon_lib.Common.{
  ℕ, ◌≡◌, ◌⊎◌, refl, true, false, not, ◌||◌, Option, none, some, List, arith, if◌then◌else◌,
  Bool-cases, inl, inr,
}
use moon_lib.Text.Dict.{find}
use moon_lib.Zookeeper.{
  Rc, Mask, Kind, not_watcher, global, exists, get, get_children, Manager, add_global, has_custom,
  del_custom,
}
use moon_lib.Zookeeper.Requests.{exists_global, get_global, get_children_global}
use moon_lib.Zookeeper.Watch.Table.{
  is_custom, has_id, IsLive, Live-stopped, global-has_id, Live-drop_custom,
}
use moon_lib.Zookeeper.Watch.{
  Event, created, deleted, changed, child, not_watching, connected, expired, session, other,
  Answers, Turn, exists_turn, data_turn, node_turn, gone_turn, child_turn, global_turn, mask_found,
  global_found, set_stop, end_global, end_custom, register, is_empty, inform, sessions,
  is_not_watcher, inner_watcher,
}

-- The branches of the global watcher change neither the table nor the contexts.
abbrev pub Same : Manager → Manager → Type 0
Same m' m = (m'.custom ≡ m.custom) × (m'.contexts ≡ m.contexts)

global_turn-Same :
    (rc : Rc) (e : Event) (path : List ℕ) (types : Mask) (m : Manager)
    → Same (global_turn rc e path types m).manager m
unfolding global_turn node_turn gone_turn child_turn exists_global get_global get_children_global
    add_global
global_turn-Same rc created path types m = (ground arith, ground arith)
global_turn-Same rc deleted path types m = (ground arith, ground arith)
global_turn-Same rc changed path types m = (ground arith, ground arith)
global_turn-Same rc child path types m = (ground arith, ground arith)
global_turn-Same rc not_watching path types m = (refl, refl)
global_turn-Same rc connected path types m = (refl, refl)
global_turn-Same rc expired path types m = (refl, refl)
global_turn-Same rc session path types m = (refl, refl)
global_turn-Same rc (other n) path types m = (refl, refl)

mask_found-Same :
    (o : Option Mask) (path : List ℕ) (a : Mask) (m : Manager) → Same (mask_found o path a m) m
mask_found-Same none path a m = (refl, refl)
mask_found-Same (some b) path a m = (refl, refl)

IsLive-Same : (m m' : Manager) → Same m' m → IsLive m → IsLive m'
IsLive-Same m m' (p, q) h = rw (p, q) h

-- A context that stands in no entry may be stopped.
set_stop-IsLive :
    (id : ℕ) (m : Manager) → has_id id m.custom ≡ false → IsLive m → IsLive (set_stop id m)
set_stop-IsLive id m h v = Live-stopped m.contexts id m.custom h v

end_global-IsLive :
    (ans : Answers) (path : List ℕ) (id : ℕ) (t : Turn)
    → has_id id t.manager.custom ≡ false
    → IsLive t.manager
    → IsLive (end_global ans path id t).manager
unfolding end_global
end_global-IsLive ans path id t h v = elim (Bool-cases (ans.user t.event || t.stop)) [
  | inl e ↦ rw e (
      IsLive-Same stopped_one
        (mask_found (find path stopped_one.global_types) path t.mask stopped_one)
        (mask_found-Same (find path stopped_one.global_types) path t.mask stopped_one) live)
  | inr e ↦ rw e live
]
  where
    stopped_one : Manager
    stopped_one = if t.stop then set_stop id t.manager else t.manager

    live : IsLive stopped_one
    live = elim (Bool-cases t.stop) [
      | inl e ↦ rw e (set_stop-IsLive id t.manager h v)
      | inr e ↦ rw e v
    ]

end_custom-IsLive :
    (ans : Answers) (path : List ℕ) (id : ℕ) (t : Turn)
    → has_custom path id t.manager.custom ≡ true
    → IsLive t.manager
    → IsLive (end_custom ans path id t).manager
unfolding end_custom del_custom
end_custom-IsLive ans path id t h v = elim (Bool-cases (ans.user t.event || t.stop)) [
  | inl e ↦ rw e (Live-drop_custom t.manager.contexts path id t.manager.custom h v)
  | inr e ↦ rw e v
]

exists_turn-manager : (rc : Rc) (e : Event) (m : Manager) → (exists_turn rc e m).manager ≡ m
unfolding exists_turn
exists_turn-manager rc e m = ground arith

data_turn-manager : (rc : Rc) (e : Event) (m : Manager) → (data_turn rc e m).manager ≡ m
unfolding data_turn
data_turn-manager rc e m = ground arith

-- The event belongs to the global watcher, or to a watcher that the table holds for its path.
abbrev pub IsKnown : List ℕ → ℕ → Manager → Type 0
IsKnown path id m = (is_custom (m.contexts id).kind ≡ false) ⊎ (has_custom path id m.custom ≡ true)

custom-IsLive :
    (ans : Answers) (path : List ℕ) (id : ℕ) (m : Manager) (t : Turn)
    → t.manager ≡ m
    → is_custom (m.contexts id).kind ≡ true
    → IsKnown path id m
    → IsLive m
    → IsLive (end_custom ans path id t).manager
custom-IsLive ans path id m t e k (inl no_custom) v = cc
custom-IsLive ans path id m t e k (inr h) v = end_custom-IsLive ans path id t (rw e h) (rw e v)

global-IsLive :
    (ans : Answers) (e : Event) (path : List ℕ) (id : ℕ) (o : Option Mask) (m : Manager)
    → is_custom (m.contexts id).kind ≡ false
    → IsLive m
    → IsLive (global_found ans e path id o m).manager
global-IsLive ans e path id none m k v = v
global-IsLive ans e path id (some types) m k v =
    let same = global_turn-Same ans.again e path types m in
    end_global-IsLive ans path id (global_turn ans.again e path types m)
      (rw same.0 (global-has_id m.contexts id m.custom k v))
      (IsLive-Same m (global_turn ans.again e path types m).manager same v)

register-IsLive :
    (ans : Answers) (e : Event) (path : List ℕ) (id : ℕ) (kind : Kind) (m : Manager)
    → (m.contexts id).kind ≡ kind
    → IsKnown path id m
    → IsLive m
    → IsLive (register ans e path id kind m).manager
unfolding register
register-IsLive ans e path id not_watcher m k h v = v
register-IsLive ans e path id global m k h v =
    global-IsLive ans e path id (find path m.global_types) m (rw k refl) v
register-IsLive ans e path id exists m k h v =
    custom-IsLive ans path id m (exists_turn ans.again e m) (exists_turn-manager ans.again e m)
      (rw k refl) h v
register-IsLive ans e path id get m k h v =
    custom-IsLive ans path id m (data_turn ans.again e m) (data_turn-manager ans.again e m)
      (rw k refl) h v
register-IsLive ans e path id get_children m k h v =
    custom-IsLive ans path id m (data_turn ans.again e m) (data_turn-manager ans.again e m)
      (rw k refl) h v

-- The part of the handler from the test of the user's function on.
inform-IsLive :
    (ans : Answers) (e : Event) (path : List ℕ) (id : ℕ) (m : Manager)
    → IsKnown path id m
    → IsLive m
    → IsLive (inform ans e path id m).manager
unfolding inform
inform-IsLive ans e path id m h v =
    elim (Bool-cases (not (m.contexts id).auto_reg || is_empty path)) [
      | inl b ↦ rw b v
      | inr b ↦ rw b (register-IsLive ans e path id (m.contexts id).kind m refl h v)
    ]

-- The user's function that is called in the session part sees the table as it was.
resumed-IsLive :
    (ans : Answers) (e : Event) (path : List ℕ) (id : ℕ) (m m' : Manager)
    → Same m' m
    → IsKnown path id m
    → IsLive m
    → IsLive (inform ans e path id m').manager
resumed-IsLive ans e path id m m' (p, q) h v =
    inform-IsLive ans e path id m' (known h) (IsLive-Same m m' (p, q) v)
  where
    known : IsKnown path id m → IsKnown path id m'
    known (inl k) = inl (rw q k)
    known (inr k) = inr (rw p k)

sessions-IsLive :
    (resume reconnect : Manager → Manager) (ans : Answers) (e : Event) (path : List ℕ) (id : ℕ)
    (m : Manager)
    → Same (resume m) m
    → Same (reconnect m) m
    → IsKnown path id m
    → IsLive m
    → IsLive (sessions resume reconnect ans e path id m).manager
unfolding sessions
sessions-IsLive resume reconnect ans connected path id m r x h v =
    resumed-IsLive ans connected path id m (resume m) r h v
sessions-IsLive resume reconnect ans expired path id m r x h v = IsLive-Same m (reconnect m) x v
sessions-IsLive resume reconnect ans created path id m r x h v =
    inform-IsLive ans created path id m h v
sessions-IsLive resume reconnect ans deleted path id m r x h v =
    inform-IsLive ans deleted path id m h v
sessions-IsLive resume reconnect ans changed path id m r x h v =
    inform-IsLive ans changed path id m h v
sessions-IsLive resume reconnect ans child path id m r x h v = inform-IsLive ans child path id m h v
sessions-IsLive resume reconnect ans not_watching path id m r x h v =
    inform-IsLive ans not_watching path id m h v
sessions-IsLive resume reconnect ans session path id m r x h v =
    inform-IsLive ans session path id m h v
sessions-IsLive resume reconnect ans (other n) path id m r x h v =
    inform-IsLive ans (other n) path id m h v

-- Let `InnerWatcher` handle any event of a known watcher, also one of the session, where what the
-- manager does when it is connected or expired changes neither the table of watchers with their own
-- functions nor the contexts, and where the user's function answers without calling the manager. Then,
-- whatever the user's function and the server answer, the contexts in that table are not stopped, are
-- of watchers with their own functions, and stand there once, where they did before.
pub inner_watcher-IsLive :
    (resume reconnect : Manager → Manager) (ans : Answers) (e : Event) (path : List ℕ) (id : ℕ)
    (m : Manager)
    → Same (resume m) m
    → Same (reconnect m) m
    → IsKnown path id m
    → IsLive m
    → IsLive (inner_watcher resume reconnect ans e path id m).manager
unfolding inner_watcher
inner_watcher-IsLive resume reconnect ans e path id m r x h v =
    elim (Bool-cases (is_not_watcher (m.contexts id).kind || (m.contexts id).is_stop)) [
      | inl b ↦ rw b v
      | inr b ↦ rw b (sessions-IsLive resume reconnect ans e path id m r x h v)
    ]
