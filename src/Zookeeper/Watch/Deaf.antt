-- ===== src/Zookeeper/Watch/Deaf.antt =====
-- The global watcher of src/CppZookeeper.cpp has one context for every path and for the session, and
-- `InnerWatcher` stops that context where one path has no watcher left.
use moon_lib.Common.{
  ℕ, ◌≡◌, refl, ap, ◌∙◌, true, false, Option, none, some, List, [], ◌∷◌, ◌++◌, arith, Bool-cases,
  inl, inr,
}
use moon_lib.Text.Dict.{find}
use moon_lib.Zookeeper.{Mask, watcher_exists, covers, global, Manager}
use moon_lib.Zookeeper.Watch.{
  Event, deleted, Answers, Turn, gone_turn, global_turn, mask_found, set_stop, end_global, register,
  is_empty, inform, sessions, inner_watcher,
}

abbrev pub option_list : Option Event → List Event
option_list none = []
option_list (some e) = e ∷ []

-- Several events of one context, one after the other: the manager at the end, and what was told.
unfoldable pub handle_all :
    (Manager → Manager)
    → (Manager → Manager)
    → List (Answers × Event × List ℕ)
    → ℕ
    → Manager
    → Manager × List Event
handle_all resume reconnect [] id m = (m, [])
handle_all resume reconnect ((ans, e, path) ∷ l) id m =
    let o = inner_watcher resume reconnect ans e path id m in
    let (m', told) = handle_all resume reconnect l id o.manager in (m', option_list o.told ++ told)

stopped_ignores :
    (resume reconnect : Manager → Manager) (ans : Answers) (e : Event) (path : List ℕ) (id : ℕ)
    (m : Manager)
    → (m.contexts id).is_stop ≡ true
    → inner_watcher resume reconnect ans e path id m ≡ record { manager = m; told = none }
unfolding inner_watcher
stopped_ignores resume reconnect ans e path id m h = ground arith

stopped_ignores_all :
    (resume reconnect : Manager → Manager) (l : List (Answers × Event × List ℕ)) (id : ℕ)
    (m : Manager)
    → (m.contexts id).is_stop ≡ true
    → handle_all resume reconnect l id m ≡ (m, [])
unfolding handle_all
stopped_ignores_all resume reconnect [] id m h = refl
stopped_ignores_all resume reconnect ((ans, e, path) ∷ l) id m h =
    rw (stopped_ignores resume reconnect ans e path id m h)
      (stopped_ignores_all resume reconnect l id m h)

-- The end of the handler leaves a stopped context as it is.
mask_found-contexts :
    (o : Option Mask) (path : List ℕ) (a : Mask) (m : Manager)
    → (mask_found o path a m).contexts ≡ m.contexts
mask_found-contexts none path a m = refl
mask_found-contexts (some b) path a m = refl

set_stop-is_stop : (id : ℕ) (m : Manager) → ((set_stop id m).contexts id).is_stop ≡ true
set_stop-is_stop id m = ground arith

end_global-stops :
    (ans : Answers) (path : List ℕ) (id : ℕ) (t : Turn)
    → t.stop ≡ true
    → ((end_global ans path id t).manager.contexts id).is_stop ≡ true
unfolding end_global
end_global-stops ans path id t h = elim (Bool-cases (ans.user t.event)) [
  | inl e ↦
      rw (e, h)
        (ap (λ c. (c id).is_stop) (keep t.mask (set_stop id t.manager))
          ∙ set_stop-is_stop id t.manager)
  | inr e ↦
      rw (e, h)
        (ap (λ c. (c id).is_stop) (keep t.mask (set_stop id t.manager))
          ∙ set_stop-is_stop id t.manager)
]
  where
    keep :
        (a : Mask) (m : Manager)
        → (mask_found (find path m.global_types) path a m).contexts ≡ m.contexts
    keep a m = mask_found-contexts (find path m.global_types) path a m

gone_turn-stop :
    (ans : Answers) (path : List ℕ) (types : Mask) (m : Manager)
    → covers types watcher_exists ≡ false
    → (gone_turn ans.again path types m).stop ≡ true
unfolding gone_turn
gone_turn-stop ans path types m h = rw h refl

-- An event that tells that a node is gone, at a path whose global watcher is not one of `Exists`, stops
-- the context of the global watcher, and then no event of that context is handled: not at another
-- path, and not one that tells that the session is connected or expired.
pub global_goes_deaf :
    (resume reconnect : Manager → Manager) (ans : Answers) (path : List ℕ) (id : ℕ) (types : Mask)
    (m : Manager) (later : List (Answers × Event × List ℕ))
    → m.contexts id ≡ record { kind = global; is_stop = false; auto_reg = true }
    → is_empty path ≡ false
    → find path m.global_types ≡ some types
    → covers types watcher_exists ≡ false
    → let m' = (inner_watcher resume reconnect ans deleted path id m).manager in
      handle_all resume reconnect later id m' ≡ (m', [])
unfolding inner_watcher sessions inform register global_turn
global_goes_deaf resume reconnect ans path id types m later live p f c =
    stopped_ignores_all resume reconnect later id _ (
      rw (live, p, f)
        (end_global-stops ans path id (gone_turn ans.again path types m)
          (gone_turn-stop ans path types m c)))
