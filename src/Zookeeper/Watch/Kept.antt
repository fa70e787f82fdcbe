-- ===== src/Zookeeper/Watch/Kept.antt =====
-- The global watcher of src/CppZookeeper.cpp is registered again: the types of a path stay.
use moon_lib.Common.{
  ℕ, ◌≡◌, refl, ◌∙◌, true, false, some, List, arith, if◌then◌else◌, Bool-cases, inl, inr,
}
use moon_lib.Text.{str_eq}
use moon_lib.Text.Reverse.{str_eq_iff}
use moon_lib.Text.Dict.{find, put, find-put}
use moon_lib.Zookeeper.{
  ok, Mask, watcher_get, watcher_exists, watcher_get_children, mask_or, covers, global, Manager,
  add_global,
}
use moon_lib.Zookeeper.Absolute.{IsAbsolute, absolute_stays}
use moon_lib.Zookeeper.Requests.{exists_global, get_global, get_children_global}
use moon_lib.Zookeeper.Watch.{
  Event, created, deleted, changed, child, not_watching, connected, expired, session, other,
  Answers, Turn, node_turn, gone_turn, child_turn, global_turn, end_global, register, is_deleted,
}

-- The types that an event belongs to.
abbrev pub Concerns : Event → Mask → Type 0
Concerns created types = covers types watcher_get ≡ true
Concerns changed types = covers types watcher_get ≡ true
Concerns deleted types = covers types watcher_exists ≡ true
Concerns child types = covers types watcher_get_children ≡ true
Concerns _ types = ⊥

find-put_self :
    (path : List ℕ) (a : Mask) (l : List (List ℕ × Mask)) → find path (put path a l) ≡ some a
find-put_self path a l =
    let self : str_eq path path ≡ true = (str_eq_iff path path).1 refl in
    find-put path path a l ∙ rw self refl

-- Types that are there already are not changed by being added.
add_global-find :
    (path : List ℕ) (a types : Mask) (m : Manager)
    → find path m.global_types ≡ some types
    → covers types a ≡ true
    → find path (add_global path a m).global_types ≡ some types
unfolding add_global
add_global-find path a types m f h =
    let same : mask_or types a ≡ types = ground arith in
    rw (f, same) (find-put_self path types m.global_types)

-- A turn that goes on with the types at the path.
abbrev Goes : Turn → Event → List ℕ → Mask → Type 0
Goes t e path types =
    (t.event ≡ e) × (t.stop ≡ false) × (find path t.manager.global_types ≡ some types)

node_turn-Goes :
    (e : Event) (path : List ℕ) (types : Mask) (m : Manager)
    → IsAbsolute path
    → find path m.global_types ≡ some types
    → covers types watcher_get ≡ true
    → Goes (node_turn ok e path types m) e path types
unfolding node_turn exists_global get_global
node_turn-Goes e path types m h f c = elim (Bool-cases (covers types watcher_exists)) [
  | inl x ↦
      rw (x, absolute_stays m path h) (refl, refl, add_global-find path watcher_exists types m f x)
  | inr x ↦
      rw (x, c, absolute_stays m path h) (refl, refl, add_global-find path watcher_get types m f c)
]

global_turn-Goes :
    (e : Event) (path : List ℕ) (types : Mask) (m : Manager)
    → IsAbsolute path
    → find path m.global_types ≡ some types
    → Concerns e types
    → Goes (global_turn ok e path types m) e path (if is_deleted e then watcher_exists else types)
unfolding global_turn gone_turn child_turn exists_global get_children_global
global_turn-Goes created path types m h f c = node_turn-Goes created path types m h f c
global_turn-Goes changed path types m h f c = node_turn-Goes changed path types m h f c
global_turn-Goes deleted path types m h f c =
    let m' : Manager = record m { global_types = put path watcher_exists m.global_types } in
    rw (c, absolute_stays m' path h)
      (
        refl,
        refl,
        add_global-find path watcher_exists watcher_exists m'
            (find-put_self path watcher_exists m.global_types) refl,
      )
global_turn-Goes child path types m h f c =
    rw (c, absolute_stays m path h)
      (refl, refl, add_global-find path watcher_get_children types m f c)
global_turn-Goes not_watching path types m h f c = absurd c
global_turn-Goes connected path types m h f c = absurd c
global_turn-Goes expired path types m h f c = absurd c
global_turn-Goes session path types m h f c = absurd c
global_turn-Goes (other n) path types m h f c = absurd c

end_global-Goes :
    (ans : Answers) (e : Event) (path : List ℕ) (id : ℕ) (types : Mask) (t : Turn)
    → Goes t e path types
    → ans.user e ≡ false
    → (find path (end_global ans path id t).manager.global_types ≡ some types)
      × ((end_global ans path id t).told ≡ some e)
unfolding end_global
end_global-Goes ans e path id types t (ev, st, f) u = rw (ev, st, u) (f, refl)

-- Where the server takes the new registration and the user's function keeps the watcher, an event of a
-- type that the path is watched for is told to the user, and the path keeps its types; where the
-- node is gone it keeps those of Exists.
pub register-keeps :
    (ans : Answers) (e : Event) (path : List ℕ) (id : ℕ) (types : Mask) (m : Manager)
    → IsAbsolute path
    → find path m.global_types ≡ some types
    → Concerns e types
    → ans.again ≡ ok
    → ans.user e ≡ false
    → let o = register ans e path id global m in
      (o.told ≡ some e)
      × (find path o.manager.global_types ≡ some (if is_deleted e then watcher_exists else types))
unfolding register end_global
register-keeps ans e path id types m h f c again u =
    let goes = global_turn-Goes e path types m h f c in
    let (kept, told) =
      end_global-Goes ans e path id (if is_deleted e then watcher_exists else types)
        (global_turn ok e path types m) goes u in
    rw (f, again) (told, kept)
