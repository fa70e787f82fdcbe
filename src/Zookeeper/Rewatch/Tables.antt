-- ===== src/Zookeeper/Rewatch/Tables.antt =====
-- The tables of the manager of src/CppZookeeper.cpp, where a watcher that is known is registered again.
use moon_lib.Common.{
  ℕ, ◌≡◌, ◌⊎◌, refl, ap, ◌∙◌, Bool, true, false, ◌||◌, not, Option, none, some, List, [], ◌∷◌,
  if◌then◌else◌, inl, inr, Bool-cases, arith,
}
use moon_lib.Text.{str_eq}
use moon_lib.Text.Dict.{find, find-put}
use moon_lib.Text.Reverse.{str_eq_iff}
use moon_lib.Zookeeper.{
  Rc, is_ok, is_no_node, Mask, watcher_get, watcher_exists, watcher_get_children, or_zero, covers,
  mask_or, Manager, add_global,
}
use moon_lib.Zookeeper.Absolute.{IsAbsolute, absolute_stays}
use moon_lib.Zookeeper.Requests.{exists_global, get_global, get_children_global}
use moon_lib.Zookeeper.Rewatch.{is_absolute}

-- A manager with the same tables, where the one of the types is seen by its look-ups.
pub record HasTables (m m' : Manager) : Type 0 where
  pub same_root : m'.root_path ≡ m.root_path
  pub same_types : (path : List ℕ) → find path m'.global_types ≡ find path m.global_types
  pub same_custom : m'.custom ≡ m.custom
  pub same_contexts : m'.contexts ≡ m.contexts
  pub same_ephemerals : m'.ephemerals ≡ m.ephemerals

pub HasTables-refl : (m : Manager) → HasTables m m
HasTables-refl m = record {
  same_root = refl;
  same_types = λ path. refl;
  same_custom = refl;
  same_contexts = refl;
  same_ephemerals = refl;
}

pub HasTables-trans : (m m' m'' : Manager) → HasTables m m' → HasTables m' m'' → HasTables m m''
HasTables-trans m m' m'' h k = record {
  same_root = k.same_root ∙ h.same_root;
  same_types = λ path. k.same_types path ∙ h.same_types path;
  same_custom = k.same_custom ∙ h.same_custom;
  same_contexts = k.same_contexts ∙ h.same_contexts;
  same_ephemerals = k.same_ephemerals ∙ h.same_ephemerals;
}

bit_or : (a b : Bool) → (a || not b) ≡ true → (a || b) ≡ a
bit_or a b h = ground arith

covers-mask_or : (a b : Mask) → covers a b ≡ true → mask_or a b ≡ a
covers-mask_or a b h =
    let g : (a.get_bit || b.get_bit) ≡ a.get_bit = bit_or a.get_bit b.get_bit (ground arith) in
    let e : (a.exists_bit || b.exists_bit) ≡ a.exists_bit =
      bit_or a.exists_bit b.exists_bit (ground arith) in
    let c : (a.children_bit || b.children_bit) ≡ a.children_bit =
      bit_or a.children_bit b.children_bit (ground arith) in
    rw (g, e, c) refl

with_types :
    (o : Option Mask) (type : Mask)
    → covers (or_zero none) type ≡ false
    → covers (or_zero o) type ≡ true
    → some (mask_or (or_zero o) type) ≡ o
with_types none type n h = absurd (cc)
with_types (some types) type n h = ap some (covers-mask_or types type h)

-- To add types that a path has changes nothing.
add_global-HasTables :
    (path : List ℕ) (type : Mask) (m : Manager)
    → covers (or_zero none) type ≡ false
    → covers (or_zero (find path m.global_types)) type ≡ true
    → HasTables m (add_global path type m)
unfolding add_global
add_global-HasTables path type m n h = record {
  same_root = refl;
  same_types = λ q.
      find-put q path (mask_or (or_zero (find path m.global_types)) type) m.global_types
      ∙ looked_up q (Bool-cases (str_eq path q));
  same_custom = refl;
  same_contexts = refl;
  same_ephemerals = refl;
}
  where
    looked_up :
        (q : List ℕ)
        → (str_eq path q ≡ true) ⊎ (str_eq path q ≡ false)
        → (if str_eq path q
            then some (mask_or (or_zero (find path m.global_types)) type)
            else find q m.global_types)
          ≡ find q m.global_types
    looked_up q (inl e) = rw e (
        with_types (find path m.global_types) type n h
        ∙ ap (λ p. find p m.global_types) ((str_eq_iff path q).0 e))
    looked_up q (inr e) = rw e refl

pub is_absolute-IsAbsolute : (path : List ℕ) → is_absolute path ≡ true → IsAbsolute path
is_absolute-IsAbsolute [] h = absurd (cc)
is_absolute-IsAbsolute (c ∷ s) h = ground arith

-- The calls that change the table of types.
pub exists_global-HasTables :
    (rc : Rc) (path : List ℕ) (m : Manager)
    → is_absolute path ≡ true
    → covers (or_zero (find path m.global_types)) watcher_exists ≡ true
    → HasTables m (exists_global rc path true m)
unfolding exists_global
exists_global-HasTables rc path m a h =
    let there = absolute_stays m path (is_absolute-IsAbsolute path a) in
    elim (Bool-cases (is_ok rc || is_no_node rc)) [
      | inl e ↦ rw (e, there) (add_global-HasTables path watcher_exists m refl h)
      | inr e ↦ rw e (HasTables-refl m)
    ]

pub get_global-HasTables :
    (rc : Rc) (path : List ℕ) (m : Manager)
    → is_absolute path ≡ true
    → covers (or_zero (find path m.global_types)) watcher_get ≡ true
    → HasTables m (get_global rc path true m)
unfolding get_global
get_global-HasTables rc path m a h =
    let there = absolute_stays m path (is_absolute-IsAbsolute path a) in
    elim (Bool-cases (is_ok rc)) [
      | inl e ↦ rw (e, there) (add_global-HasTables path watcher_get m refl h)
      | inr e ↦ rw e (HasTables-refl m)
    ]

pub get_children_global-HasTables :
    (rc : Rc) (path : List ℕ) (m : Manager)
    → is_absolute path ≡ true
    → covers (or_zero (find path m.global_types)) watcher_get_children ≡ true
    → HasTables m (get_children_global rc path true m)
unfolding get_children_global
get_children_global-HasTables rc path m a h =
    let there = absolute_stays m path (is_absolute-IsAbsolute path a) in
    elim (Bool-cases (is_ok rc)) [
      | inl e ↦ rw (e, there) (add_global-HasTables path watcher_get_children m refl h)
      | inr e ↦ rw e (HasTables-refl m)
    ]
