-- ===== src/Zookeeper/Watch/Table.antt =====
-- The table of watchers with functions of their own, of src/CppZookeeper.cpp, as a list.
use moon_lib.Common.{
  ℕ, ◌≡◌, refl, subst, Bool, true, false, ◌&&◌, ◌||◌, List, [], ◌∷◌, arith, ◌==◌, if◌then◌else◌,
  Bool-cases, inl, inr,
}
use moon_lib.Text.{str_eq}
use moon_lib.Zookeeper.{Kind, exists, get, get_children, Watcher, Manager, has_custom, drop_custom}

abbrev pub is_custom : Kind → Bool
is_custom exists = true
is_custom get = true
is_custom get_children = true
is_custom _ = false

unfoldable pub has_id : ℕ → List (List ℕ × ℕ) → Bool
has_id id [] = false
has_id id ((p, i) ∷ l) = i == id || has_id id l

-- Every context of the table is one of a watcher with its own function, is not stopped, and stands in
-- the table once.
abbrev pub Live : (ℕ → Watcher) → List (List ℕ × ℕ) → Type 0
Live ctx [] = Unit
Live ctx ((p, i) ∷ l) =
    ((ctx i).is_stop ≡ false) × (is_custom (ctx i).kind ≡ true) × (has_id i l ≡ false) × Live ctx l

abbrev pub IsLive : Manager → Type 0
IsLive m = Live m.contexts m.custom

-- The contexts with one of them stopped.
abbrev pub stopped : ℕ → (ℕ → Watcher) → ℕ → Watcher
stopped id ctx j = if id == j then record (ctx j) { is_stop = true } else ctx j

pub Live-stopped :
    (ctx : ℕ → Watcher) (id : ℕ) (l : List (List ℕ × ℕ))
    → has_id id l ≡ false
    → Live ctx l
    → Live (stopped id ctx) l
unfolding has_id
Live-stopped ctx id [] h v = tt
Live-stopped ctx id ((p, i) ∷ l) h (s, k, o, v) =
    let other_one : (id == i) ≡ false = ground arith in
    (rw other_one s, rw other_one k, o, Live-stopped ctx id l (ground arith) v)

pub global-has_id :
    (ctx : ℕ → Watcher) (id : ℕ) (l : List (List ℕ × ℕ))
    → is_custom (ctx id).kind ≡ false
    → Live ctx l
    → has_id id l ≡ false
unfolding has_id
global-has_id ctx id [] h v = refl
global-has_id ctx id ((p, i) ∷ l) h (s, k, o, v) = elim (Bool-cases (i == id)) [
  | inl e ↦
      let same : i ≡ id = ground arith in
      let wrong : is_custom (ctx id).kind ≡ true =
        subst (λ j. is_custom (ctx j).kind ≡ true) same k in
      cc
  | inr e ↦ rw e (global-has_id ctx id l h v)
]

pub has_custom-has_id :
    (path : List ℕ) (id : ℕ) (l : List (List ℕ × ℕ))
    → has_custom path id l ≡ true
    → has_id id l ≡ true
unfolding has_custom has_id
has_custom-has_id path id [] h = h
has_custom-has_id path id ((p, i) ∷ l) h = ground (arith, has_custom-has_id path id l)

has_id-drop_custom :
    (i id : ℕ) (path : List ℕ) (l : List (List ℕ × ℕ))
    → has_id i l ≡ false
    → has_id i (drop_custom path id l) ≡ false
unfolding has_id drop_custom
has_id-drop_custom i id path [] h = refl
has_id-drop_custom i id path ((p, j) ∷ l) h = elim (Bool-cases (str_eq p path && j == id)) [
  | inl e ↦ rw e (ground arith)
  | inr e ↦ rw e (ground (arith, has_id-drop_custom i id path l))
]

-- A context that stands in the table once is not the one of an entry before it.
apart :
    (path : List ℕ) (i id : ℕ) (l : List (List ℕ × ℕ))
    → has_custom path id l ≡ true
    → has_id i l ≡ false
    → (id == i) ≡ false
apart path i id l there o = elim (Bool-cases (id == i)) [
  | inl e ↦
      let same : i ≡ id = ground arith in
      let twice : has_id id l ≡ true = has_custom-has_id path id l there in
      let once : has_id id l ≡ false = subst (λ j. has_id j l ≡ false) same o in cc
  | inr e ↦ e
]

pub Live-drop_custom :
    (ctx : ℕ → Watcher) (path : List ℕ) (id : ℕ) (l : List (List ℕ × ℕ))
    → has_custom path id l ≡ true
    → Live ctx l
    → Live (stopped id ctx) (drop_custom path id l)
unfolding has_custom drop_custom
Live-drop_custom ctx path id [] h v = tt
Live-drop_custom ctx path id ((p, i) ∷ l) h (s, k, o, v) =
    elim (Bool-cases (str_eq p path && i == id)) [
      | inl e ↦
          let same : i ≡ id = ground arith in
          rw e (Live-stopped ctx id l (subst (λ j. has_id j l ≡ false) same o) v)
      | inr e ↦
          let there : has_custom path id l ≡ true = ground arith in
          let other_one = apart path i id l there o in
          rw e (
            rw other_one s,
            rw other_one k,
            has_id-drop_custom i id path l o,
            Live-drop_custom ctx path id l there v,
          )
    ]
