-- ===== src/Zookeeper/Tree/Resumed/Kept.antt =====
-- `ReconnectResumeEnv` of src/CppZookeeper.cpp keeps every ephemeral node, but may cut its data.
use moon_lib.Common.{
  ℕ, ◌≡◌, ◌⊎◌, refl, sym, ap, ◌∙◌, Bool, true, false, Option, none, some, List, [], ◌∷◌,
  if◌then◌else◌, Bool-cases, inl, inr,
}
use moon_lib.Text.{str_eq}
use moon_lib.Text.Reverse.{str_eq_iff}
use moon_lib.Text.Dict.{find, put, find-put}
use moon_lib.Zookeeper.{is_ok, is_no_node, Info, Manager}
use moon_lib.Zookeeper.Absolute.{IsAbsolute, absolute_stays}
use moon_lib.Zookeeper.Requests.{create}
use moon_lib.Zookeeper.Tree.{Client, After, create_path_recursion}
use moon_lib.Zookeeper.Tree.Quiet.{create_path_recursion-manager}
use moon_lib.Zookeeper.Tree.Resumed.{
  cut, parent_of, create_again, retry, with_parent, resume_node, resume_nodes, resume_ephemerals,
}

-- An entry whose data is cut.
abbrev pub cut_found : Option Info → Option Info
cut_found none = none
cut_found (some info) = some (record info { bytes = cut info.bytes })

-- Every path has the same entry in both tables, or the same one with its data cut.
abbrev pub KeptOrCut : List (List ℕ × Info) → List (List ℕ × Info) → Type 0
KeptOrCut e f = (q : List ℕ) → (find q f ≡ find q e) ⊎ (find q f ≡ cut_found (find q e))

-- The table has the entries, and their paths are absolute.
abbrev pub Holds : List (List ℕ × Info) → List (List ℕ × Info) → Type 0
Holds e [] = Unit
Holds e ((path, info) ∷ l) = IsAbsolute path × (find path e ≡ some info) × Holds e l

module _ {S : Type 0} (c : Client S) (e : List (List ℕ × Info)) (path : List ℕ) (info : Info) where
  put-KeptOrCut :
      (f : List (List ℕ × Info))
      → find path e ≡ some info
      → KeptOrCut e f
      → KeptOrCut e (put path (record info { bytes = cut info.bytes }) f)
  put-KeptOrCut f h k q = elim (Bool-cases (str_eq path q)) [
    | inl same ↦
        let there = find-put q path (record info { bytes = cut info.bytes }) f in
        let found : find q e ≡ some info =
          ap (λ x. find x e) (sym ((str_eq_iff path q).0 same)) ∙ h in
        inr (there ∙ rw (same, found) refl)
    | inr other ↦
        let there = find-put q path (record info { bytes = cut info.bytes }) f in
        elim (k q) [ inl a ↦ inl (there ∙ rw other a) | inr a ↦ inr (there ∙ rw other a) ]
  ]

  either :
      (b : Bool) (m n : Manager)
      → KeptOrCut e m.ephemerals
      → KeptOrCut e n.ephemerals
      → KeptOrCut e (if b then m else n).ephemerals
  either true m n k l = k
  either false m n k l = l

  create_again-KeptOrCut :
      (s : S) (m : Manager)
      → IsAbsolute path
      → find path e ≡ some info
      → KeptOrCut e m.ephemerals
      → KeptOrCut e (create_again c path info s m).manager.ephemerals
  unfolding create_again create
  create_again-KeptOrCut s m a h k =
      let r = c.zoo_create path (cut info.bytes) info.acl info.flags s in
      rw (absolute_stays m path a) (
        either (is_ok r.1) _ m (either info.flags.ephemeral _ m (put-KeptOrCut m.ephemerals h k) k)
          k)

  retry-KeptOrCut :
      (a : After S)
      → IsAbsolute path
      → find path e ≡ some info
      → KeptOrCut e a.manager.ephemerals
      → KeptOrCut e (retry c path info a).manager.ephemerals
  unfolding retry
  retry-KeptOrCut a abs h k = elim (Bool-cases (is_ok a.code)) [
    | inl o ↦ rw o k
    | inr o ↦ rw o (create_again-KeptOrCut a.server a.manager abs h k)
  ]

  path_again-KeptOrCut :
      (p : List ℕ) (a : After S)
      → KeptOrCut e a.manager.ephemerals
      → KeptOrCut e (create_path_recursion c p a.server a.manager).manager.ephemerals
  path_again-KeptOrCut p a k = rw (create_path_recursion-manager c p a.server a.manager) k

  with_parent-KeptOrCut :
      (parent : Option (List ℕ)) (a : After S)
      → IsAbsolute path
      → find path e ≡ some info
      → KeptOrCut e a.manager.ephemerals
      → KeptOrCut e (with_parent c path info parent a).manager.ephemerals
  unfolding with_parent
  with_parent-KeptOrCut none a abs h k = k
  with_parent-KeptOrCut (some []) a abs h k = k
  with_parent-KeptOrCut (some (d ∷ p)) a abs h k =
      let b = create_path_recursion c (d ∷ p) a.server a.manager in
      let b' = if is_ok b.code then b else create_path_recursion c (d ∷ p) b.server b.manager in
      let kb = path_again-KeptOrCut (d ∷ p) a k in
      let kb' : KeptOrCut e b'.manager.ephemerals = elim (Bool-cases (is_ok b.code)) [
        | inl o ↦ rw o kb
        | inr o ↦ rw o (path_again-KeptOrCut (d ∷ p) b kb)
      ] in
      elim (Bool-cases (is_ok b'.code)) [
        | inl o ↦ rw o (
            retry-KeptOrCut (create_again c path info b'.server b'.manager) abs h
              (create_again-KeptOrCut b'.server b'.manager abs h kb'))
        | inr o ↦ rw o kb'
      ]

  resume_node-KeptOrCut :
      (s : S) (m : Manager)
      → IsAbsolute path
      → find path e ≡ some info
      → KeptOrCut e m.ephemerals
      → KeptOrCut e (resume_node c path info s m).manager.ephemerals
  unfolding resume_node
  resume_node-KeptOrCut s m abs h k =
      let a = create_again c path info s m in
      let ka = create_again-KeptOrCut s m abs h k in
      elim (Bool-cases (is_no_node a.code)) [
        | inl o ↦ rw o (with_parent-KeptOrCut (parent_of path) a abs h ka)
        | inr o ↦ rw o (retry-KeptOrCut a abs h ka)
      ]

module _ {S : Type 0} (c : Client S) where
  resume_nodes-KeptOrCut :
      (e l : List (List ℕ × Info)) (s : S) (m : Manager)
      → Holds e l
      → KeptOrCut e m.ephemerals
      → KeptOrCut e (resume_nodes c l s m).1.ephemerals
  unfolding resume_nodes
  resume_nodes-KeptOrCut e [] s m h k = k
  resume_nodes-KeptOrCut e ((path, info) ∷ l) s m (abs, h, hs) k =
      let a = resume_node c path info s m in
      resume_nodes-KeptOrCut e l a.server a.manager hs
        (resume_node-KeptOrCut c e path info s m abs h k)

  -- Where the table of ephemeral nodes has each of its entries once and at absolute paths, the last loop
  -- of `ReconnectResumeEnv` loses none and adds none, whatever the server answers: each path has its
  -- entry as before, or the entry with its data cut before its first zero.
  pub resume_ephemerals-KeptOrCut :
      (s : S) (m : Manager)
      → Holds m.ephemerals m.ephemerals
      → KeptOrCut m.ephemerals (resume_ephemerals c s m).1.ephemerals
  unfolding resume_ephemerals
  resume_ephemerals-KeptOrCut s m h =
      resume_nodes-KeptOrCut m.ephemerals m.ephemerals s m h (λ q. inl refl)
