-- ===== src/Zookeeper/Skip/Adopted.antt =====
-- `Create` with `ephemeral_exist_skip` of src/CppZookeeper.cpp, for a sequence node that is there.
use moon_lib.Common.{
  ℕ, suc, ◌≡◌, refl, ap, true, false, Option, none, some, List, [], ◌∷◌, ◌++◌, ◌==◌, length, take,
  take-append, drop, replicate, if◌then◌else◌, inl, inr, Bool-cases,
}
use moon_lib.Text.Split.{is_empty}
use moon_lib.Text.Reverse.{str_eq_self}
use moon_lib.Zookeeper.{Rc, ok, is_ok, Flags, Manager, change_to_abs_path}
use moon_lib.Zookeeper.Requests.{create}
use moon_lib.Zookeeper.Tree.Resumed.{parent_of}
use moon_lib.Zookeeper.Skip.{
  Got, Client, Found, Created, matching, overwrite, copied_some, find_own, find_sequence,
  find_exist, make_node, keep_node, create_skip,
}

-- Reading changes nothing on the server.
pub record IsReadOnly {S : Type 0} (c : Client S) : Type 0 where
  pub server-get : (path : List ℕ) (size : ℕ) (s : S) → (c.zoo_get path size s).0 ≡ s
  pub server-get_children : (path : List ℕ) (s : S) → (c.zoo_get_children path s).0 ≡ s

abbrev pub sequence_flags : Flags
sequence_flags = record { ephemeral = true; sequence = true }

-- No node was made: the server is as it was, and the rest is as if the child had been made.
pub record Adopts {S : Type 0} (m : Manager) (s : S) (path value : List ℕ) (acl : ℕ)
    (real_path : Option (List ℕ)) (r : Created S) : Type 0 where
  pub same_server : r.server ≡ s
  pub is_made : r.code ≡ ok
  pub real_path_made : r.real_path ≡ real_path
  pub manager_made : r.manager ≡ create ok path value acl sequence_flags m

-- The path of a child is not empty.
child-is_empty : (parent child : List ℕ) → is_empty (parent ++ b'/' ∷ child) ≡ false
child-is_empty [] child = refl
child-is_empty (x ∷ parent) child = refl

module _ {S : Type 0} (c : Client S) (client_id : ℕ) (m : Manager) (parent_path value : List ℕ)
    (s : S) where
  -- What the client reads of a child.
  abbrev pub read_child : List ℕ → Rc × Got
  read_child child =
      (c.zoo_get (change_to_abs_path m (parent_path ++ b'/' ∷ child)) (length value) s).1

  -- The first of the children that the client of this id made.
  unfoldable pub first_own : List (List ℕ) → Option (List ℕ)
  first_own [] = none
  first_own (child ∷ children) =
      let rest = first_own children in
      if (read_child child).1.owner == client_id then some child else rest

  -- Every child is read, and those of this client have the value.
  abbrev pub AllHold : List (List ℕ) → Type 0
  AllHold [] = Unit
  AllHold (child ∷ children) =
      ((read_child child).0 ≡ ok)
      × (((read_child child).1.owner == client_id) ≡ true → (read_child child).1.bytes ≡ value)
      × AllHold children

  -- The search stops at a child with the value.
  pub record StopsAt (child : List ℕ) (found : Found S) : Type 0 where
    pub same_server : found.server ≡ s
    pub is_found : found.code ≡ ok
    pub path_found : found.exist_path ≡ parent_path ++ b'/' ∷ child
    pub value_found : take (length value) found.exist_value ≡ value

  module _ (reads : IsReadOnly c) where
    find_own-StopsAt :
        (l : List (List ℕ)) (buffer : List ℕ) (version : ℕ) (child : List ℕ)
        → AllHold l
        → first_own l ≡ some child
        → StopsAt child (find_own c client_id m parent_path (length value) l buffer version s)
    unfolding find_own first_own
    find_own-StopsAt [] buffer version child h f = absurd (cc)
    find_own-StopsAt (x ∷ l) buffer version child (o, own, h) f =
        let p = change_to_abs_path m (parent_path ++ b'/' ∷ x) in
        let same = reads.server-get p (length value) s in
        let bytes = (read_child x).1.bytes in
        elim (Bool-cases ((read_child x).1.owner == client_id)) [
          | inl e ↦
              rw (o, e)
                (record {
                  same_server = same;
                  is_found = refl;
                  path_found = ap (λ t. parent_path ++ b'/' ∷ t) (same_child x child (rw e at f));
                  value_found = own_value bytes (drop (length bytes) buffer) (own e);
                })
          | inr e ↦
              rw (o, e, same)
                (find_own-StopsAt l (overwrite bytes buffer) (read_child x).1.version child h
                  (rw e at f))
        ]
      where
        same_child : (x y : List ℕ) → some x ≡ some y → x ≡ y
        same_child x y e = cc

        own_value :
            (bytes rest : List ℕ) → bytes ≡ value → take (length value) (bytes ++ rest) ≡ value
        own_value bytes rest e = rw e (take-append value rest)

    keep_node-Adopts :
        (path : List ℕ) (real : Option (List ℕ)) (acl : ℕ) (child : List ℕ) (found : Found S)
        → StopsAt child found
        → Adopts m s path value acl (copied_some (parent_path ++ b'/' ∷ child) real) (
            if is_ok found.code
            then (if is_empty found.exist_path
                then make_node c client_id m path value real acl sequence_flags found.server
                else keep_node c client_id m path value real acl sequence_flags found)
            else record { server = found.server; code = found.code; real_path = real; manager = m })
    unfolding keep_node
    keep_node-Adopts path real acl child found h =
        rw
          (
            h.is_found,
            h.path_found,
            child-is_empty parent_path child,
            h.value_found,
            str_eq_self value,
          )
          (record {
            same_server = h.same_server;
            is_made = refl;
            real_path_made = refl;
            manager_made = refl;
          })

    -- Where reading changes nothing, the children of the parent are listed, the sequence nodes of this name among them can be
    -- read, and those that this client made hold the value, `Create` of an ephemeral sequence node with
    -- `ephemeral_exist_skip` makes no node once the client has one: it gives the path of the first such
    -- node, and the manager is as if the node had been made.
    pub create_skip-Adopts :
        (path : List ℕ) (real : Option (List ℕ)) (acl : ℕ) (children : List (List ℕ))
        (child : List ℕ)
        → parent_of (change_to_abs_path m path) ≡ some parent_path
        → (c.zoo_get_children (change_to_abs_path m parent_path) s).1 ≡ (ok, children)
        → AllHold (matching (drop (suc (length parent_path)) (change_to_abs_path m path)) children)
        → first_own
            (matching (drop (suc (length parent_path)) (change_to_abs_path m path)) children)
          ≡ some child
        → Adopts m s path value acl
            (copied_some (parent_path ++ b'/' ∷ child) real)
            (create_skip c client_id m path value real acl sequence_flags true s)
    unfolding create_skip find_exist find_sequence
    create_skip-Adopts path real acl children child parent listed hold own =
        let names =
          matching (drop (suc (length parent_path)) (change_to_abs_path m path)) children in
        let same = reads.server-get_children (change_to_abs_path m parent_path) s in
        let found =
          find_own c client_id m parent_path (length value) names (replicate (length value) 0) 0
            s in
        rw (parent, listed, same)
          (keep_node-Adopts path real acl child found
            (find_own-StopsAt names (replicate (length value) 0) 0 child hold own))
