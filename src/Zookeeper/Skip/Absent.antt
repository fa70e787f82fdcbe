-- ===== src/Zookeeper/Skip/Absent.antt =====
-- `Create` with `ephemeral_exist_skip` of src/CppZookeeper.cpp, for an ephemeral node that is not there.
use moon_lib.Common.{ℕ, zero, suc, ◌≡◌, refl, true, false, Option, List}
use moon_lib.Zookeeper.{Rc, no_node, Flags, Manager, change_to_abs_path}
use moon_lib.Zookeeper.Skip.{Client, Created, find_plain, find_exist, create_skip}
use moon_lib.Zookeeper.Skip.Adopted.{IsReadOnly}

abbrev pub plain_flags : Flags
plain_flags = record { ephemeral = true; sequence = false }

module _ {S : Type 0} (c : Client S) (client_id : ℕ) (path value : List ℕ) (acl : ℕ) where
  create_missing :
      (m : Manager) (real : Option (List ℕ)) (s : S)
      → IsReadOnly c
      → (c.zoo_get (change_to_abs_path m path) 1 s).1.0 ≡ no_node
      → create_skip c client_id m path value real acl plain_flags true s
        ≡ record { server = s; code = no_node; real_path = real; manager = m }
  unfolding create_skip find_exist find_plain
  create_missing m real s reads h =
      let same = reads.server-get (change_to_abs_path m path) 1 s in rw (h, same) refl

  -- The call, again and again, from what the one before left.
  unfoldable pub retries : ℕ → Created S → Created S
  retries zero r = r
  retries (suc n) r =
      retries n
        (create_skip c client_id r.manager path value r.real_path acl plain_flags true r.server)

  -- Where reading changes nothing and the node is not there, `Create` of an ephemeral node that is not a
  -- sequence node, with `ephemeral_exist_skip`, does not make it however often it is called: the last
  -- call says that the node is missing, and the server and the manager are as they were.
  pub retries_missing :
      (n : ℕ) (m : Manager) (code : Rc) (real : Option (List ℕ)) (s : S)
      → IsReadOnly c
      → (c.zoo_get (change_to_abs_path m path) 1 s).1.0 ≡ no_node
      → retries (suc n) (record { server = s; code = code; real_path = real; manager = m })
        ≡ record { server = s; code = no_node; real_path = real; manager = m }
  unfolding retries
  retries_missing zero m code real s reads h = create_missing m real s reads h
  retries_missing (suc n) m code real s reads h =
      rw (create_missing m real s reads h) (retries_missing n m no_node real s reads h)
