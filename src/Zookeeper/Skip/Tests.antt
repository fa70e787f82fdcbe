-- ===== src/Zookeeper/Skip/Tests.antt =====
-- `Create` with `ephemeral_exist_skip` of src/CppZookeeper.cpp over a server that is a table of nodes.
use moon_lib.Common.{
  ℕ, suc, refl, true, false, Option, none, some, List, [], ◌∷◌, ◌++◌, length, take, drop,
  if◌then◌else◌,
}
use moon_lib.Text.{str_eq}
use moon_lib.Text.Dict.{find, put}
use moon_lib.Text.Split.{begins_with}
use moon_lib.Zookeeper.{Rc, ok, no_node, Manager, global, change_to_abs_path}
use moon_lib.Zookeeper.Tree.Resumed.{parent_of}
use moon_lib.Zookeeper.Skip.{
  Got, Client, is_sequence_of, all_digits, matching, copied_some, create_skip,
}
use moon_lib.Zookeeper.Skip.Adopted.{
  IsReadOnly, first_own, sequence_flags, Adopts, create_skip-Adopts,
}

abbrev Nodes : Type 0
Nodes = List (List ℕ × Got)

abbrev got_of : ℕ → Option Got → Rc × Got
got_of size none = (no_node, record { bytes = []; owner = 0; version = 0 })
got_of size (some g) = (ok, record g { bytes = take size g.bytes })

-- The names of the nodes below a path.
abbrev names_below : List ℕ → Nodes → List (List ℕ)
names_below path [] = []
names_below path ((p, g) ∷ nodes) =
    let rest = names_below path nodes in
    if begins_with (path ++ b'/' ∷ []) p then drop (suc (length path)) p ∷ rest else rest

abbrev client : Client Nodes
client = record {
  zoo_create = λ path value acl flags real s.
      (put path (record { bytes = value; owner = 7; version = 0 }) s, (ok, real));
  zoo_get = λ path size s. (s, got_of size (find path s));
  zoo_get_children = λ path s. (s, (ok, names_below path s));
  zoo_set = λ path value version s. (s, ok);
}

client-IsReadOnly : IsReadOnly client
client-IsReadOnly = record {
  server-get = λ path size s. refl;
  server-get_children = λ path s. refl;
}

abbrev manager : Manager
manager = record {
  root_path = b'/' ∷ [];
  global_types = [];
  custom = [];
  contexts = λ i. record { kind = global; is_stop = false; auto_reg = true };
  ephemerals = [];
}

-- The node /d/n with the sequence number that the given digit ends.
abbrev numbered : ℕ → List ℕ
numbered digit = b'n' ∷ b'0' ∷ b'0' ∷ b'0' ∷ b'0' ∷ b'0' ∷ b'0' ∷ b'0' ∷ b'0' ∷ b'0' ∷ digit ∷ []

abbrev below_d : List ℕ → List ℕ
below_d name = b'/' ∷ b'd' ∷ b'/' ∷ name

-- Number 1 is the node of client 5, number 2 that of client 7.
abbrev nodes : Nodes
nodes =
    (below_d (numbered b'1'), record { bytes = b'v' ∷ []; owner = 5; version = 0 })
    ∷ (below_d (numbered b'2'), record { bytes = b'v' ∷ []; owner = 7; version = 3 })
    ∷ []

create_skip-Adopts_example :
    Adopts manager nodes
      (below_d (b'n' ∷ []))
      (b'v' ∷ [])
      1
      (copied_some (below_d (numbered b'2')) none)
      (create_skip client 7 manager
        (below_d (b'n' ∷ []))
        (b'v' ∷ [])
        none
        1
        sequence_flags
        true
        nodes)
unfolding parent_of change_to_abs_path matching is_sequence_of all_digits first_own begins_with find
    str_eq
create_skip-Adopts_example =
    create_skip-Adopts client 7 manager (b'/' ∷ b'd' ∷ []) (b'v' ∷ []) nodes client-IsReadOnly
      (below_d (b'n' ∷ [])) none 1 (numbered b'1' ∷ numbered b'2' ∷ []) (numbered b'2') refl refl
      (refl, (λ e. refl), (refl, (λ e. refl), tt)) refl
