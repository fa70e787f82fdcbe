-- ===== src/Zookeeper/Skip.antt =====
-- `Create` of src/CppZookeeper.cpp with `ephemeral_exist_skip`: before an ephemeral node is made, one that
-- the client of the same id made earlier is looked for. The server is a parameter.

pub mod Adopted
pub mod Absent
mod Tests
use moon_lib.Common.{
  ℕ, suc, ◌+◌, ◌%◌, ◌^◌, Bool, true, false, ◌&&◌, Option, none, some, List, [], ◌∷◌, ◌++◌, ◌==◌,
  length, take, drop, replicate, if◌then◌else◌, ◌-◌,
}
use moon_lib.Text.{str_eq}
use moon_lib.Text.Split.{begins_with, is_empty}
use moon_lib.BigNum.{is_digit}
use moon_lib.Zookeeper.{Rc, ok, bad_arguments, is_ok, Flags, Manager, change_to_abs_path}
use moon_lib.Zookeeper.Requests.{create, set_data}
use moon_lib.Zookeeper.Tree.Resumed.{parent_of}

-- What `zoo_get` answers: the data that fits the buffer, and of the Stat the owner and the version.
pub record Got : Type 0 where
  pub bytes : List ℕ
  pub owner : ℕ
  pub version : ℕ

-- What the C client does, with a state of the server. `zoo_get` is told the size of the buffer, and
-- `zoo_create` may write the path of the node into a buffer.
pub record Client (S : Type 0) : Type 0 where
  pub zoo_create : List ℕ → List ℕ → ℕ → Flags → Option (List ℕ) → S → S × (Rc × Option (List ℕ))
  pub zoo_get : List ℕ → ℕ → S → S × (Rc × Got)
  pub zoo_get_children : List ℕ → S → S × (Rc × List (List ℕ))
  pub zoo_set : List ℕ → List ℕ → ℕ → S → S × Rc

-- What the search leaves: `ret`, `exist_path`, `exist_value` and the version of `exist_stat`.
pub record Found (S : Type 0) : Type 0 where
  pub server : S
  pub code : Rc
  pub exist_path : List ℕ
  pub exist_value : List ℕ
  pub version : ℕ

-- What `Create` leaves.
pub record Created (S : Type 0) : Type 0 where
  pub server : S
  pub code : Rc
  pub real_path : Option (List ℕ)
  pub manager : Manager

unfoldable pub all_digits : List ℕ → Bool
all_digits [] = true
all_digits (c ∷ s) = let rest = all_digits s in if is_digit c then rest else false

-- The name of a sequence node: the name that was asked for and ten digits.
unfoldable pub is_sequence_of : List ℕ → List ℕ → Bool
is_sequence_of node_name child =
    if length node_name + 10 == length child % 2 ^ 32
    then begins_with node_name child && all_digits (take 10 (drop (length node_name) child))
    else false

-- `match_children`.
unfoldable pub matching : List ℕ → List (List ℕ) → List (List ℕ)
matching node_name [] = []
matching node_name (child ∷ children) =
    let rest = matching node_name children in
    if is_sequence_of node_name child then child ∷ rest else rest

-- A write at the front of a buffer.
abbrev pub overwrite : List ℕ → List ℕ → List ℕ
overwrite bytes buffer = bytes ++ drop (length bytes) buffer

-- `strncpy` of a path into a buffer.
unfoldable pub copied : List ℕ → List ℕ → List ℕ
copied path buffer = let size = length buffer in take size path ++ replicate (size - length path) 0

abbrev pub copied_some : List ℕ → Option (List ℕ) → Option (List ℕ)
copied_some path none = none
copied_some path (some buffer) = some (copied path buffer)

module _ {S : Type 0} (c : Client S) (client_id : ℕ) where
  -- The loop over `match_children`.
  unfoldable pub find_own : Manager → List ℕ → ℕ → List (List ℕ) → List ℕ → ℕ → S → Found S
  find_own m parent_path valuelen [] value version s = record {
    server = s;
    code = ok;
    exist_path = [];
    exist_value = value;
    version = version;
  }
  find_own m parent_path valuelen (child ∷ children) value version s =
      let child_path = parent_path ++ b'/' ∷ child in
      let (s', answer) = c.zoo_get (change_to_abs_path m child_path) valuelen s in
      let got = answer.1 in
      let exist_value = overwrite got.bytes value in
      let rest = find_own m parent_path valuelen children exist_value got.version s' in
      let here : Found S = record {
        server = s';
        code = answer.0;
        exist_path = child_path;
        exist_value = exist_value;
        version = got.version;
      } in
      if is_ok answer.0
      then (if got.owner == client_id then here else rest)
      else record here { exist_path = [] }

  -- The search for a sequence node, from the path of its parent.
  unfoldable pub find_sequence : Manager → List ℕ → List ℕ → Option (List ℕ) → S → Found S
  find_sequence m abs_path value none s = record {
    server = s;
    code = bad_arguments;
    exist_path = [];
    exist_value = replicate (length value) 0;
    version = 0;
  }
  find_sequence m abs_path value (some parent_path) s =
      let node_name = drop (suc (length parent_path)) abs_path in
      let zeros = replicate (length value) 0 in
      let (s', answer) = c.zoo_get_children (change_to_abs_path m parent_path) s in
      if is_ok answer.0
      then find_own m parent_path (length value) (matching node_name answer.1) zeros 0 s'
      else record {
        server = s';
        code = answer.0;
        exist_path = [];
        exist_value = zeros;
        version = 0;
      }

  -- The search for another ephemeral node, with a buffer of one character of its own.
  unfoldable pub find_plain : Manager → List ℕ → List ℕ → S → Found S
  find_plain m path value s =
      let (s', answer) = c.zoo_get (change_to_abs_path m path) 1 s in
      let got = answer.1 in
      record {
        server = s';
        code = answer.0;
        exist_path = if is_ok answer.0 then (if got.owner == client_id then path else []) else [];
        exist_value = replicate (length value) 0;
        version = got.version;
      }

  -- What is there, before anything is made.
  unfoldable pub find_exist : Manager → List ℕ → List ℕ → Flags → Bool → S → Found S
  find_exist m path value flags ephemeral_exist_skip s =
      let abs_path = change_to_abs_path m path in
      if ephemeral_exist_skip && flags.ephemeral
      then (if flags.sequence
          then find_sequence m abs_path value (parent_of abs_path) s
          else find_plain m path value s)
      else record { server = s; code = ok; exist_path = []; exist_value = []; version = 0 }

  -- The node is made.
  unfoldable pub make_node : Manager → List ℕ → List ℕ → Option (List ℕ) → ℕ → Flags → S → Created S
  make_node m path value p_real_path acl flags s =
      let (s', answer) = c.zoo_create (change_to_abs_path m path) value acl flags p_real_path s in
      record {
        server = s';
        code = answer.0;
        real_path = answer.1;
        manager = create answer.0 path value acl flags m;
      }

  -- The node is there, and its value is written where the one that was read differs.
  unfoldable pub keep_node :
      Manager → List ℕ → List ℕ → Option (List ℕ) → ℕ → Flags → Found S → Created S
  keep_node m path value p_real_path acl flags found =
      let (s', code) =
        c.zoo_set (change_to_abs_path m found.exist_path) value found.version found.server in
      let real_path = copied_some found.exist_path p_real_path in
      let m' = set_data code found.exist_path value m in
      if str_eq (take (length value) found.exist_value) value
      then record {
        server = found.server;
        code = ok;
        real_path = real_path;
        manager = create ok path value acl flags m;
      }
      else record {
        server = s';
        code = code;
        real_path = real_path;
        manager = if is_ok code then create ok path value acl flags m' else m';
      }

  -- `Create`.
  unfoldable pub create_skip :
      Manager → List ℕ → List ℕ → Option (List ℕ) → ℕ → Flags → Bool → S → Created S
  create_skip m path value p_real_path acl flags ephemeral_exist_skip s =
      let found = find_exist m path value flags ephemeral_exist_skip s in
      if is_ok found.code
      then (if is_empty found.exist_path
          then make_node m path value p_real_path acl flags found.server
          else keep_node m path value p_real_path acl flags found)
      else record { server = found.server; code = found.code; real_path = p_real_path; manager = m }
