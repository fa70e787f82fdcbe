-- ===== src/Zookeeper/Multi/Each.antt =====
-- Several operations at once, of src/CppZookeeper.cpp, change the manager as the single calls do.
use mathlib.Core.List.{append_assoc, append-nil}
use moon_lib.Common.{
  map, ℕ, zero, suc, ◌≡◌, ◌≢◌, refl, sym, ap, ◌∙◌, false, Option, none, some, List, [], ◌∷◌, ◌++◌,
  arith, ltb, length, get_elem?, if◌then◌else◌, Bool-cases, inl, inr,
}
use moon_lib.Text.Dict.{find}
use moon_lib.Zookeeper.{Rc, ok, bad_arguments, is_ok, Flags, Info, Manager, change_to_abs_path}
use moon_lib.Zookeeper.Requests
use moon_lib.Zookeeper.Requests.{put_info, new_info, change_info, with_bytes, erase_found}
use moon_lib.Zookeeper.Multi.{
  Op, create_op, delete_op, set_op, check_op, add_create_op, add_delete_op, add_set_op,
  add_check_op, get_op, proc_op, proc_multi,
}

-- What the user adds, with a path that may be relative.
pub data Change : Type 0 where
  create : (path value : List ℕ) (acl : ℕ) → Flags → Change
  delete : List ℕ → Change
  set_data : (path value : List ℕ) → Change
  check : List ℕ → Change

-- The operations of the changes, in their order.
unfoldable pub add_all : Manager → List Change → List Op → List Op
add_all m [] ops = ops
add_all m (Change.create path value acl flags ∷ l) ops =
    add_all m l (add_create_op m path value acl flags ops)
add_all m (Change.delete path ∷ l) ops = add_all m l (add_delete_op m path ops)
add_all m (Change.set_data path value ∷ l) ops = add_all m l (add_set_op m path value ops)
add_all m (Change.check path ∷ l) ops = add_all m l (add_check_op m path ops)

-- The single call of a change; a check changes nothing.
unfoldable pub call_one : Change → Rc → Manager → Manager
call_one (Change.create path value acl flags) rc m = Requests.create rc path value acl flags m
call_one (Change.delete path) rc m = Requests.delete_node rc path m
call_one (Change.set_data path value) rc m = Requests.set_data rc path value m
call_one (Change.check path) rc m = m

unfoldable pub call_each : List Change → List Rc → Manager → Manager
call_each [] results m = m
call_each (c ∷ l) [] m = m
call_each (c ∷ l) (rc ∷ results) m = call_each l results (call_one c rc m)

op_of : Manager → Change → Op
op_of m (Change.create path value acl flags) = create_op (change_to_abs_path m path) value acl flags
op_of m (Change.delete path) = delete_op (change_to_abs_path m path)
op_of m (Change.set_data path value) = set_op (change_to_abs_path m path) value
op_of m (Change.check path) = check_op (change_to_abs_path m path)

add_all-map :
    (m : Manager) (l : List Change) (ops : List Op) → add_all m l ops ≡ ops ++ map (op_of m) l
unfolding add_all op_of add_create_op add_delete_op add_set_op add_check_op
add_all-map m [] ops = sym (append-nil ops)
add_all-map m (Change.create path value acl flags ∷ l) ops =
    add_all-map m l _ ∙ append_assoc ops (_ ∷ []) (map (op_of m) l)
add_all-map m (Change.delete path ∷ l) ops =
    add_all-map m l _ ∙ append_assoc ops (_ ∷ []) (map (op_of m) l)
add_all-map m (Change.set_data path value ∷ l) ops =
    add_all-map m l _ ∙ append_assoc ops (_ ∷ []) (map (op_of m) l)
add_all-map m (Change.check path ∷ l) ops =
    add_all-map m l _ ∙ append_assoc ops (_ ∷ []) (map (op_of m) l)

abs-root :
    (m m' : Manager) (path : List ℕ)
    → m'.root_path ≡ m.root_path
    → change_to_abs_path m' path ≡ change_to_abs_path m path
unfolding change_to_abs_path
abs-root m m' [] e = e
abs-root m m' (c ∷ s) e = rw e refl

change_info-root :
    (o : Option Info) (p : List ℕ) (f : Info → Info) (m : Manager)
    → (change_info o p f m).root_path ≡ m.root_path
change_info-root none p f m = refl
change_info-root (some info) p f m = refl

erase_found-root :
    (o : Option Info) (p : List ℕ) (m : Manager) → (erase_found o p m).root_path ≡ m.root_path
erase_found-root none p m = refl
erase_found-root (some info) p m = refl

call_one-root : (c : Change) (rc : Rc) (m : Manager) → (call_one c rc m).root_path ≡ m.root_path
unfolding call_one Requests.create Requests.delete_node Requests.set_data
call_one-root (Change.create path value acl flags) rc m = ground arith
call_one-root (Change.delete path) rc m =
    let p = change_to_abs_path m path in ground (arith, erase_found-root (find p m.ephemerals) p m)
call_one-root (Change.set_data path value) rc m =
    let p = change_to_abs_path m path in
    ground (arith, change_info-root (find p m.ephemerals) p (with_bytes value) m)
call_one-root (Change.check path) rc m = refl

-- One operation, at its result, changes the manager as the call does.
proc_op-call :
    (m m' : Manager) (c : Change) (rc : Rc)
    → m'.root_path ≡ m.root_path
    → (if is_ok rc then proc_op (op_of m c) m' else m') ≡ call_one c rc m'
unfolding call_one proc_op op_of Requests.create Requests.delete_node Requests.set_data
proc_op-call m m' (Change.create path value acl flags) rc e = rw (abs-root m m' path e) refl
proc_op-call m m' (Change.delete path) rc e = rw (abs-root m m' path e) refl
proc_op-call m m' (Change.set_data path value) rc e = rw (abs-root m m' path e) refl
proc_op-call m m' (Change.check path) rc e = ground arith

proc_multi-map :
    (m m' : Manager) (l : List Change) (results : List Rc)
    → m'.root_path ≡ m.root_path
    → proc_multi (map (op_of m) l) results m' ≡ call_each l results m'
unfolding proc_multi call_each
proc_multi-map m m' [] results e = refl
proc_multi-map m m' (c ∷ l) [] e = refl
proc_multi-map m m' (c ∷ l) (rc ∷ results) e =
    ap (proc_multi (map (op_of m) l) results) (proc_op-call m m' c rc e)
    ∙ proc_multi-map m (call_one c rc m') l results (call_one-root c rc m' ∙ e)

-- The results of several operations that are sent at once change the manager as the single calls with
-- these results would, one after the other.
pub proc_multi-call_each :
    (m : Manager) (l : List Change) (results : List Rc)
    → proc_multi (add_all m l []) results m ≡ call_each l results m
proc_multi-call_each m l results =
    ap (λ ops. proc_multi ops results m) (add_all-map m l []) ∙ proc_multi-map m m l results refl

get_elem?-out {ℓ} :
    {A : Type ℓ} (xs : List A) (i : ℕ) → ltb i (length xs) ≡ false → get_elem? xs i ≡ none
get_elem?-out [] i h = refl
get_elem?-out (x ∷ xs) zero h = ground arith
get_elem?-out (x ∷ xs) (suc i) h = get_elem?-out xs i (ground arith)

-- `GetOp` never gives an operation: it refuses every index in bounds, and reads out of bounds at all
-- others.
pub get_op_useless : (index : ℕ) (ops : List Op) (op : Op) → get_op index ops ≢ some (ok, some op)
unfolding get_op
get_op_useless index ops op h = elim (Bool-cases (ltb index (length ops))) [
  | inl e ↦ refused (rw e at h)
  | inr e ↦ outside (rw (e, get_elem?-out ops index e) at h)
]
  where
    refused :
        ◌≡◌ {A = Option (Rc × Option Op)} (some (bad_arguments, none)) (some (ok, some op)) → ⊥
    refused q = cc

    outside : ◌≡◌ {A = Option (Rc × Option Op)} none (some (ok, some op)) → ⊥
    outside q = cc
