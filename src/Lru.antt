-- ===== src/Lru.antt =====
-- CppLRU<T> of src/CppLRU.h: an eviction queue over a hash set and a linked list.
-- A method returns the new object beside its result. The elements are of any type whose equality
-- is decided. The set is a list of its elements in no particular order. The lock that a method
-- may take is not part of the state: a call runs as one step.
pub mod Sets
mod Invariant
mod Pushing
mod Queue
mod Stale
mod Tests
use moon_lib.Common.{
  ℕ, ◌<◌, ◌≡◌, Bool, true, false, ◌&&◌, Option, none, some, List, [], ◌∷◌, ◌++◌, ltb, length,
  if◌then◌else◌,
}
use Sets.{contains, erase}

pub record Lru {ℓ} (A : Type ℓ) : Type ℓ where
  pub set : List A
  pub items : List A
  pub max_cap : ℕ
  pub need_lock : Bool

-- The constructor.
unfoldable pub make {ℓ} : {A : Type ℓ} → ℕ → Bool → Lru A
make max_cap need_lock = record { set = []; items = []; max_cap = max_cap; need_lock = need_lock }

unfoldable pub empty {ℓ} : {A : Type ℓ} → Lru A → Bool
empty l = elim l.items [ [] ↦ true | _ ∷ _ ↦ false ]

unfoldable pub clear {ℓ} : {A : Type ℓ} → Lru A → Lru A
clear l = record l { set = []; items = [] }

module _ {ℓ} {A : Type ℓ} (dec : Discrete A) where
  unfoldable pub exist : Lru A → A → Bool
  exist l t = contains dec l.set t

  -- `Pop`. The first argument is what the pointer refers to, and `none` is the null pointer. The
  -- swap comes first, so the element that leaves the set is the one that stands at the front of
  -- the list after it. The result is the object, the Boolean and what the pointer refers to then.
  unfoldable pub pop_items : Option A → List A → Lru A → Lru A × Bool × Option A
  pop_items out [] l = (l, false, out)
  pop_items none (x ∷ xs) l = (record l { set = erase dec l.set x; items = xs }, true, none)
  pop_items (some v) (x ∷ xs) l = (record l { set = erase dec l.set v; items = xs }, true, some x)

  unfoldable pub pop : Option A → Lru A → Lru A × Bool × Option A
  unfolding pop_items
  pop out l = pop_items out l.items l

  -- `std::find` and `mList.erase(it)` remove the first equal element, if there is one, and so does
  -- the removal from a set.
  unfoldable pub del : Lru A → A → Lru A
  del l t =
      if contains dec l.set t
      then record l { set = erase dec l.set t; items = erase dec l.items t }
      else l

  -- The `while` of `Push`: `none` is `front` of an empty list, which C++ leaves undefined.
  unfoldable pub evict : ℕ → List A → List A → Option (List A × List A)
  evict cap set [] = if ltb cap (length set) then none else some (set, [])
  evict cap set (x ∷ xs) =
      let rest = evict cap (erase dec set x) xs in
      if ltb cap (length set) then rest else some (set, x ∷ xs)

  unfoldable pub store_parts : Lru A → Option (List A × List A) → Option (Lru A)
  store_parts l none = none
  store_parts l (some (set, items)) = some (record l { set = set; items = items })

  unfoldable pub push : Lru A → A → Option (Lru A)
  unfolding store_parts
  push l t =
      if contains dec l.set t
      then some l
      else store_parts l (evict l.max_cap (t ∷ l.set) (l.items ++ t ∷ []))
