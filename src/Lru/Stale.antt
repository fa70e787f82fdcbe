-- ===== src/Lru/Stale.antt =====
-- `Pop` of src/CppLRU.h with a pointer for the result: the swap happens before the set is updated.
use moon_lib.Common.{◌≡◌, refl, ◌∙◌, ap, true, false, some, List, ◌∷◌, arith}
use moon_lib.Lru.{Lru, exist, pop, pop_items, push}
use moon_lib.Lru.Sets.{contains, erase}
use moon_lib.Lru.Invariant.{IsValid, front-Agrees}

module _ {ℓ} {A : Type ℓ} (dec : Discrete A) where
  erase_absent : (xs : List A) (v : A) → contains dec xs v ≡ false → erase dec xs v ≡ xs
  unfolding erase contains
  erase_absent List.[] v h = refl
  erase_absent (x ∷ xs) v h = ground (arith, erase_absent xs v)

  -- `Pop` on a valid object whose front is `x`, through a pointer to a value that the object does
  -- not hold: the pointer then refers to `x` and `x` is out of the list, but `Exist` still finds
  -- `x`, and a `Push` of `x` changes nothing.
  pub pop_out_stale :
      (l : Lru A) (v x : A) (xs : List A)
      → IsValid dec l
      → l.items ≡ x ∷ xs
      → exist dec l v ≡ false
      → (pop dec (some v) l ≡ (record l { items = xs }, true, some x))
        × (contains dec xs x ≡ false)
        × (exist dec (record l { items = xs }) x ≡ true)
        × (push dec (record l { items = xs }) x ≡ some (record l { items = xs }))
  unfolding pop pop_items exist push
  pop_out_stale l v x xs valid e absent =
      let front = front-Agrees dec l.set x xs (rw e at valid.agrees) in
      let distinct = rw e at valid.agrees.distinct_items in
      (
        ap (λ ys. pop_items dec (some v) ys l) e
            ∙ (λ i. (record l { set = erase_absent l.set v absent i; items = xs }, true, some x)),
        distinct.0,
        front.1,
        rw front.1,
      )
