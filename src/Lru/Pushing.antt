-- ===== src/Lru/Pushing.antt =====
-- `Push` of src/CppLRU.h against the bounded queue that it stands for.
use moon_lib.Common.{
  ℕ, suc, ◌+◌, ◌≤◌, ◌≡◌, refl, true, false, some, inl, inr, List, [], ◌∷◌, ◌++◌, ◌∙◌, sym, arith,
  length, length-append, Bool-cases, ltb, if◌then◌else◌,
}
use moon_lib.Lru.{Lru, push, evict, store_parts}
use moon_lib.Lru.Sets.{contains, erase, length-erase}
use moon_lib.Lru.Invariant.{IsValid, Agrees, insert-Agrees, front-Agrees}

-- The queue without its first element.
abbrev pub tail {ℓ} : {A : Type ℓ} → List A → List A
tail [] = []
tail (x ∷ xs) = xs

module _ {ℓ} {A : Type ℓ} (dec : Discrete A) where
  -- A bounded queue: a known element changes nothing, a new one goes to the end, and where there
  -- is no room for it the first one leaves.
  unfoldable pub queue_push : ℕ → List A → A → List A
  queue_push cap q t =
      if contains dec q t then q else if ltb (length q) cap then q ++ t ∷ [] else tail (q ++ t ∷ [])

  evict_within :
      (c : ℕ) (set items : List A) → length set ≤ c → evict dec c set items ≡ some (set, items)
  unfolding evict
  evict_within c set [] h = ground arith
  evict_within c set (x ∷ xs) h = ground arith

  evict_one :
      (c : ℕ) (set : List A) (x : A) (xs : List A)
      → length set ≡ suc c
      → contains dec set x ≡ true
      → evict dec c set (x ∷ xs) ≡ some (erase dec set x, xs)
  unfolding evict
  evict_one c set x xs h m =
      ground (arith, evict_within c (erase dec set x) xs, length-erase dec set x m)

  -- What is left of a list that may be one element too long.
  kept : ℕ → List A → List A
  kept cap items = if ltb cap (length items) then tail items else items

  kept-nil : (c : ℕ) → kept c [] ≡ []
  unfolding kept
  kept-nil c = ground arith

  length-kept-le : (c : ℕ) (items : List A) → length items ≤ suc c → length (kept c items) ≤ c
  unfolding kept
  length-kept-le c [] h = ground arith
  length-kept-le c (x ∷ xs) h = ground arith

  queue_push-kept :
      (c : ℕ) (q : List A) (t : A)
      → contains dec q t ≡ false
      → length (q ++ t ∷ []) ≡ length q + 1
      → queue_push c q t ≡ kept c (q ++ t ∷ [])
  unfolding queue_push kept
  queue_push-kept c q t h e = ground arith

  -- What the loop leaves when it starts one element above the capacity at most.
  evict-Agrees :
      (c : ℕ) (set items : List A)
      → Agrees dec set items
      → length items ≤ suc c
      → (set' : List A) × (evict dec c set items ≡ some (set', kept c items))
        × Agrees dec set' (kept c items)
  evict-Agrees c set [] g h = rw kept-nil (set, evict_within c set [] (omega (arith, g.sizes)), g)
  evict-Agrees c set (x ∷ xs) g h = elim (Bool-cases (ltb c (length (x ∷ xs)))) [
    | inl over ↦
        let front = front-Agrees dec set x xs g in
        let same : kept c (x ∷ xs) ≡ xs = unfold kept in rw over in
        rw same (erase dec set x, evict_one c set x xs (ground (arith, g.sizes)) front.1, front.0)
    | inr fits ↦
        let same : kept c (x ∷ xs) ≡ x ∷ xs = unfold kept in rw fits in
        rw same (set, evict_within c set (x ∷ xs) (ground (arith, g.sizes)), g)
  ]

  push_new :
      (l : Lru A) (t : A)
      → IsValid dec l
      → contains dec l.set t ≡ false
      → (l' : Lru A) × (push dec l t ≡ some l')
        × (l'.items ≡ queue_push l.max_cap l.items t)
        × IsValid dec l'
        × (l'.max_cap ≡ l.max_cap)
  unfolding push store_parts
  push_new l t v h =
      let longer = l.items ++ t ∷ [] in
      let lengths : length longer ≡ length l.items + 1 = length-append l.items (t ∷ []) in
      let fits : length longer ≤ suc l.max_cap = omega (arith, lengths, v.bounded) in
      let (set', run, good) =
        evict-Agrees l.max_cap (t ∷ l.set) longer (insert-Agrees dec l.set l.items t v.agrees h)
          fits in
      (
        record l { set = set'; items = kept l.max_cap longer },
        rw (h, run),
        sym (queue_push-kept l.max_cap l.items t (sym (v.agrees.members t) ∙ h) lengths),
        record { agrees = good; bounded = length-kept-le l.max_cap longer fits },
        refl,
      )

  push_known :
      (l : Lru A) (t : A)
      → IsValid dec l
      → contains dec l.set t ≡ true
      → (l' : Lru A) × (push dec l t ≡ some l')
        × (l'.items ≡ queue_push l.max_cap l.items t)
        × IsValid dec l'
        × (l'.max_cap ≡ l.max_cap)
  unfolding push queue_push
  push_known l t v h =
      let there : contains dec l.items t ≡ true = sym (v.agrees.members t) ∙ h in
      (l, rw h, rw there, v, refl)

  -- On a valid object `Push` is defined (its loop never reads the front of an empty list), keeps
  -- the object valid and its capacity as it was, and changes the list as the bounded queue does: a
  -- known element changes nothing, a new one goes to the end, and the oldest one leaves if there
  -- is no room.
  pub push_lem :
      (l : Lru A) (t : A)
      → IsValid dec l
      → (l' : Lru A) × (push dec l t ≡ some l')
        × (l'.items ≡ queue_push l.max_cap l.items t)
        × IsValid dec l'
        × (l'.max_cap ≡ l.max_cap)
  push_lem l t v = elim (Bool-cases (contains dec l.set t)) [
    | inl known ↦ push_known l t v known
    | inr new ↦ push_new l t v new
  ]
