-- ===== src/Lru/Queue.antt =====
-- Whole runs of the methods of src/CppLRU.h against a bounded queue with no set beside it.
use moon_lib.Common.{
  ℕ, ◌≡◌, ◌↔◌, refl, sym, ◌∙◌, true, false, Option, none, some, inl, inr, List, [], ◌∷◌, arith,
  Bool-cases,
}
use moon_lib.Lru.{Lru, clear, empty, exist, pop, pop_items, del, push}
use moon_lib.Lru.Sets.{contains, erase}
use moon_lib.Lru.Invariant.{IsValid, clear-IsValid, pop-IsValid, del-IsValid}
use moon_lib.Lru.Pushing.{tail, queue_push, push_lem}

-- The calls that change an object. A caller that pops passes a null pointer.
pub data Call {ℓ} (A : Type ℓ) : Type ℓ where
  pushed : A → Call A
  popped : Call A
  deleted : A → Call A
  cleared : Call A

module _ {ℓ} {A : Type ℓ} (dec : Discrete A) where
  -- One call. `none` is undefined behaviour.
  unfoldable pub call : Call A → Lru A → Option (Lru A)
  call (pushed t) l = push dec l t
  call popped l = some (pop dec none l).0
  call (deleted t) l = some (del dec l t)
  call cleared l = some (clear l)

  unfoldable pub and_then : Option (Lru A) → (Lru A → Option (Lru A)) → Option (Lru A)
  and_then none f = none
  and_then (some l) f = f l

  unfoldable pub run : List (Call A) → Lru A → Option (Lru A)
  unfolding and_then
  run [] l = some l
  run (c ∷ calls) l = and_then (call c l) (run calls)

  -- The same calls on a bounded queue: a list, with nothing beside it.
  unfoldable pub queue_call : ℕ → Call A → List A → List A
  unfolding queue_push
  queue_call cap (pushed t) q = queue_push dec cap q t
  queue_call cap popped q = tail q
  queue_call cap (deleted t) q = erase dec q t
  queue_call cap cleared q = []

  unfoldable pub queue_run : ℕ → List (Call A) → List A → List A
  queue_run cap [] q = q
  queue_run cap (c ∷ calls) q = queue_run cap calls (queue_call cap c q)

  pop_items-tail :
      (xs : List A) (l : Lru A) → l.items ≡ xs → (pop_items dec none xs l).0.items ≡ tail xs
  unfolding pop_items
  pop_items-tail [] l e = e
  pop_items-tail (x ∷ xs) l e = refl

  pop_items-max_cap : (xs : List A) (l : Lru A) → (pop_items dec none xs l).0.max_cap ≡ l.max_cap
  unfolding pop_items
  pop_items-max_cap [] l = refl
  pop_items-max_cap (x ∷ xs) l = refl

  pop-queue :
      (l : Lru A)
      → ((pop dec none l).0.items ≡ tail l.items) × ((pop dec none l).0.max_cap ≡ l.max_cap)
  unfolding pop
  pop-queue l = (pop_items-tail l.items l refl, pop_items-max_cap l.items l)

  erase_absent : (xs : List A) (t : A) → contains dec xs t ≡ false → erase dec xs t ≡ xs
  unfolding erase contains
  erase_absent [] t h = refl
  erase_absent (x ∷ xs) t h = ground (arith, erase_absent xs t)

  del-queue :
      (l : Lru A) (t : A)
      → IsValid dec l
      → ((del dec l t).items ≡ erase dec l.items t) × ((del dec l t).max_cap ≡ l.max_cap)
  unfolding del
  del-queue l t v = elim (Bool-cases (contains dec l.set t)) [
    | inl h ↦ rw h (refl, refl)
    | inr h ↦ rw h (sym (erase_absent l.items t (sym (v.agrees.members t) ∙ h)), refl)
  ]

  call-queue :
      (c : Call A) (l : Lru A)
      → IsValid dec l
      → (l' : Lru A) × (call c l ≡ some l')
        × (l'.items ≡ queue_call l.max_cap c l.items)
        × IsValid dec l'
        × (l'.max_cap ≡ l.max_cap)
  unfolding call queue_call
  call-queue (pushed t) l v = push_lem dec l t v
  call-queue popped l v =
      let (items, same) = pop-queue l in
      ((pop dec none l).0, refl, items, pop-IsValid dec l v, same)
  call-queue (deleted t) l v =
      let (items, same) = del-queue l t v in (del dec l t, refl, items, del-IsValid dec l t v, same)
  call-queue cleared l v =
      (clear l, refl, unfold clear in refl, clear-IsValid dec l, unfold clear in refl)

  -- From a valid object every run of calls is defined, ends in a valid object of the same capacity,
  -- and leaves in its list exactly what the bounded queue holds after those calls.
  pub run-queue_run :
      (calls : List (Call A)) (l : Lru A)
      → IsValid dec l
      → (l' : Lru A) × (run calls l ≡ some l')
        × (l'.items ≡ queue_run l.max_cap calls l.items)
        × IsValid dec l'
        × (l'.max_cap ≡ l.max_cap)
  unfolding run queue_run
  run-queue_run [] l v = (l, refl, refl, v, refl)
  run-queue_run (c ∷ calls) l v =
      let (m, called, items, valid, same) = call-queue c l v in
      let (l', ran, items', valid', same') = run-queue_run calls m valid in
      (l', rw called ran, rw (same, items) at items', valid', same' ∙ same)

  -- On a valid object `Exist` answers whether the queue holds the element, and `Empty` whether the
  -- queue is empty.
  pub exist-queue :
      (l : Lru A)
      → IsValid dec l
      → ((a : A) → exist dec l a ≡ contains dec l.items a) × ((empty l ≡ true) ↔ (l.items ≡ []))
  unfolding exist empty
  exist-queue l v = (v.agrees.members, (ground arith, ground arith))
