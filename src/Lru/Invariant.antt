-- ===== src/Lru/Invariant.antt =====
-- The invariant of src/CppLRU.h: the set and the list hold the same elements, each once, and no
-- more than the capacity.
use moon_lib.Common.{
  ℕ, ◌≤◌, ◌≡◌, refl, Bool, true, false, none, inl, inr, List, [], ◌∷◌, ◌++◌, ◌∙◌, sym, arith,
  length, length-append, Bool-cases,
}
use moon_lib.Lru.{Lru, make, clear, pop, pop_items, del}
use moon_lib.Lru.Sets.{
  contains, erase, IsDistinct, contains-erase_ne, contains-erase_self, erase-IsDistinct,
  length-erase, append_last-IsDistinct,
}

module _ {ℓ} {A : Type ℓ} (dec : Discrete A) where
  -- Two lists of the same elements, each once.
  pub record Agrees (set items : List A) : Type ℓ where
    pub distinct_set : IsDistinct dec set
    pub distinct_items : IsDistinct dec items
    pub members : (a : A) → contains dec set a ≡ contains dec items a
    pub sizes : length set ≡ length items

  pub record IsValid (l : Lru A) : Type ℓ where
    pub agrees : Agrees l.set l.items
    pub bounded : length l.items ≤ l.max_cap

  contains-front : (x a : A) (xs : List A) → x ≡ a → contains dec (x ∷ xs) a ≡ true
  unfolding contains
  contains-front x a xs e = ground arith

  -- Any element may leave both lists.
  pub erase-Agrees :
      (set items : List A) (x : A)
      → Agrees set items
      → contains dec set x ≡ true
      → Agrees (erase dec set x) (erase dec items x)
  erase-Agrees set items x g h = record {
    distinct_set = erase-IsDistinct dec set x g.distinct_set;
    distinct_items = erase-IsDistinct dec items x g.distinct_items;
    members = λ a. elim (dec x a) [
      | yes e ↦ rw (← e) (
          contains-erase_self dec set x g.distinct_set
          ∙ sym (contains-erase_self dec items x g.distinct_items))
      | no n ↦
          contains-erase_ne dec set x a n ∙ g.members a ∙ sym (contains-erase_ne dec items x a n)
    ];
    sizes = omega (
      arith,
      length-erase dec set x h,
      length-erase dec items x (sym (g.members x) ∙ h),
      g.sizes,
    );
  }

  erase-front : (x : A) (xs : List A) → erase dec (x ∷ xs) x ≡ xs
  unfolding erase
  erase-front x xs = ground arith

  -- The front of the list leaves both.
  pub front-Agrees :
      (set : List A) (x : A) (xs : List A)
      → Agrees set (x ∷ xs)
      → Agrees (erase dec set x) xs × (contains dec set x ≡ true)
  front-Agrees set x xs g =
      let inside : contains dec set x ≡ true = g.members x ∙ contains-front x x xs refl in
      (rw (erase-front x xs) at (erase-Agrees set (x ∷ xs) x g inside), inside)

  members-last : (xs : List A) (t a : A) → contains dec (xs ++ t ∷ []) a ≡ contains dec (t ∷ xs) a
  unfolding contains
  members-last [] t a = refl
  members-last (x ∷ xs) t a = ground (arith, members-last xs t a)

  contains-cons_congr :
      (t a : A) (xs ys : List A)
      → contains dec xs a ≡ contains dec ys a
      → contains dec (t ∷ xs) a ≡ contains dec (t ∷ ys) a
  unfolding contains
  contains-cons_congr t a xs ys h = ground arith

  -- A new element enters both.
  pub insert-Agrees :
      (set items : List A) (t : A)
      → Agrees set items
      → contains dec set t ≡ false
      → Agrees (t ∷ set) (items ++ t ∷ [])
  insert-Agrees set items t g h = record {
    distinct_set = (h, g.distinct_set);
    distinct_items = append_last-IsDistinct dec items t g.distinct_items (sym (g.members t) ∙ h);
    members = λ a. contains-cons_congr t a set items (g.members a) ∙ sym (members-last items t a);
    sizes = omega (arith, length-append items (t ∷ []), g.sizes);
  }

  -- A new object is valid.
  pub make-IsValid : (cap : ℕ) (lock : Bool) → IsValid (make cap lock)
  unfolding make contains
  make-IsValid cap lock = record {
    agrees = record { distinct_set = tt; distinct_items = tt; members = λ a. refl; sizes = refl };
    bounded = omega arith;
  }

  pub clear-IsValid : (l : Lru A) → IsValid (clear l)
  unfolding clear contains
  clear-IsValid l = record {
    agrees = record { distinct_set = tt; distinct_items = tt; members = λ a. refl; sizes = refl };
    bounded = omega arith;
  }

  pub pop_items-IsValid :
      (xs : List A) (l : Lru A) → IsValid l → l.items ≡ xs → IsValid (pop_items dec none xs l).0
  unfolding pop_items
  pop_items-IsValid [] l v e = v
  pop_items-IsValid (x ∷ xs) l v e =
      let front = front-Agrees l.set x xs (rw e at v.agrees) in
      record {
        agrees = front.0;
        bounded = let b : length (x ∷ xs) ≤ l.max_cap = rw e at v.bounded in omega arith;
      }

  -- `Pop` with a null pointer keeps the invariant.
  pub pop-IsValid : (l : Lru A) → IsValid l → IsValid (pop dec none l).0
  unfolding pop
  pop-IsValid l v = pop_items-IsValid l.items l v refl

  -- `Del` keeps the invariant.
  pub del-IsValid : (l : Lru A) (t : A) → IsValid l → IsValid (del dec l t)
  unfolding del
  del-IsValid l t v = elim (Bool-cases (contains dec l.set t)) [
    | inl h ↦ rw h (record {
      agrees = erase-Agrees l.set l.items t v.agrees h;
      bounded = omega (arith, length-erase dec l.items t (sym (v.agrees.members t) ∙ h), v.bounded);
    })
    | inr h ↦ rw h v
  ]
