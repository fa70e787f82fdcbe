-- ===== src/Lru/Tests.antt =====
-- The methods of src/CppLRU.h on small objects, and the theorems about them at inputs.
use moon_lib.Common.{ℕ, ◌≡◌, refl, true, false, some, List, [], ◌∷◌, arith, ℕ_discrete}
use moon_lib.Lru.{Lru, make, exist, pop, del, push, evict}
use moon_lib.Lru.Sets.{contains, erase}
use moon_lib.Lru.Invariant.{IsValid, del-IsValid}
use moon_lib.Lru.Queue.{Call, pushed, popped, deleted, run, call, queue_run, run-queue_run}
use moon_lib.Lru.Stale.{pop_out_stale}

abbrev two : Lru ℕ
two = record { set = 7 ∷ 5 ∷ []; items = 5 ∷ 7 ∷ []; max_cap = 2; need_lock = false }

abbrev calls : List (Call ℕ)
calls = pushed 5 ∷ pushed 7 ∷ []

two-IsValid : IsValid ℕ_discrete two
unfolding contains ℕ_discrete
two-IsValid = record {
  agrees = record {
    distinct_set = (refl, (refl, tt));
    distinct_items = (refl, (refl, tt));
    members = λ a. ground arith;
    sizes = refl;
  };
  bounded = omega arith;
}

-- A third element takes the place of the oldest one.
push_third :
    push ℕ_discrete two 9
    ≡ some (record { set = 9 ∷ 7 ∷ []; items = 7 ∷ 9 ∷ []; max_cap = 2; need_lock = false })
unfolding push evict contains erase ℕ_discrete
push_third = refl

run-two : run ℕ_discrete calls (make 2 false) ≡ some two
unfolding run call push evict contains erase make ℕ_discrete
run-two = refl

run-queue_run_example :
    (l' : Lru ℕ) × (run ℕ_discrete (deleted 5 ∷ popped ∷ pushed 1 ∷ []) two ≡ some l')
    × (l'.items ≡ queue_run ℕ_discrete 2 (deleted 5 ∷ popped ∷ pushed 1 ∷ []) (5 ∷ 7 ∷ []))
    × IsValid ℕ_discrete l'
    × (l'.max_cap ≡ 2)
run-queue_run_example =
    run-queue_run ℕ_discrete (deleted 5 ∷ popped ∷ pushed 1 ∷ []) two two-IsValid

del-IsValid_example : IsValid ℕ_discrete (del ℕ_discrete two 5)
del-IsValid_example = del-IsValid ℕ_discrete two 5 two-IsValid

absent-0 : exist ℕ_discrete two 0 ≡ false
unfolding exist contains ℕ_discrete
absent-0 = refl

pop_out_stale_example :
    (pop ℕ_discrete (some 0) two ≡ (record two { items = 7 ∷ [] }, true, some 5))
    × (contains ℕ_discrete (7 ∷ []) 5 ≡ false)
    × (exist ℕ_discrete (record two { items = 7 ∷ [] }) 5 ≡ true)
    × (push ℕ_discrete (record two { items = 7 ∷ [] }) 5 ≡ some (record two { items = 7 ∷ [] }))
pop_out_stale_example = pop_out_stale ℕ_discrete two 0 5 (7 ∷ []) two-IsValid refl absent-0
