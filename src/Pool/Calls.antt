-- ===== src/Pool/Calls.antt =====
-- How often the workers of src/CppThread.cpp call a task.
use moon_lib.Common.{
  ℕ, zero, suc, ◌+◌, ◌≤◌, ◌≡◌, refl, Bool, true, false, List, [], ◌∷◌, ◌++◌, some, arith, ◌==◌,
  if◌then◌else◌, get_elem?, set,
}
use moon_lib.Pool.{
  Task, Shared, finish, enqueue, run_new, Pc, Move, System, Reach, taken, work, submit, submit_new,
  ask_stop, here, later,
}

abbrev pub one_if : Bool → ℕ
one_if b = if b then 1 else 0

-- How often f stands in a list of calls, and in the list of tasks.
unfoldable pub count : ℕ → List ℕ → ℕ
count f [] = 0
count f (g ∷ gs) = one_if (g == f) + count f gs

unfoldable pub queued : ℕ → List Task → ℕ
queued f [] = 0
queued f (t ∷ ts) = one_if (t.fun == f) + queued f ts

-- Whether a worker has taken f and not yet called it.
abbrev pub carries : ℕ → Pc → ℕ
carries f (taken t) = one_if (t.fun == f)
carries f _ = 0

unfoldable pub carried : ℕ → List Pc → ℕ
carried f [] = 0
carried f (p ∷ ps) = carries f p + carried f ps

-- The calls of f that were made or may come.
abbrev pub share : ℕ → Shared → ℕ
share f m = queued f m.fun_list + count f m.calls

abbrev pub due : ℕ → System → ℕ
due f s = share f s.mem + carried f s.pcs

-- How often f is handed in on the way.
unfoldable pub submissions : {s u : System} → ℕ → Reach s u → ℕ
submissions f here = 0
submissions f (later r (work i e mv)) = submissions f r
submissions f (later r (submit t b h)) = one_if (t.fun == f) + submissions f r
submissions f (later r (submit_new t b h)) = one_if (t.fun == f) + submissions f r
submissions f (later r (ask_stop h)) = submissions f r

count-append : (f : ℕ) (xs ys : List ℕ) → count f (xs ++ ys) ≡ count f xs + count f ys
unfolding count
count-append f [] ys = omega arith
count-append f (x ∷ xs) ys = omega (arith, count-append f xs ys)

queued-append : (f : ℕ) (xs ys : List Task) → queued f (xs ++ ys) ≡ queued f xs + queued f ys
unfolding queued
queued-append f [] ys = omega arith
queued-append f (x ∷ xs) ys = omega (arith, queued-append f xs ys)

carried-set :
    (f : ℕ) (pcs : List Pc) (i : ℕ) {p : Pc} (q : Pc)
    → get_elem? pcs i ≡ some p
    → carried f (set pcs i q) + carries f p ≡ carried f pcs + carries f q
unfolding carried
carried-set f [] i q e = cc
carried-set f (x ∷ xs) zero q e = ground arith
carried-set f (x ∷ xs) (suc i) q e = omega (arith, carried-set f xs i q e)

-- A worker's step makes no call due.
Move-share :
    {m m' : Shared} {p q : Pc} (f : ℕ)
    → Move m p m' q
    → share f m' + carries f q ≤ share f m + carries f p
unfolding finish queued count
Move-share f (Move.take {t} {ts} h s e) =
    let front : queued f (t ∷ ts) ≡ one_if (t.fun == f) + queued f ts = refl in rw e (omega arith)
Move-share {m} f (Move.call {t} e) = omega (arith, count-append f m.calls (t.fun ∷ []))
Move-share f (Move.outer_go s) = omega arith
Move-share f (Move.outer_stop s) = omega arith
Move-share f (Move.wake_task h e) = omega arith
Move-share f (Move.wake_stop h e) = omega arith
Move-share f (Move.woken_go e) = omega arith
Move-share f (Move.woken_stop e) = omega arith
Move-share f (Move.inner_go e) = omega arith
Move-share f (Move.inner_stop e) = omega arith
Move-share f (Move.take_empty h e) = omega arith
Move-share f (Move.take_stop h e) = omega arith
Move-share f (Move.skip e) = omega arith
Move-share f (Move.returned a) = omega arith
Move-share f (Move.last_lock e) = omega arith
Move-share f (Move.drain_front e) = omega arith
Move-share f (Move.drain_end e) = omega arith

share-enqueue :
    (f : ℕ) (t : Task) (b : Bool) (m : Shared)
    → share f (enqueue t b m) ≡ one_if (t.fun == f) + share f m
unfolding enqueue queued
share-enqueue f t true m = omega arith
share-enqueue f t false m = omega (arith, queued-append f m.fun_list (t ∷ []))

share-run_new :
    (f : ℕ) (t : Task) (b : Bool) (m : Shared)
    → share f (run_new t b m) ≡ one_if (t.fun == f) + share f m
unfolding run_new
share-run_new f t b m = share-enqueue f t b _

due-Reach : {s u : System} (f : ℕ) (r : Reach s u) → due f u ≤ due f s + submissions f r
unfolding submissions
due-Reach f here = omega arith
due-Reach f (later {t} r (work i e mv)) =
    omega (arith, due-Reach f r, Move-share f mv, carried-set f t.pcs i _ e)
due-Reach f (later {t} r (submit x b h)) = omega (arith, due-Reach f r, share-enqueue f x b t.mem)
due-Reach f (later {t} r (submit_new x b h)) =
    omega (arith, due-Reach f r, share-run_new f x b t.mem)
due-Reach f (later r (ask_stop h)) = omega (arith, due-Reach f r)

-- A task is called at most as often as it was handed in: the calls of f that were made and those
-- that wait in the list are together at most those due at the start and the submissions since.
pub called_at_most :
    {s u : System} (f : ℕ) (r : Reach s u)
    → count f u.mem.calls + queued f u.mem.fun_list ≤ due f s + submissions f r
called_at_most f r = omega (arith, due-Reach f r)
