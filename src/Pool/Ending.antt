-- ===== src/Pool/Ending.antt =====
-- What `CppThreadPool::Stop` of src/CppThread.cpp waits for: workers that come to their end.
use moon_lib.Common.{
  ℕ, zero, suc, ◌≡◌, refl, Bool, true, false, List, [], ◌∷◌, ◌++◌, some, arith, get_elem?, set,
}
use moon_lib.Pool.{
  Task, Shared, finish, enqueue, run_new, Pc, Move, System, Step, Reach, exited, work, submit,
  submit_new, ask_stop, here, later,
}

abbrev pub has_exited : Pc → Bool
has_exited exited = true
has_exited _ = false

-- The pool was stopped with a task in the list.
abbrev pub IsCaught : Shared → Type 0
IsCaught m = (m.stop ≡ true) × ((t : Task) × (ts : List Task) × (m.fun_list ≡ t ∷ ts))

-- Worker i is there and has not come to its end.
abbrev pub IsAlive : List Pc → ℕ → Type 0
IsAlive pcs i = (p : Pc) × (get_elem? pcs i ≡ some p) × (has_exited p ≡ false)

Move-IsCaught : {m m' : Shared} {p q : Pc} → Move m p m' q → IsCaught m → IsCaught m'
unfolding finish
Move-IsCaught (Move.take h s e) (stop, rest) = cc
Move-IsCaught (Move.outer_go s) c = c
Move-IsCaught (Move.outer_stop s) c = c
Move-IsCaught (Move.wake_task h e) c = c
Move-IsCaught (Move.wake_stop h e) c = c
Move-IsCaught (Move.woken_go e) c = c
Move-IsCaught (Move.woken_stop e) c = c
Move-IsCaught (Move.inner_go e) c = c
Move-IsCaught (Move.inner_stop e) c = c
Move-IsCaught (Move.take_empty h e) c = c
Move-IsCaught (Move.take_stop h e) c = c
Move-IsCaught (Move.skip e) c = c
Move-IsCaught (Move.call e) c = c
Move-IsCaught (Move.returned a) c = c
Move-IsCaught (Move.last_lock e) c = c
Move-IsCaught (Move.drain_front e) c = c
Move-IsCaught (Move.drain_end e) c = c

-- No worker ends while a task is in the list.
Move-alive :
    {m m' : Shared} {p q : Pc}
    → Move m p m' q
    → IsCaught m
    → has_exited p ≡ false
    → has_exited q ≡ false
Move-alive (Move.drain_end e) (stop, (t, ts, f)) h = cc
Move-alive (Move.take h s e) c p = refl
Move-alive (Move.outer_go s) c p = refl
Move-alive (Move.outer_stop s) c p = refl
Move-alive (Move.wake_task h e) c p = refl
Move-alive (Move.wake_stop h e) c p = refl
Move-alive (Move.woken_go e) c p = refl
Move-alive (Move.woken_stop e) c p = refl
Move-alive (Move.inner_go e) c p = refl
Move-alive (Move.inner_stop e) c p = refl
Move-alive (Move.take_empty h e) c p = refl
Move-alive (Move.take_stop h e) c p = refl
Move-alive (Move.skip e) c p = refl
Move-alive (Move.call e) c p = refl
Move-alive (Move.returned a) c p = refl
Move-alive (Move.last_lock e) c p = refl
Move-alive (Move.drain_front e) c p = refl

-- A worker's step changes its own place only.
set-IsAlive :
    (pcs : List Pc) (i j : ℕ) {p : Pc} (q : Pc)
    → get_elem? pcs i ≡ some p
    → (has_exited p ≡ false → has_exited q ≡ false)
    → IsAlive pcs j
    → IsAlive (set pcs i q) j
set-IsAlive [] i j q e h a = a
set-IsAlive (x ∷ xs) zero zero q e h (p, f, g) = (q, refl, h (ground arith))
set-IsAlive (x ∷ xs) zero (suc j) q e h a = a
set-IsAlive (x ∷ xs) (suc i) zero q e h a = a
set-IsAlive (x ∷ xs) (suc i) (suc j) q e h a = set-IsAlive xs i j q e h a

enqueue-IsCaught : (t : Task) (b : Bool) (m : Shared) → IsCaught m → IsCaught (enqueue t b m)
unfolding enqueue
enqueue-IsCaught t true m (stop, (t', ts, e)) = (stop, (t, m.fun_list, refl))
enqueue-IsCaught t false m (stop, (t', ts, e)) = (stop, (t', ts ++ t ∷ [], rw e))

Step-IsCaught :
    {s u : System} (i : ℕ)
    → Step s u
    → IsCaught s.mem × IsAlive s.pcs i
    → IsCaught u.mem × IsAlive u.pcs i
unfolding run_new
Step-IsCaught {s} i (work j e mv) (c, a) =
    (Move-IsCaught mv c, set-IsAlive s.pcs j i _ e (Move-alive mv c) a)
Step-IsCaught {s} i (submit t b h) (c, a) = (enqueue-IsCaught t b s.mem c, a)
Step-IsCaught {s} i (submit_new t b h) (c, a) = (enqueue-IsCaught t b _ c, a)
Step-IsCaught i (ask_stop h) (c, a) = ((refl, c.1), a)

-- Once the pool is stopped with a task in its list, no worker that runs comes to its end, whatever
-- steps follow, so `Stop` waits for it without end.
pub stop_never_joins :
    {s u : System} (i : ℕ)
    → Reach s u
    → IsCaught s.mem
    → IsAlive s.pcs i
    → IsCaught u.mem × IsAlive u.pcs i
stop_never_joins i here c a = (c, a)
stop_never_joins i (later r st) c a = Step-IsCaught i st (stop_never_joins i r c a)
