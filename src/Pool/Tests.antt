-- ===== src/Pool/Tests.antt =====
-- The pool of src/CppThread.cpp on small histories, and the theorems about it there.
use moon_lib.Common.{◌≤◌, ◌⊎◌, ◌+◌, refl, true, false, [], ◌∷◌, ◌==◌, arith}
use moon_lib.Pool.{
  Task, Shared, finish, enqueue, run_new, Move, System, Reach, ending, waiting, draining, inner,
  taking, work, submit_new, ask_stop, here, later,
}
use moon_lib.Pool.Ending.{IsCaught, IsAlive, stop_never_joins}
use moon_lib.Pool.Calls.{count, queued, due, submissions, called_at_most}
use moon_lib.Pool.Alone.{Alone, idle, then_move}
use moon_lib.Pool.Order.{Ran, AllEnded, empties_in_order}

abbrev first : Task
first = record { fun = 7; context = 0 }

abbrev second : Task
second = record { fun = 8; context = 1 }

-- Nothing in the list, one worker about to end and one that waits.
abbrev quiet : Shared
quiet = record {
  fun_list = [];
  stop = false;
  held = false;
  contexts = λ d. record { is_finish = false; is_abort = false };
  calls = [];
}

abbrev caught : System
caught = record {
  mem = record quiet { fun_list = first ∷ []; stop = true };
  pcs = ending ∷ waiting ∷ [];
}

-- The first worker takes the lock and finishes the task's context once.
abbrev caught_later : System
caught_later = record {
  mem = finish 0 true (record caught.mem { held = true });
  pcs = draining ∷ waiting ∷ [];
}

abbrev caught_run : Reach caught caught_later
unfolding finish
caught_run =
    later (later here (work 0 refl (Move.last_lock refl))) (work 0 refl (Move.drain_front refl))

stop_never_joins_example : IsCaught caught_later.mem × IsAlive caught_later.pcs 0
unfolding finish
stop_never_joins_example =
    stop_never_joins 0 caught_run (refl, (first, [], refl)) (ending, refl, refl)

-- A worker that looks for tasks, with two of them in the list.
abbrev busy : System
busy = record { mem = record quiet { fun_list = first ∷ second ∷ [] }; pcs = inner ∷ [] }

-- The worker has gone to the lock of the list.
abbrev busy_later : System
busy_later = record busy { pcs = taking ∷ [] }

abbrev busy_run : Alone (λ f. f == 7) 0 busy busy_later
busy_run = then_move idle refl (Move.inner_go refl) tt

empties_in_order_example :
    (v : System) × Ran (λ f. f == 7) busy v 0 (first ∷ second ∷ []) []
    × AllEnded (λ f. f == 7) (first ∷ second ∷ []) v.mem.contexts
    × (Alone (λ f. f == 7) 0 busy_later v ⊎ Alone (λ f. f == 7) 0 v busy_later)
empties_in_order_example =
    empties_in_order (λ f. f == 7) busy busy_later 0 (first ∷ second ∷ []) (refl, refl, refl) refl
      (refl, (omega arith, tt), (refl, tt, tt)) busy_run

-- The second task is handed in, then the pool is stopped.
abbrev stopped : System
stopped = record busy { mem = record (run_new second true busy.mem) { stop = true } }

abbrev stopped_run : Reach busy stopped
unfolding run_new enqueue
stopped_run = later (later here (submit_new second true refl)) (ask_stop refl)

called_at_most_example :
    count 8 stopped.mem.calls + queued 8 stopped.mem.fun_list
    ≤ due 8 busy + submissions 8 stopped_run
called_at_most_example = called_at_most 8 stopped_run
