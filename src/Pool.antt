-- ===== src/Pool.antt =====
-- CppThreadPool and CppThreadContext of src/CppThread.h and src/CppThread.cpp: workers that take tasks
-- from one list. A step is one section of code between two accesses of what the threads share, and a
-- section under a lock is one step, but for the last loop of `RunTask`, which keeps the list's lock
-- from round to round.
mod Tests
pub mod Ending
pub mod Order
pub mod Alone
pub mod Calls
use moon_lib.Common.{
  ℕ, suc, ◌≡◌, Bool, true, false, not, ◌&&◌, List, [], ◌∷◌, ◌++◌, ◌==◌, if◌then◌else◌, Option, some,
  get_elem?, set,
}

-- CppThreadContext.
pub record Context : Type 0 where
  pub is_finish : Bool
  pub is_abort : Bool

-- An element of `m_fun_list`: a function to call and the number of its context.
pub record Task : Type 0 where
  pub fun : ℕ
  pub context : ℕ

-- What the threads share: `m_fun_list`, `m_stop`, whether a worker that ends holds
-- `m_fun_list_mutex`, the contexts, and the calls that were made, the first one first.
pub record Shared : Type 0 where
  pub fun_list : List Task
  pub stop : Bool
  pub held : Bool
  pub contexts : ℕ → Context
  pub calls : List ℕ

-- `CppThreadContext::Finish`.
unfoldable pub finish : ℕ → Bool → Shared → Shared
finish c is_abort m = record m {
  contexts = λ d. if c == d then record { is_finish = true; is_abort = is_abort } else m.contexts d;
}

-- `Run` and `RunOnContext`, the part under the lock.
unfoldable pub enqueue : Task → Bool → Shared → Shared
enqueue t high_priority m = record m {
  fun_list = if high_priority then t ∷ m.fun_list else m.fun_list ++ t ∷ [];
}

-- `Run`, with the context that it makes.
unfoldable pub run_new : Task → Bool → Shared → Shared
run_new t high_priority m = enqueue t high_priority (record m {
  contexts =
      λ d. if t.context == d then record { is_finish = false; is_abort = false } else m.contexts d;
})

-- Where a worker stands in `RunTask`, with the task that it has taken.
pub data Pc : Type 0 where
  outer : Pc  -- the test of the first `while`
  waiting : Pc  -- in `wait`
  woken : Pc  -- after `wait`
  inner : Pc  -- the test of the second `while`
  taking : Pc  -- before the lock of the list
  taken : Task → Pc  -- before the test of `m_is_finish`
  running : Task → Pc  -- in the call
  ending : Pc  -- before the last lock
  draining : Pc  -- the last `while`, with the lock
  exited : Pc

-- One step of one worker.
pub data Move (m : Shared) : Pc → Shared → Pc → Type 0 where
  outer_go : m.stop ≡ false → Move m outer m waiting
  outer_stop : m.stop ≡ true → Move m outer m ending
  wake_task :
      {t : Task} {ts : List Task} → m.held ≡ false → m.fun_list ≡ t ∷ ts → Move m waiting m woken
  wake_stop : m.held ≡ false → m.stop ≡ true → Move m waiting m woken
  woken_go : m.stop ≡ false → Move m woken m inner
  woken_stop : m.stop ≡ true → Move m woken m ending
  inner_go : m.stop ≡ false → Move m inner m taking
  inner_stop : m.stop ≡ true → Move m inner m outer
  take_empty : m.held ≡ false → m.fun_list ≡ [] → Move m taking m outer
  take_stop : m.held ≡ false → m.stop ≡ true → Move m taking m outer
  take :
      {t : Task} {ts : List Task}
      → m.held ≡ false
      → m.stop ≡ false
      → m.fun_list ≡ t ∷ ts
      → Move m taking (record m { fun_list = ts }) (taken t)
  skip :
      {t : Task}
      → (m.contexts t.context).is_finish ≡ true
      → Move m (taken t) (finish t.context (m.contexts t.context).is_abort m) inner
  call :
      {t : Task}
      → (m.contexts t.context).is_finish ≡ false
      → Move m (taken t) (record m { calls = m.calls ++ t.fun ∷ [] }) (running t)
  returned : {t : Task} (abort : Bool) → Move m (running t) (finish t.context abort m) inner
  last_lock : m.held ≡ false → Move m ending (record m { held = true }) draining
  drain_front :
      {t : Task} {ts : List Task}
      → m.fun_list ≡ t ∷ ts
      → Move m draining (finish t.context true m) draining
  drain_end : m.fun_list ≡ [] → Move m draining (record m { held = false }) exited

pub record System : Type 0 where
  pub mem : Shared
  pub pcs : List Pc

-- A worker's step, a call of `Run` or `RunOnContext`, or the first part of `Stop`.
pub data Step (s : System) : System → Type 0 where
  work :
      (i : ℕ) {m : Shared} {p q : Pc}
      → get_elem? s.pcs i ≡ some p
      → Move s.mem p m q
      → Step s (record { mem = m; pcs = set s.pcs i q })
  submit :
      (t : Task) (high_priority : Bool)
      → s.mem.held ≡ false
      → Step s (record s { mem = enqueue t high_priority s.mem })
  submit_new :
      (t : Task) (high_priority : Bool)
      → s.mem.held ≡ false
      → Step s (record s { mem = run_new t high_priority s.mem })
  ask_stop : s.mem.held ≡ false → Step s (record s { mem = record s.mem { stop = true } })

pub data Reach (s : System) : System → Type 0 where
  here : Reach s s
  later : {t u : System} → Reach s t → Step t u → Reach s u
