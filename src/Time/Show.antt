-- ===== src/Time/Show.antt =====
-- CppShowTimer of src/CppTime.h and src/CppTime.cpp. The time of the clock is an argument, and of the text
-- that a call returns the model has the numbers.
pub mod Laps
use moon_lib.Common.{ℕ, ◌≡◌, Bool, true, false, not, List, [], ◌∷◌, ◌++◌, ◌==◌}
use moon_lib.Time.{Timeval, as_uint64, timev_diff}

-- CppShowTimer.
pub record ShowTimer : Type 0 where
  pub start_time : Timeval
  pub time_recorder : List (Timeval × List ℕ)
  pub last_time : Timeval

abbrev pub no_time : Timeval
no_time = record { tv_sec = 0; tv_usec = 0 }

-- The constructor.
abbrev pub new_timer : ShowTimer
new_timer = record { start_time = no_time; time_recorder = []; last_time = no_time }

-- `Start`.
unfoldable pub start : Timeval → List ℕ → ShowTimer → ShowTimer
start now msg timer = record { start_time = now; time_recorder = (now, msg) ∷ []; last_time = now }

-- `Record`: the times from the start and from the last call, as `%llu` prints them.
unfoldable pub record_time : Timeval → List ℕ → ShowTimer → ShowTimer × (ℕ × ℕ)
record_time now msg timer = (
  record timer { time_recorder = timer.time_recorder ++ (now, msg) ∷ []; last_time = now },
  (as_uint64 (timev_diff now timer.start_time), as_uint64 (timev_diff now timer.last_time)),
)

-- `IsStart`.
unfoldable pub is_start : ShowTimer → Bool
is_start timer = not (timer.last_time.tv_sec == 0)
