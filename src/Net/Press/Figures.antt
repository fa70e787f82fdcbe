-- ===== src/Net/Press/Figures.antt =====
-- What the figures of MultiThreadClientBase of src/CppNet.cpp stand for.
pub mod Extremes
use moon_lib.Common.{
  ℕ, zero, suc, ◌+◌, ◌*◌, ◌%◌, ◌^◌, ◌≤◌, ◌<◌, ◌≡◌, ◌⊎◌, refl, sym, ap, ◌∙◌, Bool, true, false, ◌||◌,
  Option, none, some, List, [], ◌∷◌, length, ltb, ◌==◌, if◌then◌else◌, inl, inr, Bool-cases, arith,
}
use moon_lib.Common.Int.{ℤ, pos, negsuc}
use moon_lib.Time.{Timeval, timev_diff}
use moon_lib.Net.Press.{
  Stats, Press, CheckResponse, send_time, later_min, later_max, add_time, count_response, read_all,
  read_used, read_since, proc_read, write_since, proc_write, proc_delete_fd, add_client,
  reset_period,
}
use moon_lib.Net.Press.Figures.Extremes.{
  Has, IsLeast, IsGreatest, later_min-IsLeast, later_max-IsGreatest,
}

unfoldable pub sum : List ℕ → ℕ
sum [] = 0
sum (u ∷ l) = u + sum l

-- What happens to the connections of the thread, and what the thread of `Run` does to the figures of
-- the period, at any time.
pub data Event : Type 0 where
  connected : ℕ → Timeval → Event
  wrote : ℕ → ℤ → Timeval → Event
  got : ℕ → Timeval → List (List ℕ) → Event
  deleted : ℕ → Event
  reset : (total least greatest : ℕ) → Event

-- The times of the answers, the last one first.
abbrev pub add_used : ℤ → List ℕ → List ℕ
add_used (negsuc n) h = h
add_used (pos zero) h = h
add_used (pos (suc n)) h = suc n ∷ h

abbrev pub add_since : Timeval → Option Timeval → List ℕ → List ℕ
add_since now none h = h
add_since now (some t) h = add_used (timev_diff now t) h

abbrev pub add_event : {U : Type 0} → Event → Press U → List ℕ → List ℕ
add_event (connected fd t) p h = h
add_event (wrote fd ret now) p h = h
add_event (got fd now reads) p h = add_since now (send_time fd p.send_times) h
add_event (deleted fd) p h = h
add_event (reset total least greatest) p h = h

abbrev pub only_state : {U : Type 0} → Option (Press U × Bool) → Option (Press U)
only_state none = none
only_state (some (p, ok)) = some p

module _ {U : Type 0} (check_response : CheckResponse U) where
  unfoldable pub step : Event → Press U → Option (Press U)
  step (connected fd t) p = some (add_client fd t p)
  step (wrote fd ret now) p = only_state (proc_write fd ret now p)
  step (got fd now reads) p = only_state (proc_read check_response fd now reads p)
  step (deleted fd) p = some (proc_delete_fd fd p)
  step (reset total least greatest) p = some (reset_period total least greatest p)

  -- The state and the times after some events; `none` where the source is undefined.
  abbrev pub and_times : Option (Press U) → List ℕ → Option (Press U × List ℕ)
  and_times none h = none
  and_times (some p) h = some (p, h)

  abbrev pub then_events :
      (Press U → List ℕ → Option (Press U × List ℕ))
      → Option (Press U × List ℕ)
      → Option (Press U × List ℕ)
  then_events next none = none
  then_events next (some (p, h)) = next p h

  unfoldable pub events_run : List Event → Press U → List ℕ → Option (Press U × List ℕ)
  events_run [] p h = some (p, h)
  events_run (e ∷ events) p h =
      then_events (events_run events) (and_times (step e p) (add_event e p h))

-- The figures of the whole run are those of the times.
pub record Matches (st : Stats) (h : List ℕ) : Type 0 where
  pub counted : (st.success_count + st.fail_count) % 2 ^ 64 ≡ length h % 2 ^ 64
  pub total_is : st.total_time_us ≡ sum h % 2 ^ 64
  pub min_is : IsLeast st.min_time_us h
  pub max_is : IsGreatest st.max_time_us h
