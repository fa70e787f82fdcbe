-- ===== src/Net/Press/Tests.antt =====
-- The figures of MultiThreadClientBase of src/CppNet.cpp after some events.
use moon_lib.Common.{ℕ, suc, ◌≡◌, refl, Bool, inl, List, [], ◌∷◌, some, ◌==◌, length}
use moon_lib.Common.Int.{pos}
use moon_lib.Time.{Timeval, timev_diff, timev_to_uint, as_int64}
use moon_lib.Net.Press.{
  Press, new_stats, send_time, set_send_time, add_time, count_response, read_all, proc_read,
  proc_write, add_client, reset_period,
}
use moon_lib.Net.Press.Figures.{sum, Event, connected, wrote, got, reset, step, events_run, Matches}
use moon_lib.Net.Press.Figures.Extremes.{nil-IsLeast, nil-IsGreatest}
use moon_lib.Net.Press.Kept.{RunMatches, events_run-Matches}

abbrev at : ℕ → Timeval
at usec = record { tv_sec = 1386967000; tv_usec = usec }

-- A response is right when it has two characters; the responses are counted.
abbrev is_ok_text : ℕ → List ℕ → ℕ → ℕ × Bool
is_ok_text fd text n = (suc n, length text == 2)

abbrev events : List Event
events =
    connected 3 (at 0)
    ∷ wrote 3 (pos 5) (at 10)
    ∷ got 3 (at 40) ((b'o' ∷ []) ∷ (b'k' ∷ []) ∷ [])
    ∷ reset 0 7 0
    ∷ wrote 3 (pos 0) (at 45)
    ∷ wrote 3 (pos 5) (at 50)
    ∷ got 3 (at 70) ((b'n' ∷ []) ∷ [])
    ∷ []

abbrev no_clients : Press ℕ
no_clients = record { send_times = []; stats = new_stats; own = 0 }

figures_run :
    events_run is_ok_text events no_clients []
    ≡ some (
      record {
        send_times = (3, at 50) ∷ [];
        stats = record {
          success_count = 1;
          fail_count = 1;
          total_time_us = 50;
          min_time_us = 20;
          max_time_us = 30;
          curr_total_time_us = 20;
          curr_min_time_us = 7;
          curr_max_time_us = 20;
        };
        own = 2;
      },
      20 ∷ 30 ∷ [],
    )
unfolding events_run step proc_read proc_write add_client reset_period send_time set_send_time
    add_time count_response read_all timev_diff timev_to_uint as_int64
figures_run = refl

new_stats-Matches : Matches new_stats []
unfolding sum
new_stats-Matches = record {
  counted = refl;
  total_is = refl;
  min_is = nil-IsLeast;
  max_is = nil-IsGreatest;
}

events_run-Matches_example : RunMatches is_ok_text events no_clients []
events_run-Matches_example =
    events_run-Matches is_ok_text events [] no_clients []
      (inl refl, (inl refl, (inl refl, (inl refl, (inl refl, tt))))) (λ q h. absurd h)
      new_stats-Matches
