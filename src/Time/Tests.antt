-- ===== src/Time/Tests.antt =====
-- CppTime of src/CppTime.h at times.
use moon_lib.Common.{◌≡◌, ◌%◌, ◌^◌, refl, arith, [], ◌∷◌}
use moon_lib.Common.Int.{negsuc}
use moon_lib.Time.{Timeval, as_int64, as_uint64, timev_to_uint, timev_diff}
use moon_lib.Time.Show.{new_timer, start}
use moon_lib.Time.Show.Laps.{records, laps, records-start}
use moon_lib.Time.Sums.{IsTime}

abbrev earlier : Timeval
earlier = record { tv_sec = 1386967000; tv_usec = 999999 }

abbrev later : Timeval
later = record { tv_sec = 1386967001; tv_usec = 1 }

diff_run : timev_diff earlier later ≡ negsuc 1
unfolding timev_diff timev_to_uint as_int64
diff_run = refl

earlier-IsTime : IsTime earlier
earlier-IsTime = record { usec_small = omega arith; fits = omega arith }

later-IsTime : IsTime later
later-IsTime = record { usec_small = omega arith; fits = omega arith }

records-start_example :
    ((records ((earlier, []) ∷ (later, []) ∷ []) (start later [] new_timer)).time_recorder
      ≡ (later, []) ∷ (earlier, []) ∷ (later, []) ∷ [])
    × (laps ((earlier, []) ∷ (later, []) ∷ []) (start later [] new_timer) % 2 ^ 64
        ≡ as_uint64 (
            timev_diff
              (records ((earlier, []) ∷ (later, []) ∷ []) (start later [] new_timer)).last_time
              (records ((earlier, []) ∷ (later, []) ∷ []) (start later [] new_timer)).start_time))
records-start_example = records-start later [] ((earlier, []) ∷ (later, []) ∷ []) new_timer
