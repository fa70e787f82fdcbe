-- ===== src/Time/Show/Laps.antt =====
-- The times that CppShowTimer of src/CppTime.cpp tells.
use mathlib.Core.List.{append-nil, append_assoc}
use moon_lib.Common.{
  ℕ, ◌+◌, ◌-◌, ◌%◌, ◌^◌, ◌<◌, ◌≡◌, refl, sym, ap, ◌∙◌, List, [], ◌∷◌, ◌++◌, arith,
}
use moon_lib.Time.{Timeval, as_uint64, timev_to_uint, timev_diff}
use moon_lib.Time.Sums.{as_uint64-as_int64}
use moon_lib.Time.Show.{ShowTimer, start, record_time}

-- Some calls of `Record`, one after the other, and the sum of the times from call to call.
unfoldable pub records : List (Timeval × List ℕ) → ShowTimer → ShowTimer
records [] timer = timer
records ((now, msg) ∷ l) timer = records l (record_time now msg timer).0

unfoldable pub laps : List (Timeval × List ℕ) → ShowTimer → ℕ
laps [] timer = 0
laps ((now, msg) ∷ l) timer =
    let (timer', shown) = record_time now msg timer in shown.1 + laps l timer'

timev_small : (t : Timeval) → timev_to_uint t < 2 ^ 64
timev_small t = unfold timev_to_uint in omega arith

shown_diff :
    (t u : Timeval)
    → as_uint64 (timev_diff t u) ≡ (timev_to_uint t + 2 ^ 64 - timev_to_uint u) % 2 ^ 64
unfolding timev_diff
shown_diff t u =
    as_uint64-as_int64 ((timev_to_uint t + 2 ^ 64 - timev_to_uint u) % 2 ^ 64) (omega arith)

laps-last :
    (l : List (Timeval × List ℕ)) (timer : ShowTimer)
    → (timev_to_uint timer.last_time + laps l timer) % 2 ^ 64
      ≡ timev_to_uint (records l timer).last_time
unfolding laps records record_time
laps-last [] timer = let small = timev_small timer.last_time in omega arith
laps-last ((now, msg) ∷ l) timer =
    let ih = laps-last l (record_time now msg timer).0 in
    step (timev_to_uint timer.last_time) (timev_to_uint now) (laps l (record_time now msg timer).0)
      (as_uint64 (timev_diff now timer.last_time)) (timev_small timer.last_time) (timev_small now)
      (shown_diff now timer.last_time)
    ∙ ih
  where
    step :
        (a b s d : ℕ)
        → a < 2 ^ 64
        → b < 2 ^ 64
        → d ≡ (b + 2 ^ 64 - a) % 2 ^ 64
        → (a + (d + s)) % 2 ^ 64 ≡ (b + s) % 2 ^ 64
    step a b s d p q e = omega arith

records-start_time :
    (l : List (Timeval × List ℕ)) (timer : ShowTimer)
    → (records l timer).start_time ≡ timer.start_time
unfolding records record_time
records-start_time [] timer = refl
records-start_time ((now, msg) ∷ l) timer = records-start_time l (record_time now msg timer).0

records-time_recorder :
    (l : List (Timeval × List ℕ)) (timer : ShowTimer)
    → (records l timer).time_recorder ≡ timer.time_recorder ++ l
unfolding records record_time
records-time_recorder [] timer = sym (append-nil timer.time_recorder)
records-time_recorder ((now, msg) ∷ l) timer =
    records-time_recorder l (record_time now msg timer).0
    ∙ append_assoc timer.time_recorder ((now, msg) ∷ []) l

-- After `Start` and any calls of `Record` the timer holds the times and messages of all of them in
-- order, and the times from call to call make up, modulo 2 ^ 64, the time from the start to the last one.
pub records-start :
    (now : Timeval) (msg : List ℕ) (l : List (Timeval × List ℕ)) (timer : ShowTimer)
    → ((records l (start now msg timer)).time_recorder ≡ (now, msg) ∷ l)
      × (laps l (start now msg timer) % 2 ^ 64
          ≡ as_uint64 (
              timev_diff
                (records l (start now msg timer)).last_time
                (records l (start now msg timer)).start_time))
unfolding start
records-start now msg l timer =
    let begun = start now msg timer in
    (
      records-time_recorder l begun,
      from_sum (timev_to_uint now) (timev_to_uint (records l begun).last_time) (laps l begun)
            (timev_small now) (laps-last l begun)
          ∙ sym (shown_diff (records l begun).last_time now)
          ∙ ap (λ t. as_uint64 (timev_diff (records l begun).last_time t))
              (sym (records-start_time l begun)),
    )
  where
    from_sum :
        (a b s : ℕ) → a < 2 ^ 64 → (a + s) % 2 ^ 64 ≡ b → s % 2 ^ 64 ≡ (b + 2 ^ 64 - a) % 2 ^ 64
    from_sum a b s p e = omega arith
