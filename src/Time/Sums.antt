-- ===== src/Time/Sums.antt =====
-- Differences and sums of times of src/CppTime.h.
use moon_lib.Common.{
  ℕ, ◌≡◌, refl, ap, ◌∙◌, ◌+◌, ◌-◌, ◌*◌, ◌/◌, ◌%◌, ◌^◌, ◌<◌, arith, ltb, inl, inr, Bool-cases,
}
use moon_lib.Time.{
  Timeval, as_int64, as_uint64, timev_to_uint, uint_to_timev, timev_diff, timev_add,
}

-- A time with its microseconds below a second, which an int64_t holds.
pub record IsTime (t : Timeval) : Type 0 where
  pub usec_small : t.tv_usec < 1000000
  pub fits : t.tv_sec * 1000000 + t.tv_usec < 2 ^ 63

pub as_uint64-as_int64 : (n : ℕ) → n < 2 ^ 64 → as_uint64 (as_int64 n) ≡ n
unfolding as_uint64 as_int64
as_uint64-as_int64 n h = elim (Bool-cases (ltb n (2 ^ 63))) [
  | inl e ↦ rw e (omega arith)
  | inr e ↦ rw e (omega arith)
]

timev_eq :
    (s s' u u' : ℕ)
    → s ≡ s'
    → u ≡ u'
    → ◌≡◌ {A = Timeval} (record { tv_sec = s; tv_usec = u }) (record { tv_sec = s'; tv_usec = u' })
timev_eq s s' u u' h k = rw (h, k) refl

pub uint_to_timev-timev_to_uint : (t : Timeval) → IsTime t → uint_to_timev (timev_to_uint t) ≡ t
unfolding uint_to_timev timev_to_uint
uint_to_timev-timev_to_uint t h =
    let small = h.usec_small in
    let whole = h.fits in
    timev_eq ((t.tv_sec * 1000000 + t.tv_usec) % 2 ^ 64 / 1000000) t.tv_sec
      ((t.tv_sec * 1000000 + t.tv_usec) % 2 ^ 64 % 1000000) t.tv_usec (omega arith) (omega arith)

-- What `TimevDiff` tells between two times, added to the second by `TimevAdd`, gives the first, whichever
-- of them is later.
pub timev_add-timev_diff : (t u : Timeval) → IsTime t → IsTime u → timev_add u (timev_diff t u) ≡ t
unfolding timev_add timev_diff
timev_add-timev_diff t u h k =
    let a = timev_to_uint t in
    let b = timev_to_uint u in
    rw (as_uint64-as_int64 ((a + 2 ^ 64 - b) % 2 ^ 64) (omega arith))
      (ap uint_to_timev (back a b (small t) (small u)) ∙ uint_to_timev-timev_to_uint t h)
  where
    small : (t : Timeval) → timev_to_uint t < 2 ^ 64
    small t = unfold timev_to_uint in omega arith

    back : (a b : ℕ) → a < 2 ^ 64 → b < 2 ^ 64 → (b + (a + 2 ^ 64 - b) % 2 ^ 64) % 2 ^ 64 ≡ a
    back a b p q = omega arith
