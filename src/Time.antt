-- ===== src/Time.antt =====
-- CppTime of src/CppTime.h: the arithmetic on times. A timeval is one after 1970, so its parts are not
-- negative.
pub mod Sums
pub mod Show
mod Tests
use moon_lib.Common.{ℕ, zero, suc, ◌+◌, ◌-◌, ◌*◌, ◌/◌, ◌%◌, ◌^◌, ltb, if◌then◌else◌}
use moon_lib.Common.Int.{ℤ, pos, negsuc}

pub record Timeval : Type 0 where
  pub tv_sec : ℕ
  pub tv_usec : ℕ

-- A number of 64 bits as int64_t, and back.
unfoldable pub as_int64 : ℕ → ℤ
as_int64 n = if ltb n (2 ^ 63) then pos n else negsuc (2 ^ 64 - 1 - n)

unfoldable pub as_uint64 : ℤ → ℕ
as_uint64 (pos n) = n % 2 ^ 64
as_uint64 (negsuc n) = 2 ^ 64 - 1 - n % 2 ^ 64

-- `Timev2Uint` and `Uint2Timev`.
unfoldable pub timev_to_uint : Timeval → ℕ
timev_to_uint timev = (timev.tv_sec * 1000000 + timev.tv_usec) % 2 ^ 64

unfoldable pub uint_to_timev : ℕ → Timeval
uint_to_timev time_uint = record { tv_sec = time_uint / 1000000; tv_usec = time_uint % 1000000 }

-- `TimevDiff`.
unfoldable pub timev_diff : Timeval → Timeval → ℤ
timev_diff timev1 timev2 =
    as_int64 ((timev_to_uint timev1 + 2 ^ 64 - timev_to_uint timev2) % 2 ^ 64)

-- `TimevAdd`.
unfoldable pub timev_add : Timeval → ℤ → Timeval
timev_add timev timei = uint_to_timev ((timev_to_uint timev + as_uint64 timei) % 2 ^ 64)
