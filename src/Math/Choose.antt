-- ===== src/Math/Choose.antt =====
-- `Combination` of CppMath of src/CppMath.cpp.
pub mod Pascal
use moon_lib.Common.{
  ℕ, zero, suc, ◌+◌, ◌-◌, ◌*◌, ◌/◌, ◌%◌, ◌^◌, Option, none, some, leb, if◌then◌else◌,
}

-- The first loop, which multiplies, and the second, which divides. `none` is a loop that does not end
-- within the fuel.
unfoldable pub up_loop : ℕ → ℕ → ℕ → ℕ → Option ℕ
up_loop zero n i result = none
up_loop (suc fuel) n i result =
    let rest = up_loop fuel n ((i + 1) % 2 ^ 32) (result * i % 2 ^ 32) in
    if leb i n then rest else some result

unfoldable pub down_loop : ℕ → ℕ → ℕ → ℕ → Option ℕ
down_loop zero d i result = none
down_loop (suc fuel) d i result =
    let rest = down_loop fuel d ((i + 1) % 2 ^ 32) (result / i) in
    if leb i d then rest else some result

abbrev pub divide_by : ℕ → Option ℕ → Option ℕ
divide_by d none = none
divide_by d (some result) = down_loop (suc d) d 2 result

-- `Combination`. One round for each number and one to see the end.
unfoldable pub combination : ℕ → ℕ → Option ℕ
combination n r = divide_by ((n + 2 ^ 32 - r) % 2 ^ 32) (up_loop (suc n) n ((r + 1) % 2 ^ 32) 1)
