-- ===== src/Text/Trim.antt =====
-- CppString::TrimLeft of src/CppString.cpp, for one text to take off.
pub mod Off
use moon_lib.Common.{
  ℕ, zero, suc, Bool, true, false, not, ◌&&◌, Option, none, some, List, length, drop, ◌==◌,
  if◌then◌else◌,
}
use moon_lib.Common.Int.{ℤ, pos, negsuc}
use moon_lib.Text.Split.{is_empty, index_of}

-- `times == -1 || times-- > 0`: the new `times`, or `none` when the loop ends.
abbrev pub goes_on : ℤ → Option ℤ
goes_on (pos zero) = none
goes_on (pos (suc n)) = some (pos n)
goes_on (negsuc zero) = some (negsuc zero)
goes_on (negsuc (suc n)) = none

-- `find(trimStr) == 0`.
abbrev pub at_front : Option ℕ → Bool
at_front none = false
at_front (some i) = i == 0

-- One round; `next` is the rest of the loop.
unfoldable pub trim_at :
    (List ℕ → ℤ → Option (List ℕ)) → List ℕ → List ℕ → Option ℤ → Option (List ℕ)
trim_at next trim_str str none = some str
trim_at next trim_str str (some times) =
    let rest = next (drop (length trim_str) str) times in
    if not (is_empty trim_str) && at_front (index_of trim_str str) then rest else some str

-- The loop of `TrimLeft`. `none` is a loop that does not end within the fuel.
unfoldable pub trim_loop : ℕ → List ℕ → List ℕ → ℤ → Option (List ℕ)
trim_loop zero trim_str str times = none
trim_loop (suc fuel) trim_str str times =
    trim_at (trim_loop fuel trim_str) trim_str str (goes_on times)

-- `TrimLeft`. Each round takes a text that is not empty off.
unfoldable pub trim_left : List ℕ → List ℕ → ℤ → Option (List ℕ)
trim_left str trim_str times = trim_loop (suc (length str)) trim_str str times
