-- ===== src/Text/Replace.antt =====
-- CppString::ReplaceStr of src/CppString.cpp.
pub mod Single
pub mod Stops
use moon_lib.Common.{
  ℕ, zero, suc, ◌+◌, ◌-◌, ◌%◌, ◌^◌, Option, none, some, List, ◌++◌, leb, length, take, drop,
  if◌then◌else◌,
}
use moon_lib.Text.Split.{is_empty, index_of}

abbrev pub offset : ℕ → Option ℕ → Option ℕ
offset pos none = none
offset pos (some i) = some (pos + i)

-- `find(oldValue, pos)` of std::string.
unfoldable pub find_from : List ℕ → List ℕ → ℕ → Option ℕ
find_from old_value str pos =
    let found = offset pos (index_of old_value (drop pos str)) in
    if leb pos (length str) then (if is_empty old_value then some pos else found) else none

-- `pos += newValue.length() - oldValue.length() + 1`, in 64 bits.
unfoldable pub next_pos : ℕ → ℕ → ℕ → ℕ
next_pos pos new_length old_length = (pos + new_length + 1 + 2 ^ 64 - old_length) % 2 ^ 64

-- `replace(pos, oldValue.length(), newValue)` of std::string.
abbrev pub splice : List ℕ → List ℕ → List ℕ → ℕ → List ℕ
splice old_value new_value str pos = take pos str ++ new_value ++ drop (pos + length old_value) str

-- One round; `next` is the rest of the loop.
unfoldable pub replace_at :
    (List ℕ → ℕ → Option (List ℕ)) → List ℕ → List ℕ → List ℕ → Option ℕ → Option (List ℕ)
replace_at next old_value new_value str none = some str
replace_at next old_value new_value str (some pos) =
    next (splice old_value new_value str pos) (next_pos pos (length new_value) (length old_value))

-- The loop of `ReplaceStr`. `none` is a loop that does not end within the fuel.
unfoldable pub replace_loop : ℕ → List ℕ → List ℕ → List ℕ → ℕ → Option (List ℕ)
replace_loop zero old_value new_value str pos = none
replace_loop (suc fuel) old_value new_value str pos =
    replace_at (replace_loop fuel old_value new_value) old_value new_value str
      (find_from old_value str pos)

-- `ReplaceStr`. Each round brings the place nearer to the end of the text by one.
unfoldable pub replace_str : List ℕ → List ℕ → List ℕ → Option (List ℕ)
replace_str str old_value new_value =
    replace_loop (suc (suc (length str))) old_value new_value str 0
