-- ===== src/Text/Count.antt =====
-- CppString::SubstrCount of src/CppString.cpp.
pub mod Places
use moon_lib.Common.{
  ℕ, zero, suc, ◌+◌, ◌%◌, ◌^◌, ◌||◌, Option, none, some, List, length, drop, if◌then◌else◌,
}
use moon_lib.Text.Split.{is_empty, index_of}

-- One round; `next` is the rest of the loop. The count has 32 bits.
unfoldable pub count_at : (List ℕ → ℕ → Option ℕ) → List ℕ → ℕ → Option ℕ → Option ℕ
count_at next str count none = some count
count_at next str count (some pos) = next (drop (pos + 1) str) ((count + 1) % 2 ^ 32)

-- The loop of `SubstrCount`. `none` is a loop that does not end within the fuel.
unfoldable pub count_loop : ℕ → List ℕ → List ℕ → ℕ → Option ℕ
count_loop zero sub_str str count = none
count_loop (suc fuel) sub_str str count =
    count_at (count_loop fuel sub_str) str count (index_of sub_str str)

-- `SubstrCount`. Each round takes a character off the text.
unfoldable pub substr_count : List ℕ → List ℕ → Option ℕ
substr_count str sub_str =
    let counted = count_loop (suc (length str)) sub_str str 0 in
    if is_empty sub_str || is_empty str then some 0 else counted
