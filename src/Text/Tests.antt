-- ===== src/Text/Tests.antt =====
-- CppString::EditDistance, SplitStr and GetList at texts.
use moon_lib.Common.{ℕ, List, some, false, ◌≡◌, [], ◌∷◌, reverse, refl, arith}
use moon_lib.Text.Split.{split_str, get_list}
use moon_lib.Text.Replace.{replace_str}
use moon_lib.Text.Replace.Single.{swap_all, replace_str-swap_all}
use moon_lib.Text.Split.Joined.{split_str-get_list}
use moon_lib.Text.Distance.{
  place, fill, iota, columns, edit_distance, distance, edit_distance-distance,
}

-- "kit" and "sits".
distance_run : edit_distance (b'k' ∷ b'i' ∷ b't' ∷ []) (b's' ∷ b'i' ∷ b't' ∷ b's' ∷ []) ≡ 2
unfolding place fill iota columns edit_distance
distance_run = refl

edit_distance-distance_example :
    edit_distance (b'k' ∷ b'i' ∷ b't' ∷ []) (b's' ∷ b'i' ∷ b't' ∷ b's' ∷ [])
    ≡ distance (reverse (b'k' ∷ b'i' ∷ b't' ∷ [])) (reverse (b's' ∷ b'i' ∷ b't' ∷ b's' ∷ []))
edit_distance-distance_example =
    edit_distance-distance (b'k' ∷ b'i' ∷ b't' ∷ []) (b's' ∷ b'i' ∷ b't' ∷ b's' ∷ []) (omega arith)

-- "a,,b" at ",".
split_str-get_list_example :
    (pieces : List (List ℕ)) × (split_str
        (b'a' ∷ b',' ∷ b',' ∷ b'b' ∷ [])
        ((b',' ∷ []) ∷ [])
        false
        0
      ≡ some pieces)
    × (get_list pieces (b',' ∷ []) ≡ b'a' ∷ b',' ∷ b',' ∷ b'b' ∷ [])
split_str-get_list_example = split_str-get_list (b'a' ∷ b',' ∷ b',' ∷ b'b' ∷ []) (b',' ∷ []) refl

-- "abab" with "ba" for "b".
replace_str-swap_all_example :
    replace_str (b'a' ∷ b'b' ∷ b'a' ∷ b'b' ∷ []) (b'b' ∷ []) (b'b' ∷ b'a' ∷ [])
    ≡ some (swap_all b'b' (b'b' ∷ b'a' ∷ []) (b'a' ∷ b'b' ∷ b'a' ∷ b'b' ∷ []))
unfolding swap_all
replace_str-swap_all_example =
    replace_str-swap_all b'b' (b'b' ∷ b'a' ∷ []) (b'a' ∷ b'b' ∷ b'a' ∷ b'b' ∷ []) (omega arith)
