-- ===== src/Text/Split.antt =====
-- CppString::SplitStr and CppString::GetList of src/CppString.cpp.
pub mod Joined
use moon_lib.Common.{
  ℕ, zero, suc, ◌+◌, ◌≡◌, Bool, true, false, not, ◌&&◌, ◌||◌, Option, none, some, List, [], ◌∷◌,
  ◌++◌, ltb, leb, ◌==◌, length, take, drop, if◌then◌else◌,
}

-- Whether a text begins with another one.
unfoldable pub begins_with : List ℕ → List ℕ → Bool
begins_with [] s = true
begins_with (c ∷ p) [] = false
begins_with (c ∷ p) (d ∷ s) = c == d && begins_with p s

abbrev pub one_on : Option ℕ → Option ℕ
one_on none = none
one_on (some i) = some (suc i)

-- `find` of std::string, for a text that is not empty.
unfoldable pub index_of : List ℕ → List ℕ → Option ℕ
index_of p [] = none
index_of p (c ∷ s) =
    let rest = one_on (index_of p s) in if begins_with p (c ∷ s) then some 0 else rest

abbrev pub is_empty : List ℕ → Bool
is_empty [] = true
is_empty (c ∷ s) = false

-- `index` and `splitLen`, where `none` is npos.
abbrev pub nearer : Option ℕ → ℕ → Option (ℕ × ℕ) → Option (ℕ × ℕ)
nearer none len best = best
nearer (some i) len none = some (i, len)
nearer (some i) len (some (j, l)) = if ltb i j then some (i, len) else some (j, l)

-- The loop over the separators.
unfoldable pub nearest : List (List ℕ) → List ℕ → Option (ℕ × ℕ) → Option (ℕ × ℕ)
nearest [] str best = best
nearest (p ∷ ps) str best =
    nearest ps str (if is_empty p then best else nearer (index_of p str) (length p) best)

abbrev pub put_front : List ℕ → Option (List (List ℕ)) → Option (List (List ℕ))
put_front x none = none
put_front x (some r) = some (x ∷ r)

-- What is left goes in last.
abbrev pub last_piece : Bool → List ℕ → List (List ℕ)
last_piece remove_empty str = if is_empty str && remove_empty then [] else str ∷ []

-- What the loop does at the nearest separator; `next` is the rest of the loop.
unfoldable pub split_at :
    (ℕ → List ℕ → Option (List (List ℕ)))
    → Bool
    → ℕ
    → ℕ
    → List ℕ
    → Option (ℕ × ℕ)
    → Option (List (List ℕ))
split_at next remove_empty max_count count str none = some (last_piece remove_empty str)
split_at next remove_empty max_count count str (some (i, len)) =
    let skip = next count (drop (i + len) str) in
    let keep = put_front (take i str) (next (count + 1) (drop (i + len) str)) in
    if i == 0 && remove_empty
    then skip
    else if ltb 0 max_count && leb max_count (count + 1)
    then some (last_piece remove_empty str)
    else keep

-- The loop of `SplitStr`. `none` is a loop that does not end within the fuel.
unfoldable pub split_loop : ℕ → List (List ℕ) → Bool → ℕ → ℕ → List ℕ → Option (List (List ℕ))
split_loop zero ps remove_empty max_count count str = none
split_loop (suc fuel) ps remove_empty max_count count str =
    split_at (split_loop fuel ps remove_empty max_count) remove_empty max_count count str
      (nearest ps str none)

-- `SplitStr`. Each round takes a separator off the text.
unfoldable pub split_str : List ℕ → List (List ℕ) → Bool → ℕ → Option (List (List ℕ))
split_str str ps remove_empty max_count =
    split_loop (length str + 1) ps remove_empty max_count 0 str

-- The loop of `GetList`, and `GetList` of a vector.
unfoldable pub list_loop : List ℕ → List (List ℕ) → List ℕ → List ℕ
list_loop result [] split_ch = result
list_loop result (s ∷ str) split_ch = list_loop (result ++ split_ch ++ s) str split_ch

unfoldable pub get_list : List (List ℕ) → List ℕ → List ℕ
get_list [] split_ch = []
get_list (s ∷ str) split_ch = list_loop s str split_ch
