-- ===== src/Text/Distance.antt =====
-- CppString::EditDistance of src/CppString.cpp, which keeps one column of the matrix, and the distance
-- by recursion on the last characters. A text is given here with its last character first.
use mathlib.Core.List.{reverse_aux}
use moon_lib.Common.{
  ℕ, suc, ◌+◌, ◌-◌, ◌%◌, ◌^◌, ◌≤◌, ◌<◌, ◌≡◌, refl, ap, ap₂, ◌∙◌, List, [], ◌∷◌, arith, ltb, ◌==◌,
  length, reverse, if◌then◌else◌,
}

abbrev pub smaller : ℕ → ℕ → ℕ
smaller a b = if ltb b a then b else a

-- The value stored in a place: the values to its upper left, above it and to its left are known.
unfoldable pub place : ℕ → ℕ → ℕ → ℕ → ℕ → ℕ
place s d left_up above left =
    let corner = (left_up + 2 ^ 32 - (if s == d then 1 else 0)) % 2 ^ 32 in
    (smaller (smaller corner above) left + 1) % 2 ^ 32

-- The inner loop, over the first text and the old column below its first place.
unfoldable pub fill : ℕ → List ℕ → ℕ → ℕ → List ℕ → List ℕ
fill d [] left_up above col = []
fill d (s ∷ ss) left_up above [] = []
fill d (s ∷ ss) left_up above (o ∷ col) = let v = place s d left_up above o in v ∷ fill d ss o v col

-- `iota` from n on, in a column of as many places as the text has characters.
unfoldable pub iota : ℕ → List ℕ → List ℕ
iota n [] = []
iota n (s ∷ ss) = (n % 2 ^ 32) ∷ iota (n + 1) ss

abbrev pub last_of : ℕ → List ℕ → ℕ
last_of v [] = v
last_of v (x ∷ xs) = last_of x xs

-- The outer loop, over the second text, and the result at its end.
unfoldable pub columns : List ℕ → List ℕ → ℕ → List ℕ → ℕ
columns str1 [] top col = (last_of top col + 2 ^ 32 - 1) % 2 ^ 32
columns str1 (d ∷ ds) top col =
    let top' = (top + 1) % 2 ^ 32 in columns str1 ds top' (fill d str1 top top' col)

-- `EditDistance`.
unfoldable pub edit_distance : List ℕ → List ℕ → ℕ
edit_distance [] str2 = length str2 % 2 ^ 32
edit_distance (s ∷ str1) [] = length (s ∷ str1) % 2 ^ 32
edit_distance (s ∷ str1) (d ∷ str2) = columns (s ∷ str1) (d ∷ str2) 1 (iota 2 (s ∷ str1))

-- The least number of insertions, deletions and changes between two texts, last characters first.
unfoldable pub distance : List ℕ → List ℕ → ℕ
distance [] ys = length ys
distance (x ∷ xs) [] = suc (length xs)
distance (x ∷ xs) (y ∷ ys) =
    smaller (smaller (distance xs ys + (if x == y then 0 else 1)) (suc (distance xs (y ∷ ys))))
      (suc (distance (x ∷ xs) ys))

distance-le : (xs ys : List ℕ) → distance xs ys ≤ length xs + length ys
unfolding distance
distance-le [] ys = omega arith
distance-le (x ∷ xs) [] = omega arith
distance-le (x ∷ xs) (y ∷ ys) = ground (arith, distance-le xs (y ∷ ys))

-- A column below its first place: at each prefix of the first text one more than the distance.
column : List ℕ → List ℕ → List ℕ → List ℕ
column rp [] t = []
column rp (s ∷ ss) t = suc (distance (s ∷ rp) t) ∷ column (s ∷ rp) ss t

place_lem :
    (s d : ℕ) (rp t : List ℕ)
    → length rp + length t + 4 < 2 ^ 32
    → place s d (suc (distance rp t)) (suc (distance rp (d ∷ t))) (suc (distance (s ∷ rp) t))
      ≡ suc (distance (s ∷ rp) (d ∷ t))
unfolding place distance
place_lem s d rp t h =
    ground (arith, distance-le rp t, distance-le rp (d ∷ t), distance-le (s ∷ rp) t)

fill-column :
    (d : ℕ) (ss rp t : List ℕ)
    → length ss + length rp + length t + 4 < 2 ^ 32
    → fill d ss (suc (distance rp t)) (suc (distance rp (d ∷ t))) (column rp ss t)
      ≡ column rp ss (d ∷ t)
unfolding fill column
fill-column d [] rp t h = refl
fill-column d (s ∷ ss) rp t h =
    let here = place_lem s d rp t (omega arith) in
    rw here (
      ap (λ rest. suc (distance (s ∷ rp) (d ∷ t)) ∷ rest)
        (fill-column d ss (s ∷ rp) t (omega arith)))

iota-column :
    (n : ℕ) (ss rp : List ℕ)
    → n ≡ suc (suc (length rp))
    → length ss + length rp + 4 < 2 ^ 32
    → iota n ss ≡ column rp ss []
unfolding iota column distance
iota-column n [] rp e h = refl
iota-column n (s ∷ ss) rp e h =
    ap₂ (λ a b. a ∷ b) (omega arith) (iota-column (n + 1) ss (s ∷ rp) (omega arith) (omega arith))

-- The characters of the second list in front of the first one, in the opposite order.
onto : List ℕ → List ℕ → List ℕ
onto rp [] = rp
onto rp (s ∷ ss) = onto (s ∷ rp) ss

last-column :
    (ss rp t : List ℕ)
    → last_of (suc (distance rp t)) (column rp ss t) ≡ suc (distance (onto rp ss) t)
unfolding column onto
last-column [] rp t = refl
last-column (s ∷ ss) rp t = last-column ss (s ∷ rp) t

length-onto : (rp ss : List ℕ) → length (onto rp ss) ≡ length ss + length rp
unfolding onto
length-onto rp [] = omega arith
length-onto rp (s ∷ ss) = omega (arith, length-onto (s ∷ rp) ss)

columns-distance :
    (str1 ds t : List ℕ)
    → length str1 + length ds + length t + 4 < 2 ^ 32
    → columns str1 ds (suc (length t)) (column [] str1 t) ≡ distance (onto [] str1) (onto t ds)
unfolding columns onto distance
columns-distance str1 [] t h =
    let bound : distance (onto [] str1) t < 2 ^ 32 =
      omega (arith, distance-le (onto [] str1) t, length-onto [] str1) in
    let low : (suc (distance (onto [] str1) t) + 2 ^ 32 - 1) % 2 ^ 32 ≡ distance (onto [] str1) t =
      omega arith in
    rw (last-column str1 [] t) low
columns-distance str1 (d ∷ ds) t h =
    let next : (suc (length t) + 1) % 2 ^ 32 ≡ suc (suc (length t)) = omega arith in
    let filled = fill-column d str1 [] t (omega arith) in
    rw (next, filled) (columns-distance str1 ds (d ∷ t) (omega arith))

onto-reverse : (rp ss : List ℕ) → onto rp ss ≡ reverse_aux ss rp
unfolding onto
onto-reverse rp [] = refl
onto-reverse rp (s ∷ ss) = onto-reverse (s ∷ rp) ss

length-reverse : (ss : List ℕ) → length (reverse ss) ≡ length ss
length-reverse ss = omega (arith, ap length (onto-reverse [] ss), length-onto [] ss)

distance-nil : (xs : List ℕ) → distance xs [] ≡ length xs
unfolding distance
distance-nil [] = refl
distance-nil (x ∷ xs) = refl

-- `EditDistance` of texts whose lengths stay below 2 ^ 32 - 4 together is the edit distance, by
-- recursion on the last characters.
pub edit_distance-distance :
    (str1 str2 : List ℕ)
    → length str1 + length str2 + 4 < 2 ^ 32
    → edit_distance str1 str2 ≡ distance (reverse str1) (reverse str2)
unfolding edit_distance distance
edit_distance-distance [] str2 h = omega (arith, length-reverse str2)
edit_distance-distance (s ∷ str1) [] h =
    omega (arith, length-reverse (s ∷ str1), distance-nil (reverse (s ∷ str1)))
edit_distance-distance (s ∷ str1) (d ∷ str2) h =
    ap (columns (s ∷ str1) (d ∷ str2) 1) (iota-column 2 (s ∷ str1) [] refl (omega arith))
    ∙ columns-distance (s ∷ str1) (d ∷ str2) [] (omega arith)
    ∙ ap₂ distance (onto-reverse [] (s ∷ str1)) (onto-reverse [] (d ∷ str2))
