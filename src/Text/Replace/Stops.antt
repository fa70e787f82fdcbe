-- ===== src/Text/Replace/Stops.antt =====
-- `ReplaceStr` of src/CppString.cpp stops early when its place falls below zero.
use moon_lib.Common.{
  ℕ, suc, ◌+◌, ◌^◌, ◌≤◌, ◌<◌, ◌≡◌, refl, ap, ◌∙◌, true, false, some, List, [], ◌∷◌, ◌++◌, arith,
  leb, length, drop, length-append,
}
use moon_lib.Text.Split.{begins_with, index_of}
use moon_lib.Text.Replace.{find_from, next_pos, splice, replace_at, replace_loop, replace_str}

pub drop-append : (xs ys : List ℕ) → drop (length xs) (xs ++ ys) ≡ ys
drop-append [] ys = refl
drop-append (x ∷ xs) ys = drop-append xs ys

begins_with-append : (p s : List ℕ) → begins_with p (p ++ s) ≡ true
unfolding begins_with
begins_with-append [] s = refl
begins_with-append (c ∷ p) s = ground (arith, begins_with-append p s)

index_of-append : (c : ℕ) (p s : List ℕ) → index_of (c ∷ p) ((c ∷ p) ++ s) ≡ some 0
unfolding index_of
index_of-append c p s = rw (begins_with-append (c ∷ p) s) refl

-- A place that falls below zero is one behind the end of every text that is not too long.
next_pos-below : (n k l : ℕ) → n + 1 < k → k + l < 2 ^ 63 → leb (next_pos 0 n k) (n + l) ≡ false
unfolding next_pos
next_pos-below n k l h b = ground arith

pub stops_after :
    (fuel : ℕ) (old_value new_value str : List ℕ) (pos : ℕ)
    → leb pos (length str) ≡ false
    → replace_loop (suc fuel) old_value new_value str pos ≡ some str
unfolding replace_loop replace_at find_from
stops_after fuel old_value new_value str pos h = rw h refl

pub find_from-some :
    (c : ℕ) (p str : List ℕ) (pos i : ℕ)
    → pos ≤ length str
    → index_of (c ∷ p) (drop pos str) ≡ some i
    → find_from (c ∷ p) str pos ≡ some (pos + i)
unfolding find_from
find_from-some c p str pos i h e =
    let inside : leb pos (length str) ≡ true = ground arith in rw (inside, e) refl

-- A round of the loop that finds the old value.
pub round_some :
    (fuel : ℕ) (old_value new_value str : List ℕ) (pos i : ℕ)
    → find_from old_value str pos ≡ some i
    → replace_loop (suc fuel) old_value new_value str pos
      ≡ replace_loop fuel old_value new_value
          (splice old_value new_value str i)
          (next_pos i (length new_value) (length old_value))
unfolding replace_loop replace_at
round_some fuel old_value new_value str pos i h = rw h refl

-- Where the new value is shorter than the old one by more than one, a text of fewer than 2 ^ 63
-- characters that begins with the old value has only this one replaced, whatever follows.
pub replace_str_stops :
    (old_value new_value s : List ℕ)
    → length new_value + 1 < length old_value
    → length old_value + length s < 2 ^ 63
    → replace_str (old_value ++ s) old_value new_value ≡ some (new_value ++ s)
unfolding replace_str
replace_str_stops [] new_value s h b = absurd (omega arith)
replace_str_stops (c ∷ p) new_value s h b =
    let front : 0 + length (c ∷ p) ≡ length (c ∷ p) = omega arith in
    let after : splice (c ∷ p) new_value ((c ∷ p) ++ s) 0 ≡ new_value ++ s =
      ap (λ r. new_value ++ r) (ap (λ k. drop k ((c ∷ p) ++ s)) front ∙ drop-append (c ∷ p) s) in
    let place = next_pos 0 (length new_value) (length (c ∷ p)) in
    let behind : leb place (length (new_value ++ s)) ≡ false =
      ap (leb place) (length-append new_value s)
      ∙ next_pos-below (length new_value) (length (c ∷ p)) (length s) h b in
    let fuel = length ((c ∷ p) ++ s) in
    let found = find_from-some c p ((c ∷ p) ++ s) 0 0 (omega arith) (index_of-append c p s) in
    round_some (suc fuel) (c ∷ p) new_value ((c ∷ p) ++ s) 0 0 found
    ∙ ap (λ t. replace_loop (suc fuel) (c ∷ p) new_value t place) after
    ∙ stops_after fuel (c ∷ p) new_value (new_value ++ s) place behind
