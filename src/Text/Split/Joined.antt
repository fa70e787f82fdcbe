-- ===== src/Text/Split/Joined.antt =====
-- `SplitStr` and `GetList` of src/CppString.cpp undo one another.
use mathlib.Core.List.{append_assoc}
use moon_lib.Common.{
  ℕ, zero, suc, ◌+◌, ◌≤◌, ◌<◌, ◌≡◌, refl, sym, ap, ap₂, ◌∙◌, Bool, true, false, ◌&&◌, Option, none,
  some, List, [], ◌∷◌, ◌++◌, arith, ◌==◌, length, take, drop, if◌then◌else◌, Bool-cases,
  Option-cases, inl, inr, length-drop,
}
use moon_lib.Text.Split.{
  begins_with, one_on, index_of, is_empty, nearest, put_front, last_piece, split_at, split_loop,
  split_str, list_loop, get_list,
}

pub begins-split :
    (p s : List ℕ) → begins_with p s ≡ true → (s ≡ p ++ drop (length p) s) × (length p ≤ length s)
unfolding begins_with
begins-split [] s h = (refl, omega arith)
begins-split (c ∷ p) [] h = cc
begins-split (c ∷ p) (d ∷ s) h =
    let same : c ≡ d = ground arith in
    let rest : begins_with p s ≡ true = ground arith in
    let (e, l) = begins-split p s rest in (ap₂ (λ x xs. x ∷ xs) (sym same) e, omega arith)

found_first :
    (p : List ℕ) (c : ℕ) (s : List ℕ) → index_of p (c ∷ s) ≡ some 0 → begins_with p (c ∷ s) ≡ true
unfolding index_of
found_first p c s h = elim (Bool-cases (begins_with p (c ∷ s))) [
  | inl b ↦ b
  | inr b ↦ elim (Option-cases (index_of p s)) [
    | inl e ↦ absurd (none_found (rw (b, e) at h))
    | inr (j, e) ↦ absurd (later_found j (rw (b, e) at h))
  ]
]
  where
    none_found : ◌≡◌ {A = Option ℕ} none (some 0) → ⊥
    none_found q = cc

    later_found : (j : ℕ) → ◌≡◌ {A = Option ℕ} (some (suc j)) (some 0) → ⊥
    later_found j q = ground arith

found_later :
    (p : List ℕ) (c : ℕ) (s : List ℕ) (i : ℕ)
    → index_of p (c ∷ s) ≡ some (suc i)
    → index_of p s ≡ some i
unfolding index_of
found_later p c s i h = elim (Option-cases (index_of p s)) [
  | inl e ↦ rw e (ground (arith, at_front (begins_with p (c ∷ s)) none (rw e at h)))
  | inr (j, e) ↦ rw e (at_front (begins_with p (c ∷ s)) (some j) (rw e at h))
]
  where
    at_front :
        (b : Bool) (o : Option ℕ) → (if b then some 0 else one_on o) ≡ some (suc i) → o ≡ some i
    at_front true o q = ground arith
    at_front false none q = cc
    at_front false (some j) q = ground arith

-- A text around the first place of another one in it.
index_of-split :
    (p s : List ℕ) (i : ℕ)
    → index_of p s ≡ some i
    → (s ≡ take i s ++ p ++ drop (i + length p) s) × (i + length p ≤ length s)
unfolding index_of
index_of-split p [] i h = cc
index_of-split p (c ∷ s) zero h =
    let found : begins_with p (c ∷ s) ≡ true = found_first p c s h in
    let e : 0 + length p ≡ length p = omega arith in rw e (begins-split p (c ∷ s) found)
index_of-split p (c ∷ s) (suc i) h =
    let (e, l) = index_of-split p s i (found_later p c s i h) in
    let n : suc i + length p ≡ suc (i + length p) = omega arith in
    rw n (ap (λ r. c ∷ r) e, omega arith)

list_loop-append :
    (a r : List ℕ) (str : List (List ℕ)) (sep : List ℕ)
    → list_loop (a ++ r) str sep ≡ a ++ list_loop r str sep
unfolding list_loop
list_loop-append a r [] sep = refl
list_loop-append a r (s ∷ str) sep =
    ap (λ x. list_loop x str sep)
      (ap (λ x. x ++ s) (append_assoc a r sep) ∙ append_assoc a (r ++ sep) s)
    ∙ list_loop-append a (r ++ sep ++ s) str sep

not_empty-length : (s : List ℕ) → is_empty s ≡ false → 0 < length s
not_empty-length [] h = cc
not_empty-length (c ∷ s) h = omega arith

-- The pieces that a loop gives, put together again.
abbrev Joins : Option (List (List ℕ)) → List ℕ → List ℕ → Type 0
Joins o sep str =
    (s : List ℕ) × (pieces : List (List ℕ)) × (o ≡ some (s ∷ pieces))
    × (get_list (s ∷ pieces) sep ≡ str)

Joins-more :
    (o : Option (List (List ℕ))) (front sep rest : List ℕ)
    → Joins o sep rest
    → Joins (put_front front o) sep (front ++ sep ++ rest)
unfolding get_list list_loop
Joins-more o front sep rest (s, pieces, run, joined) = (
  front,
  s ∷ pieces,
  rw run,
  list_loop-append (front ++ sep) s pieces sep ∙ ap (λ x. front ++ sep ++ x) joined,
)

and_false : (b : Bool) → (b && false) ≡ false
and_false b = ground arith

split_loop-Joins :
    (fuel : ℕ) (sep str : List ℕ) (count : ℕ)
    → is_empty sep ≡ false
    → length str < fuel
    → Joins (split_loop fuel (sep ∷ []) false 0 count str) sep str
unfolding split_loop nearest split_at get_list list_loop
split_loop-Joins zero sep str count h l = absurd (omega arith)
split_loop-Joins (suc fuel) sep str count h l = elim (Option-cases (index_of sep str)) [
  | inl e ↦ rw (h, e) (str, [], last str, refl)
  | inr (i, e) ↦
      let (whole, fits) = index_of-split sep str i e in
      let rest = drop (i + length sep) str in
      let shorter : length rest < fuel =
        omega (arith, length-drop (i + length sep) str, not_empty-length sep h) in
      let ih = split_loop-Joins fuel sep rest (count + 1) h shorter in
      let (s, pieces, run, joined) =
        Joins-more (split_loop fuel (sep ∷ []) false 0 (count + 1) rest) (take i str) sep rest ih in
      rw (h, e) (s, pieces, rw (and_false (i == 0)) run, joined ∙ sym whole)
]
  where
    last :
        (str : List ℕ)
        → ◌≡◌ {A = Option (List (List ℕ))} (some (last_piece false str)) (some (str ∷ []))
    last [] = refl
    last (c ∷ s) = refl

-- With one separator that is not empty, no limit and empty pieces kept, `SplitStr` ends, and `GetList`
-- puts its pieces together to the text again.
pub split_str-get_list :
    (str sep : List ℕ)
    → is_empty sep ≡ false
    → (pieces : List (List ℕ)) × (split_str str (sep ∷ []) false 0 ≡ some pieces)
      × (get_list pieces sep ≡ str)
unfolding split_str
split_str-get_list str sep h =
    let (s, pieces, run, joined) = split_loop-Joins (length str + 1) sep str 0 h (omega arith) in
    (s ∷ pieces, run, joined)
