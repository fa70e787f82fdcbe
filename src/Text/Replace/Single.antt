-- ===== src/Text/Replace/Single.antt =====
-- `ReplaceStr` of src/CppString.cpp at an old value of one character.
use mathlib.Core.List.{append_assoc}
use moon_lib.Common.{
  ℕ, zero, suc, ◌+◌, ◌^◌, ◌<◌, ◌≡◌, refl, sym, ap, ap₂, ◌∙◌, true, false, Option, none, some, List,
  [], ◌∷◌, ◌++◌, arith, leb, length, take-append, take, drop, ◌==◌, if◌then◌else◌, length-append,
  Bool-cases, inl, inr,
}
use moon_lib.Text.Split.{begins_with, one_on, index_of}
use moon_lib.Text.Replace.{find_from, next_pos, splice, replace_at, replace_loop, replace_str}
use moon_lib.Text.Replace.Stops.{drop-append, find_from-some, round_some}

-- Every such character gives way to the new value.
unfoldable pub swap_all : ℕ → List ℕ → List ℕ → List ℕ
swap_all c new_value [] = []
swap_all c new_value (d ∷ s) =
    let rest = swap_all c new_value s in if d == c then new_value ++ rest else d ∷ rest

-- What `index_of` of one character tells of a text.
abbrev Found : ℕ → List ℕ → List ℕ → Option ℕ → Type 0
Found c new_value s none = swap_all c new_value s ≡ s
Found c new_value s (some i) =
    (a : List ℕ) × (t : List ℕ) × (s ≡ a ++ c ∷ t)
    × (length a ≡ i)
    × (swap_all c new_value s ≡ a ++ new_value ++ swap_all c new_value t)

Found-cons :
    (c d : ℕ) (new_value s : List ℕ) (o : Option ℕ)
    → (d == c) ≡ false
    → Found c new_value s o
    → Found c new_value (d ∷ s) (one_on o)
unfolding swap_all
Found-cons c d new_value s none e h = rw e (ap (λ x. d ∷ x) h)
Found-cons c d new_value s (some i) e (a, t, f, l, w) =
    rw e (d ∷ a, t, ap (λ x. d ∷ x) f, ap suc l, ap (λ x. d ∷ x) w)

index_of-Found : (c : ℕ) (new_value s : List ℕ) → Found c new_value s (index_of (c ∷ []) s)
unfolding index_of begins_with
index_of-Found c new_value [] = unfold swap_all in refl
index_of-Found c new_value (d ∷ s) = elim (Bool-cases (d == c)) [
  | inl e ↦
      let same : d ≡ c = ground arith in
      let f : (c == d) ≡ true = ground arith in
      let w : swap_all c new_value (d ∷ s) ≡ new_value ++ swap_all c new_value s =
        unfold swap_all in rw e refl in
      rw f ([], s, ap (λ x. x ∷ s) same, refl, w)
  | inr e ↦
      let f : (c == d) ≡ false = ground arith in
      rw f (Found-cons c d new_value s (index_of (c ∷ []) s) e (index_of-Found c new_value s))
]

-- The place moves behind the new value.
next_pos-one : (i n : ℕ) → i + n < 2 ^ 64 → next_pos i n 1 ≡ i + n
unfolding next_pos
next_pos-one i n h = omega arith

-- The text around a place where the character was found.
splice-found :
    (c : ℕ) (new_value done a t : List ℕ)
    → splice (c ∷ []) new_value (done ++ (a ++ c ∷ t)) (length done + length a)
      ≡ ((done ++ a) ++ new_value) ++ t
splice-found c new_value done a t =
    let at : length done + length a ≡ length (done ++ a) = sym (length-append done a) in
    let past : length (done ++ a) + 1 ≡ length ((done ++ a) ++ c ∷ []) =
      sym (length-append (done ++ a) (c ∷ [])) in
    let text : done ++ (a ++ c ∷ t) ≡ (done ++ a) ++ c ∷ t = sym (append_assoc done a (c ∷ t)) in
    let more : (done ++ a) ++ c ∷ t ≡ ((done ++ a) ++ c ∷ []) ++ t =
      sym (append_assoc (done ++ a) (c ∷ []) t) in
    let front : take (length done + length a) (done ++ (a ++ c ∷ t)) ≡ done ++ a =
      ap₂ take at text ∙ take-append (done ++ a) (c ∷ t) in
    let back : drop (length done + length a + 1) (done ++ (a ++ c ∷ t)) ≡ t =
      ap₂ drop (ap (λ k. k + 1) at ∙ past) (text ∙ more) ∙ drop-append ((done ++ a) ++ c ∷ []) t in
    ap₂ (λ x y. (x ++ new_value) ++ y) front back

not_found :
    (fuel c : ℕ) (new_value str : List ℕ) (pos : ℕ)
    → index_of (c ∷ []) (drop pos str) ≡ none
    → replace_loop (suc fuel) (c ∷ []) new_value str pos ≡ some str
unfolding replace_loop replace_at find_from
not_found fuel c new_value str pos h = elim (Bool-cases (leb pos (length str))) [
  | inl e ↦ rw (e, h) refl
  | inr e ↦ rw e refl
]

-- The loop with a fuel replaces all of every rest that is shorter.
abbrev Swaps : ℕ → ℕ → List ℕ → Type 0
Swaps fuel c new_value =
    (done rest : List ℕ)
    → length rest < fuel
    → length done + length (swap_all c new_value rest) < 2 ^ 64
    → replace_loop fuel (c ∷ []) new_value (done ++ rest) (length done)
      ≡ some (done ++ swap_all c new_value rest)

Found-step :
    (fuel c : ℕ) (new_value done rest : List ℕ) (i : ℕ)
    → index_of (c ∷ []) rest ≡ some i
    → length rest < suc fuel
    → length done + length (swap_all c new_value rest) < 2 ^ 64
    → Found c new_value rest (some i)
    → Swaps fuel c new_value
    → replace_loop (suc fuel) (c ∷ []) new_value (done ++ rest) (length done)
      ≡ some (done ++ swap_all c new_value rest)
Found-step fuel c new_value done rest i e h b (a, t, text, l, w) ih =
    let found =
      find_from-some c [] (done ++ rest) (length done) i (omega (arith, length-append done rest))
        (ap (index_of (c ∷ [])) (drop-append done rest) ∙ e) in
    let past = (done ++ a) ++ new_value in
    let sizes : length rest ≡ length a + suc (length t) =
      ap length text ∙ length-append a (c ∷ t) in
    let before : length past ≡ length done + length a + length new_value =
      length-append (done ++ a) new_value ∙ ap (λ k. k + length new_value) (length-append done a) in
    let whole : done ++ swap_all c new_value rest ≡ past ++ swap_all c new_value t =
      ap (λ x. done ++ x) w
      ∙ sym (append_assoc done (a ++ new_value) (swap_all c new_value t))
      ∙ ap (λ x. x ++ swap_all c new_value t) (sym (append_assoc done a new_value)) in
    let long : length done + length (swap_all c new_value rest)
        ≡ length past + length (swap_all c new_value t) =
      sym (length-append done (swap_all c new_value rest))
      ∙ ap length whole
      ∙ length-append past (swap_all c new_value t) in
    let str : splice (c ∷ []) new_value (done ++ rest) (length done + i) ≡ past ++ t =
      ap₂ (λ r k. splice (c ∷ []) new_value (done ++ r) (length done + k)) text (sym l)
      ∙ splice-found c new_value done a t in
    let place : next_pos (length done + i) (length new_value) 1 ≡ length past =
      next_pos-one (length done + i) (length new_value) (omega arith) ∙ omega arith in
    round_some fuel (c ∷ []) new_value (done ++ rest) (length done) (length done + i) found
    ∙ ap₂ (replace_loop fuel (c ∷ []) new_value) str place
    ∙ ih past t (omega arith) (omega arith)
    ∙ ap some (sym whole)

replace_loop-Swaps : (fuel c : ℕ) (new_value : List ℕ) → Swaps fuel c new_value
replace_loop-Swaps zero c new_value done rest h b = absurd (omega arith)
replace_loop-Swaps (suc fuel) c new_value done rest h b =
    go (index_of (c ∷ []) rest) refl (index_of-Found c new_value rest)
      (replace_loop-Swaps fuel c new_value)
  where
    go :
        (o : Option ℕ)
        → index_of (c ∷ []) rest ≡ o
        → Found c new_value rest o
        → Swaps fuel c new_value
        → replace_loop (suc fuel) (c ∷ []) new_value (done ++ rest) (length done)
          ≡ some (done ++ swap_all c new_value rest)
    go none e f ih =
        not_found fuel c new_value (done ++ rest) (length done)
          (ap (index_of (c ∷ [])) (drop-append done rest) ∙ e)
        ∙ ap (λ x. some (done ++ x)) (sym f)
    go (some i) e f ih = Found-step fuel c new_value done rest i e h b f ih

-- Where the result has fewer than 2 ^ 64 characters, `ReplaceStr` of a text of one character ends, and
-- has the new value in place of each such character and every other character as it was.
pub replace_str-swap_all :
    (c : ℕ) (new_value str : List ℕ)
    → length (swap_all c new_value str) < 2 ^ 64
    → replace_str str (c ∷ []) new_value ≡ some (swap_all c new_value str)
unfolding replace_str
replace_str-swap_all c new_value str b =
    replace_loop-Swaps (suc (suc (length str))) c new_value [] str (omega arith) (omega arith)
