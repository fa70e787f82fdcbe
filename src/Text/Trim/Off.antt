-- ===== src/Text/Trim/Off.antt =====
-- What `TrimLeft` of src/CppString.cpp takes off.
use mathlib.Core.List.{append_assoc}
use moon_lib.Common.{
  ℕ, zero, suc, ◌<◌, ◌≡◌, ◌⊎◌, refl, sym, ap, ◌∙◌, true, false, Option, none, some, List, [], ◌∷◌,
  ◌++◌, arith, length, drop, length-drop, Bool-cases, inl, inr,
}
use moon_lib.Common.Int.{ℤ, pos, negsuc}
use moon_lib.Text.Split.{begins_with, one_on, is_empty, index_of}
use moon_lib.Text.Split.Joined.{begins-split}
use moon_lib.Text.Trim.{at_front, trim_at, trim_loop, trim_left}

at_front-index_of : (c : ℕ) (p s : List ℕ) → at_front (index_of (c ∷ p) s) ≡ begins_with (c ∷ p) s
unfolding index_of
at_front-index_of c p [] = unfold begins_with in refl
at_front-index_of c p (d ∷ s) = elim (Bool-cases (begins_with (c ∷ p) (d ∷ s))) [
  | inl e ↦ rw e refl
  | inr e ↦ rw e (later (index_of (c ∷ p) s))
]
  where
    later : (o : Option ℕ) → at_front (one_on o) ≡ false
    later none = refl
    later (some i) = ground arith

-- A text many times.
abbrev pub repeats : ℕ → List ℕ → List ℕ
repeats zero p = []
repeats (suc k) p = p ++ repeats k p

-- Why it was taken off so many times.
abbrev pub Ends : List ℕ → List ℕ → ℕ → ℤ → Type 0
Ends p r k (pos n) = (k ≡ n) ⊎ ((k < n) × (begins_with p r ≡ false))
Ends p r k (negsuc zero) = begins_with p r ≡ false
Ends p r k (negsuc (suc n)) = k ≡ 0

abbrev pub Trims : List ℕ → List ℕ → ℤ → Option (List ℕ) → Type 0
Trims p s times o =
    (r : List ℕ) × (k : ℕ) × (o ≡ some r) × (s ≡ repeats k p ++ r) × Ends p r k times

raise : (p r : List ℕ) (k n : ℕ) → Ends p r k (pos n) → Ends p r (suc k) (pos (suc n))
raise p r k n (inl e) = inl (ap suc e)
raise p r k n (inr (l, e)) = inr (omega arith, e)

-- A text that begins with another one, and what is left of it.
off_front :
    (p s r : List ℕ) (k : ℕ)
    → begins_with p s ≡ true
    → drop (length p) s ≡ repeats k p ++ r
    → s ≡ repeats (suc k) p ++ r
off_front p s r k e h =
    (begins-split p s e).0 ∙ ap (λ x. p ++ x) h ∙ sym (append_assoc p (repeats k p) r)

trim_loop-Trims :
    (fuel c : ℕ) (p s : List ℕ) (times : ℤ)
    → length s < fuel
    → Trims (c ∷ p) s times (trim_loop fuel (c ∷ p) s times)
unfolding trim_loop trim_at
trim_loop-Trims zero c p s times h = absurd (omega arith)
trim_loop-Trims (suc fuel) c p s (pos zero) h = (s, 0, refl, refl, inl refl)
trim_loop-Trims (suc fuel) c p s (negsuc (suc n)) h = (s, 0, refl, refl, refl)
trim_loop-Trims (suc fuel) c p s (pos (suc n)) h = elim (Bool-cases (begins_with (c ∷ p) s)) [
  | inl e ↦
      let (same, fits) = begins-split (c ∷ p) s e in
      let shorter : length (drop (length (c ∷ p)) s) < fuel =
        omega (arith, length-drop (length (c ∷ p)) s) in
      let (r, k, run, left, ends) =
        trim_loop-Trims fuel c p (drop (length (c ∷ p)) s) (pos n) shorter in
      rw (at_front-index_of c p s, e)
        (r, suc k, run, off_front (c ∷ p) s r k e left, raise (c ∷ p) r k n ends)
  | inr e ↦ rw (at_front-index_of c p s, e) (s, 0, refl, refl, inr (omega arith, e))
]
trim_loop-Trims (suc fuel) c p s (negsuc zero) h = elim (Bool-cases (begins_with (c ∷ p) s)) [
  | inl e ↦
      let (same, fits) = begins-split (c ∷ p) s e in
      let shorter : length (drop (length (c ∷ p)) s) < fuel =
        omega (arith, length-drop (length (c ∷ p)) s) in
      let (r, k, run, left, ends) =
        trim_loop-Trims fuel c p (drop (length (c ∷ p)) s) (negsuc zero) shorter in
      rw (at_front-index_of c p s, e) (r, suc k, run, off_front (c ∷ p) s r k e left, ends)
  | inr e ↦ rw (at_front-index_of c p s, e) (s, 0, refl, refl, e)
]

-- `TrimLeft` with a text to take off that is not empty ends. It takes the text off the front as many
-- times as it is told, or fewer when what is left does not begin with it; all of them for -1, and none
-- for the other negative numbers.
pub trim_left-Trims :
    (str trim_str : List ℕ) (times : ℤ)
    → is_empty trim_str ≡ false
    → Trims trim_str str times (trim_left str trim_str times)
unfolding trim_left
trim_left-Trims str [] times h = cc
trim_left-Trims str (c ∷ p) times h = trim_loop-Trims (suc (length str)) c p str times (omega arith)
