-- ===== src/Text/Count/Places.antt =====
-- `SubstrCount` of src/CppString.cpp counts every place of a text in another one.
use moon_lib.Common.{
  ℕ, zero, suc, ◌+◌, ◌%◌, ◌^◌, ◌<◌, ◌≡◌, refl, ap, ◌∙◌, false, Option, none, some, List, [], ◌∷◌,
  arith, length, drop, length-drop, if◌then◌else◌, Bool-cases, inl, inr,
}
use moon_lib.Text.Split.{begins_with, one_on, is_empty, index_of}
use moon_lib.Text.Count.{count_at, count_loop, substr_count}

-- The number of the places at which a text stands in another one.
unfoldable pub places : List ℕ → List ℕ → ℕ
places p [] = 0
places p (c ∷ s) = let rest = places p s in if begins_with p (c ∷ s) then suc rest else rest

-- What the first place tells of the number of places.
abbrev Counted : List ℕ → List ℕ → Option ℕ → Type 0
Counted p s none = places p s ≡ 0
Counted p s (some i) = (places p s ≡ suc (places p (drop (i + 1) s))) × (i < length s)

Counted-cons :
    (p : List ℕ) (c : ℕ) (s : List ℕ) (o : Option ℕ)
    → begins_with p (c ∷ s) ≡ false
    → Counted p s o
    → Counted p (c ∷ s) (one_on o)
unfolding places
Counted-cons p c s none e h = rw e h
Counted-cons p c s (some i) e (h, l) =
    let n : suc i + 1 ≡ suc (i + 1) = omega arith in rw (e, n) (h, omega arith)

index_of-Counted : (p s : List ℕ) → Counted p s (index_of p s)
unfolding index_of
index_of-Counted p [] = unfold places in refl
index_of-Counted p (c ∷ s) = elim (Bool-cases (begins_with p (c ∷ s))) [
  | inl e ↦
      let here : places p (c ∷ s) ≡ suc (places p s) = unfold places in rw e refl in
      rw e (here, omega arith)
  | inr e ↦ rw e (Counted-cons p c s (index_of p s) e (index_of-Counted p s))
]

count_loop-places :
    (fuel : ℕ) (p s : List ℕ) (count : ℕ)
    → length s < fuel
    → count < 2 ^ 32
    → count_loop fuel p s count ≡ some ((count + places p s) % 2 ^ 32)
unfolding count_loop count_at
count_loop-places zero p s count h b = absurd (omega arith)
count_loop-places (suc fuel) p s count h b =
    go (index_of p s) refl (index_of-Counted p s) (count_loop-places fuel p)
  where
    go :
        (o : Option ℕ)
        → index_of p s ≡ o
        → Counted p s o
        → ((t : List ℕ) (n : ℕ)
            → length t < fuel
            → n < 2 ^ 32
            → count_loop fuel p t n ≡ some ((n + places p t) % 2 ^ 32))
        → count_loop (suc fuel) p s count ≡ some ((count + places p s) % 2 ^ 32)
    go none e k ih =
        let same : count ≡ (count + places p s) % 2 ^ 32 = omega arith in rw e (ap some same)
    go (some i) e (k, l) ih =
        let shorter : length (drop (i + 1) s) < fuel = omega (arith, length-drop (i + 1) s) in
        let same : ((count + 1) % 2 ^ 32 + places p (drop (i + 1) s)) % 2 ^ 32
            ≡ (count + places p s) % 2 ^ 32 =
          omega arith in
        rw e (ih (drop (i + 1) s) ((count + 1) % 2 ^ 32) shorter (omega arith) ∙ ap some same)

-- For a text to look for that is not empty, `SubstrCount` ends with the number of the places at which
-- it stands, those that overlap included, modulo 2 ^ 32.
pub substr_count-places :
    (str sub_str : List ℕ)
    → is_empty sub_str ≡ false
    → substr_count str sub_str ≡ some (places sub_str str % 2 ^ 32)
unfolding substr_count
substr_count-places [] sub_str e = unfold places in ground arith
substr_count-places (c ∷ s) sub_str e =
    let counted =
      count_loop-places (suc (length (c ∷ s))) sub_str (c ∷ s) 0 (omega arith) (omega arith) in
    let same : (0 + places sub_str (c ∷ s)) % 2 ^ 32 ≡ places sub_str (c ∷ s) % 2 ^ 32 =
      omega arith in
    rw e (counted ∙ ap some same)
