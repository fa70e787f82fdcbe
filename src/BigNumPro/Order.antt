-- ===== src/BigNumPro/Order.antt =====
-- The comparisons of CppBigNumPro of src/CppBigNum.cpp decide the order of the integers.
use native.Mathlib.Nat.{pow-suc, one-le-pow, pow-le-pow_right}
use mathlib.Core.List.{reverse-cons}
use moon_lib.Common.{
  ℕ, ◌+◌, ◌*◌, ◌^◌, ◌≤◌, ◌<◌, ◌≡◌, refl, sym, ap, ◌∙◌, true, false, List, [], ◌∷◌, ◌++◌, reverse,
  arith, ltb, length, length-append,
}
use moon_lib.Common.Int.{ltb_ℤ}
use moon_lib.BigNumPro.{BigNumPro, base, is_empty, high_less, num_vec_less, less}
use moon_lib.BigNumPro.Limbs.{IsLimbs, limb_value, IsTrimmed, value, IsCanonical}

-- The number of digits, the highest first, after a number `acc` before them.
horner : ℕ → List ℕ → ℕ
horner acc [] = acc
horner acc (x ∷ xs) = horner (acc * base + x) xs

horner-append : (acc : ℕ) (xs ys : List ℕ) → horner acc (xs ++ ys) ≡ horner (horner acc xs) ys
unfolding horner
horner-append acc [] ys = refl
horner-append acc (x ∷ xs) ys = horner-append (acc * base + x) xs ys

horner-reverse : (xs : List ℕ) → horner 0 (reverse xs) ≡ limb_value xs
unfolding horner limb_value
horner-reverse [] = refl
horner-reverse (x ∷ xs) =
    ap (horner 0) (reverse-cons x xs)
    ∙ horner-append 0 (reverse xs) (x ∷ [])
    ∙ omega (arith, horner-reverse xs)

length-reverse : (xs : List ℕ) → length (reverse xs) ≡ length xs
length-reverse [] = refl
length-reverse (x ∷ xs) =
    ap length (reverse-cons x xs)
    ∙ omega (arith, length-append (reverse xs) (x ∷ []), length-reverse xs)

append-IsLimbs : (xs ys : List ℕ) → IsLimbs xs → IsLimbs ys → IsLimbs (xs ++ ys)
append-IsLimbs [] ys hx hy = hy
append-IsLimbs (x ∷ xs) ys hx hy = (hx.0, append-IsLimbs xs ys hx.1 hy)

reverse-IsLimbs : (xs : List ℕ) → IsLimbs xs → IsLimbs (reverse xs)
reverse-IsLimbs [] h = tt
reverse-IsLimbs (x ∷ xs) h =
    rw (reverse-cons x xs) (append-IsLimbs (reverse xs) (x ∷ []) (reverse-IsLimbs xs h.1) (h.0, tt))

-- A start below another one by at least one stays below it, whatever digits follow.
horner_mono :
    (xs ys : List ℕ) (a b : ℕ)
    → IsLimbs xs
    → length xs ≡ length ys
    → a < b
    → horner a xs < horner b ys
unfolding horner
horner_mono [] [] a b h e lt = lt
horner_mono [] (y ∷ ys) a b h e lt = absurd (omega arith)
horner_mono (x ∷ xs) [] a b h e lt = absurd (omega arith)
horner_mono (x ∷ xs) (y ∷ ys) a b h e lt =
    horner_mono xs ys (a * base + x) (b * base + y) h.1 (omega arith) (omega (arith, h.0))

-- Digits of one length are ordered as their numbers.
high_less-ltb :
    (xs ys : List ℕ) (a : ℕ)
    → IsLimbs xs
    → IsLimbs ys
    → length xs ≡ length ys
    → high_less xs ys ≡ ltb (horner a xs) (horner a ys)
unfolding high_less horner
high_less-ltb [] [] a hx hy e = ground arith
high_less-ltb [] (y ∷ ys) a hx hy e = absurd (omega arith)
high_less-ltb (x ∷ xs) [] a hx hy e = absurd (omega arith)
high_less-ltb (x ∷ xs) (y ∷ ys) a hx hy e =
    let n : length xs ≡ length ys = omega arith in
    ground (
      arith,
      high_less-ltb xs ys (a * base + x) hx.1 hy.1 n,
      horner_mono xs ys (a * base + x) (a * base + y) hx.1 n,
      horner_mono ys xs (a * base + y) (a * base + x) hy.1 (sym n),
    )

limb_value-lt : (xs : List ℕ) → IsLimbs xs → limb_value xs < base ^ length xs
unfolding limb_value
limb_value-lt [] h = omega arith
limb_value-lt (x ∷ xs) h = omega (arith, limb_value-lt xs h.1, h.0, pow-suc base (length xs))

-- A trimmed number reaches the place of its highest digit.
pub limb_value-ge :
    (x : ℕ) (xs : List ℕ) → IsTrimmed (x ∷ xs) → base ^ length xs ≤ limb_value (x ∷ xs)
unfolding limb_value
limb_value-ge x [] h = omega arith
limb_value-ge x (y ∷ ys) h = omega (arith, limb_value-ge y ys h, pow-suc base (length ys))

length-lt-value :
    (xs ys : List ℕ)
    → IsLimbs xs
    → IsTrimmed ys
    → length xs < length ys
    → limb_value xs < limb_value ys
length-lt-value xs [] hx ht h = absurd (omega arith)
length-lt-value xs (y ∷ ys) hx ht h =
    let m : length xs ≤ length ys = omega arith in
    omega (
      arith,
      limb_value-lt xs hx,
      limb_value-ge y ys ht,
      pow-le-pow_right {n = base} (omega arith) m,
    )

-- `numVecLess` on trimmed digits is the order of the numbers.
pub num_vec_less-ltb :
    (xs ys : List ℕ)
    → IsLimbs xs
    → IsLimbs ys
    → IsTrimmed xs
    → IsTrimmed ys
    → num_vec_less xs ys ≡ ltb (limb_value xs) (limb_value ys)
unfolding num_vec_less
num_vec_less-ltb xs ys hx hy tx ty = ground (
  arith,
  length-lt-value xs ys hx ty,
  length-lt-value ys xs hy tx,
  length-reverse xs,
  length-reverse ys,
  high_less-ltb (reverse xs) (reverse ys) 0 (reverse-IsLimbs xs hx) (reverse-IsLimbs ys hy),
  horner-reverse xs,
  horner-reverse ys,
)

-- A canonical negative number is not zero.
pub negative_pos : (x : BigNumPro) → IsCanonical x → x.flag ≡ false → 0 < limb_value x.num_vec
negative_pos x c f = go x.num_vec c.trimmed c.zero_flag
  where
    go : (xs : List ℕ) → IsTrimmed xs → (is_empty xs ≡ true → x.flag ≡ true) → 0 < limb_value xs
    go [] t z = cc (z refl, f)
    go (y ∷ ys) t z = omega (arith, limb_value-ge y ys t, one-le-pow (length ys) base (omega arith))

-- operator< decides the order of the integers.
pub less-value :
    (x y : BigNumPro) → IsCanonical x → IsCanonical y → less x y ≡ ltb_ℤ (value x) (value y)
unfolding less value
less-value x y cx cy = ground (
  arith,
  num_vec_less-ltb x.num_vec y.num_vec cx.limbs cy.limbs cx.trimmed cy.trimmed,
  num_vec_less-ltb y.num_vec x.num_vec cy.limbs cx.limbs cy.trimmed cx.trimmed,
  negative_pos x cx,
  negative_pos y cy,
)
