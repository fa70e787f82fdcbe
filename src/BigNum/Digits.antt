-- ===== src/BigNum/Digits.antt =====
-- Decimal digits as characters and the numbers that they stand for, for src/CppBigNum.cpp.
use mathlib.Core.List.{reverse-cons, reverse-reverse}
use native.Mathlib.Nat.{pow-suc}
use moon_lib.Common.{
  ℕ, ◌+◌, ◌-◌, ◌*◌, ◌^◌, ◌≤◌, ◌<◌, ◌≡◌, refl, sym, ap, ◌∙◌, List, [], ◌∷◌, ◌++◌, reverse, arith,
  length,
}

pub record IsDigit (c : ℕ) : Type 0 where
  pub low : b'0' ≤ c
  pub high : c ≤ b'9'

abbrev pub IsDigits : List ℕ → Type 0
IsDigits [] = Unit
IsDigits (c ∷ cs) = IsDigit c × IsDigits cs

-- The number that digits stand for, the highest digit first, after a number `acc` before them.
unfoldable pub horner : ℕ → List ℕ → ℕ
horner acc [] = acc
horner acc (c ∷ cs) = horner (acc * 10 + (c - b'0')) cs

unfoldable pub nat_value : List ℕ → ℕ
unfolding horner
nat_value s = horner 0 s

-- The number that digits stand for, the lowest digit first.
unfoldable pub low_value : List ℕ → ℕ
low_value [] = 0
low_value (c ∷ cs) = (c - b'0') + 10 * low_value cs

pub horner-append : (acc : ℕ) (s t : List ℕ) → horner acc (s ++ t) ≡ horner (horner acc s) t
unfolding horner
horner-append acc [] t = refl
horner-append acc (c ∷ s) t = horner-append (acc * 10 + (c - b'0')) s t

pub nat_value-reverse : (s : List ℕ) → nat_value (reverse s) ≡ low_value s
unfolding nat_value low_value
nat_value-reverse [] = refl
nat_value-reverse (c ∷ s) =
    ap (horner 0) (reverse-cons c s)
    ∙ horner-append 0 (reverse s) (c ∷ [])
    ∙ omega (arith, nat_value-reverse s)

pub low_value-reverse : (s : List ℕ) → low_value (reverse s) ≡ nat_value s
low_value-reverse s = sym (nat_value-reverse (reverse s)) ∙ ap nat_value (reverse-reverse s)

pub append-IsDigits : (s t : List ℕ) → IsDigits s → IsDigits t → IsDigits (s ++ t)
append-IsDigits [] t hs ht = ht
append-IsDigits (c ∷ s) t hs ht = (hs.0, append-IsDigits s t hs.1 ht)

pub reverse-IsDigits : (s : List ℕ) → IsDigits s → IsDigits (reverse s)
reverse-IsDigits [] h = tt
reverse-IsDigits (c ∷ s) h =
    rw (reverse-cons c s) (append-IsDigits (reverse s) (c ∷ []) (reverse-IsDigits s h.1) (h.0, tt))

spread : (acc d p : ℕ) → (acc * 10 + d) * p ≡ acc * (p * 10) + d * p
spread acc d p = omega arith

-- The digits in front weigh a power of ten.
pub horner-split : (acc : ℕ) (s : List ℕ) → horner acc s ≡ acc * 10 ^ length s + horner 0 s
unfolding horner
horner-split acc [] = omega arith
horner-split acc (c ∷ s) = omega (
  arith,
  horner-split (acc * 10 + (c - b'0')) s,
  horner-split (0 * 10 + (c - b'0')) s,
  ap (λ (p : ℕ). acc * p) (pow-suc 10 (length s)),
  spread acc (c - b'0') (10 ^ length s),
  spread 0 (c - b'0') (10 ^ length s),
)

-- n digits stand for less than 10 ^ n.
pub nat_value-lt : (s : List ℕ) → IsDigits s → nat_value s < 10 ^ length s
unfolding nat_value horner
nat_value-lt [] h = omega arith
nat_value-lt (c ∷ s) h =
    grind (arith, horner-split (0 * 10 + (c - b'0')) s, nat_value-lt s h.1, pow-suc 10 (length s))
