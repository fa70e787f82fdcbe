-- ===== src/BigNum/Order.antt =====
-- The comparisons of src/CppBigNum.cpp decide the order of the integers.
use native.Mathlib.Nat.{one-le-pow, pow-le-pow_right}
use moon_lib.Common.{
  ℕ, ◌+◌, ◌-◌, ◌*◌, ◌^◌, ◌≤◌, ◌<◌, ◌≡◌, ◌↔◌, inl, inr, refl, sym, ap, ap₂, ◌∙◌, true, false, List,
  [], ◌∷◌, arith, ltb, length,
}
use moon_lib.Common.Int.{ℤ, pos, ltb_ℤ}
use moon_lib.Text.{str_eq, str_less}
use moon_lib.BigNum.{BigNum, num_str_less, less, equal}
use moon_lib.BigNum.Digits.{IsDigits, horner, nat_value, nat_value-lt, horner-split}
use moon_lib.BigNum.Parse.{value, Leads, Leads-not_zero, IsCanonical}

nat_value-cons : (c : ℕ) (s : List ℕ) → nat_value (c ∷ s) ≡ (c - b'0') * 10 ^ length s + nat_value s
unfolding nat_value horner
nat_value-cons c s = horner-split (0 * 10 + (c - b'0')) s ∙ omega arith

below_step : (a b p m n : ℕ) → a < b → m < p → a * p + m < b * p + n
below_step a b p m n h k = grind arith

-- Texts of one length are ordered as their numbers.
str_less-ltb :
    (s t : List ℕ)
    → IsDigits s
    → IsDigits t
    → length s ≡ length t
    → str_less s t ≡ ltb (nat_value s) (nat_value t)
unfolding str_less
str_less-ltb [] [] ds dt e = ground arith
str_less-ltb [] (d ∷ t) ds dt e = absurd (omega arith)
str_less-ltb (c ∷ s) [] ds dt e = absurd (omega arith)
str_less-ltb (c ∷ s) (d ∷ t) ds dt e =
    let n : length s ≡ length t = omega arith in
    ground (
      arith,
      str_less-ltb s t ds.1 dt.1 n,
      nat_value-cons c s,
      nat_value-cons d t,
      ap (λ k. 10 ^ k) n,
      nat_value-lt s ds.1,
      nat_value-lt t dt.1,
      below_step (c - b'0') (d - b'0') (10 ^ length t) (nat_value s) (nat_value t),
      below_step (d - b'0') (c - b'0') (10 ^ length t) (nat_value t) (nat_value s),
    )

nat_value-ge : (c : ℕ) (s : List ℕ) → b'0' < c → 10 ^ length s ≤ nat_value (c ∷ s)
nat_value-ge c s h = let k : 1 ≤ c - b'0' = omega arith in grind (arith, nat_value-cons c s)

-- A longer number is the larger one.
length-lt-value :
    (s t : List ℕ) → IsDigits s → Leads t → length s < length t → nat_value s < nat_value t
length-lt-value s [] d h l = absurd h
length-lt-value s (c ∷ t) d h l =
    let m : length s ≤ length t = omega arith in
    omega (arith, nat_value-ge c t h, nat_value-lt s d, pow-le-pow_right {n = 10} (omega arith) m)

-- One digit or more.
length-pos : (x : BigNum) → IsCanonical x → 0 < length x.num_str
length-pos x c = elim c.shape [ inl e ↦ rw e (omega arith) | inr l ↦ leads_pos x.num_str l ]
  where
    leads_pos : (s : List ℕ) → Leads s → 0 < length s
    leads_pos [] h = absurd h
    leads_pos (c ∷ s) h = omega arith

longer :
    (x y : BigNum)
    → IsCanonical x
    → IsCanonical y
    → length x.num_str < length y.num_str
    → nat_value x.num_str < nat_value y.num_str
longer x y cx cy h = elim cy.shape [
  | inl e ↦ absurd (
      let one : length y.num_str ≡ 1 = ap (λ z. length z.num_str) e in
      omega (arith, one, length-pos x cx))
  | inr l ↦ length-lt-value x.num_str y.num_str cx.digits l h
]

-- `numStrLess` on canonical numbers is the order of their magnitudes.
pub num_str_less-ltb :
    (x y : BigNum)
    → IsCanonical x
    → IsCanonical y
    → num_str_less x.num_str y.num_str ≡ ltb (nat_value x.num_str) (nat_value y.num_str)
unfolding num_str_less
num_str_less-ltb x y cx cy = ground (
  arith,
  longer x y cx cy,
  longer y x cy cx,
  str_less-ltb x.num_str y.num_str cx.digits cy.digits,
)

-- A canonical negative number is not zero.
pub negative_pos : (x : BigNum) → IsCanonical x → x.flag ≡ false → 0 < nat_value x.num_str
negative_pos x c f = elim c.shape [
  | inl e ↦ cc (ap (λ z. z.flag) e)
  | inr l ↦ leads_pos x.num_str l
]
  where
    leads_pos : (s : List ℕ) → Leads s → 0 < nat_value s
    leads_pos [] h = absurd h
    leads_pos (d ∷ s) h = omega (arith, nat_value-ge d s h, one-le-pow (length s) 10 (omega arith))

-- operator< decides the order of the integers.
pub less-ltb_ℤ :
    (x y : BigNum) → IsCanonical x → IsCanonical y → less x y ≡ ltb_ℤ (value x) (value y)
unfolding less value
less-ltb_ℤ x y cx cy = ground (
  arith,
  num_str_less-ltb x y cx cy,
  num_str_less-ltb y x cy cx,
  negative_pos x cx,
  negative_pos y cy,
)

zero-value : (x : BigNum) → IsCanonical x → str_eq x.num_str (b'0' ∷ []) ≡ true → value x ≡ pos 0
unfolding value nat_value horner
zero-value x c h = elim c.shape [ inl e ↦ rw e | inr l ↦ cc (h, Leads-not_zero x.num_str l) ]

antisymm_ℤ : (a b : ℤ) → ltb_ℤ a b ≡ false → ltb_ℤ b a ≡ false → a ≡ b
antisymm_ℤ a b h k = ground arith

irrefl_ℤ : (a b : ℤ) → a ≡ b → ltb_ℤ a b ≡ false
irrefl_ℤ a b e = rw e (ground arith)

-- operator== decides the equality of the integers.
pub equal_iff :
    (x y : BigNum) → IsCanonical x → IsCanonical y → (equal x y ≡ true) ↔ (value x ≡ value y)
unfolding equal
equal_iff x y cx cy = (
  ground (
    arith,
    zero-value x cx,
    zero-value y cy,
    less-ltb_ℤ x y cx cy,
    less-ltb_ℤ y x cy cx,
    antisymm_ℤ (value x) (value y),
  ),
  λ e. ground (
    arith,
    less-ltb_ℤ x y cx cy,
    less-ltb_ℤ y x cy cx,
    irrefl_ℤ (value x) (value y) e,
    irrefl_ℤ (value y) (value x) (sym e),
  ),
)

split_digit : (a b p m n : ℕ) → m < p → n < p → a * p + m ≡ b * p + n → (a ≡ b) × (m ≡ n)
split_digit a b p m n h k e =
    let same : a ≡ b = ground (arith, below_step a b p m n, below_step b a p n m) in
    (same, omega (arith, ap (λ (z : ℕ). z * p) same))

digits_injective :
    (s t : List ℕ)
    → IsDigits s
    → IsDigits t
    → length s ≡ length t
    → nat_value s ≡ nat_value t
    → s ≡ t
digits_injective [] [] ds dt n e = refl
digits_injective [] (d ∷ t) ds dt n e = absurd (omega arith)
digits_injective (c ∷ s) [] ds dt n e = absurd (omega arith)
digits_injective (c ∷ s) (d ∷ t) ds dt n e =
    let m : length s ≡ length t = omega arith in
    let parts =
      split_digit (c - b'0') (d - b'0') (10 ^ length t) (nat_value s) (nat_value t)
        (rw m at (nat_value-lt s ds.1)) (nat_value-lt t dt.1)
        (rw (← m) (sym (nat_value-cons c s) ∙ e) ∙ nat_value-cons d t) in
    let same : c ≡ d = omega (arith, ds.0.low, dt.0.low, parts.0) in
    ap₂ ◌∷◌ same (digits_injective s t ds.1 dt.1 m parts.1)

same_parts :
    (x y : BigNum)
    → IsCanonical x
    → IsCanonical y
    → value x ≡ value y
    → (x.flag ≡ y.flag) × (nat_value x.num_str ≡ nat_value y.num_str)
unfolding value
same_parts x y cx cy e = (
  ground (arith, negative_pos x cx, negative_pos y cy),
  ground (arith, negative_pos x cx, negative_pos y cy),
)

-- An integer has one canonical object.
pub IsCanonical-unique : (x y : BigNum) → IsCanonical x → IsCanonical y → value x ≡ value y → x ≡ y
IsCanonical-unique x y cx cy e =
    let parts = same_parts x y cx cy e in
    let lengths : length x.num_str ≡ length y.num_str =
      ground (arith, longer x y cx cy, longer y x cy cx, parts.1) in
    let text = digits_injective x.num_str y.num_str cx.digits cy.digits lengths parts.1 in
    λ i. record { flag = parts.0 i; num_str = text i }
