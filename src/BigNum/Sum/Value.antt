-- ===== src/BigNum/Sum/Value.antt =====
-- Sums and differences of src/CppBigNum.cpp stand for those of the integers.
use moon_lib.Common.{
  ℕ, ◌+◌, ◌-◌, ◌≤◌, ◌≡◌, refl, ap, ◌∙◌, Bool, true, false, not, Option, some, List, [], ◌∷◌, ◌++◌,
  reverse, arith, ltb, leb, Bool-cases, ◌⊎◌, inl, inr,
}
use moon_lib.Common.Int.{ℤ, ◌+ℤ◌, ◌-ℤ◌, pos}
use moon_lib.Text.{str_eq, reverse_str}
use moon_lib.Text.Reverse.{reverse_str-reverse, str_eq_iff}
use moon_lib.BigNum.{BigNum, from_str, negative, sign_text, zero_num, num_str_less}
use moon_lib.BigNum.Digits.{
  IsDigit, IsDigits, horner, low_value, nat_value, nat_value-reverse, low_value-reverse,
  reverse-IsDigits,
}
use moon_lib.BigNum.Parse.{signed, value, IsCanonical, from_str-signed}
use moon_lib.BigNum.Order.{num_str_less-ltb}
use moon_lib.BigNum.Sum.{
  carried, add_loop, sub_digit, sub_loop, finish, add_same, add_different, add, sub,
}

-- The loop of equal signs adds.
add_loop-value :
    (c : Bool) (xs ys : List ℕ)
    → IsDigits xs
    → IsDigits ys
    → IsDigits (add_loop c xs ys)
      × (low_value (add_loop c xs ys) ≡ carried c + low_value xs + low_value ys)
unfolding add_loop low_value
add_loop-value c [] [] dx dy = ground arith
add_loop-value c (x ∷ xs) [] dx dy =
    ground (arith, add_loop-value (leb 10 (carried c + (x - b'0'))) xs [] dx.1 dy)
add_loop-value c [] (y ∷ ys) dx dy =
    ground (arith, add_loop-value (leb 10 (carried c + (y - b'0'))) [] ys dx dy.1)
add_loop-value c (x ∷ xs) (y ∷ ys) dx dy =
    ground (arith, add_loop-value (leb 10 (carried c + (x - b'0') + (y - b'0'))) xs ys dx.1 dy.1)

digit_lem : (m s : ℕ) → m ≤ 9 → s ≤ 10 → IsDigit (sub_digit m s)
digit_lem m s h k = ground arith

-- The loop of different signs ends and subtracts, where the first number is the larger one.
sub_loop-value :
    (c : Bool) (xs ys : List ℕ)
    → IsDigits xs
    → IsDigits ys
    → carried c + low_value ys ≤ low_value xs
    → (r : List ℕ) × (sub_loop c xs ys ≡ some r)
      × IsDigits r
      × (low_value r + carried c + low_value ys ≡ low_value xs)
unfolding sub_loop low_value
sub_loop-value true [] [] dx dy h = absurd (omega arith)
sub_loop-value false [] [] dx dy h = ([], refl, tt, omega arith)
sub_loop-value c (x ∷ xs) [] dx dy h =
    let m = x - b'0' in
    let s = carried c in
    let (r, run, digits, v) = sub_loop-value (ltb m s) xs [] dx.1 dy (ground arith) in
    (sub_digit m s ∷ r, rw run, (digit_lem m s (omega arith) (ground arith), digits), ground arith)
sub_loop-value c [] (y ∷ ys) dx dy h =
    let s = carried c + (y - b'0') in
    let (r, run, digits, v) = sub_loop-value (ltb 0 s) [] ys dx dy.1 (ground arith) in
    (sub_digit 0 s ∷ r, rw run, (digit_lem 0 s (omega arith) (ground arith), digits), ground arith)
sub_loop-value c (x ∷ xs) (y ∷ ys) dx dy h =
    let m = x - b'0' in
    let s = carried c + (y - b'0') in
    let (r, run, digits, v) = sub_loop-value (ltb m s) xs ys dx.1 dy.1 (ground arith) in
    (sub_digit m s ∷ r, rw run, (digit_lem m s (omega arith) (ground arith), digits), ground arith)

-- The operation ends in a canonical object of the integer `v`.
abbrev pub Gives : Option BigNum → ℤ → Type 0
Gives m v = (z : BigNum) × (m ≡ some z) × IsCanonical z × (value z ≡ v)

finish-Gives :
    (flag : Bool) (r : List ℕ)
    → IsDigits r
    → Gives (finish flag (some r)) (signed flag (low_value r))
unfolding finish
finish-Gives flag r d =
    let s = reverse_str r in
    let digits : IsDigits s = rw (reverse_str-reverse r) (reverse-IsDigits r d) in
    let (canonical, v) = from_str-signed flag s digits in
    (
      from_str (sign_text flag ++ s),
      refl,
      canonical,
      v ∙ ap (signed flag) (ap nat_value (reverse_str-reverse r) ∙ nat_value-reverse r),
    )

-- Two canonical texts of one sign.
same_sign-Gives :
    (flag : Bool) (s t : List ℕ)
    → IsDigits s
    → IsDigits t
    → Gives
        (finish flag (some (add_loop false (reverse s) (reverse t))))
        (signed flag (nat_value s + nat_value t))
same_sign-Gives flag s t ds dt =
    let (digits, v) =
      add_loop-value false (reverse s) (reverse t) (reverse-IsDigits s ds)
        (reverse-IsDigits t dt) in
    let (z, run, canonical, w) =
      finish-Gives flag (add_loop false (reverse s) (reverse t)) digits in
    (
      z,
      run,
      canonical,
      w ∙ ap (signed flag) (v ∙ omega (arith, low_value-reverse s, low_value-reverse t)),
    )

-- Two canonical texts of different signs, the larger one first.
other_sign-Gives :
    (flag : Bool) (s t : List ℕ)
    → IsDigits s
    → IsDigits t
    → nat_value t ≤ nat_value s
    → Gives
        (finish flag (sub_loop false (reverse s) (reverse t)))
        (signed flag (nat_value s - nat_value t))
other_sign-Gives flag s t ds dt h =
    let (r, run, digits, v) =
      sub_loop-value false (reverse s) (reverse t) (reverse-IsDigits s ds) (reverse-IsDigits t dt)
        (omega (arith, low_value-reverse s, low_value-reverse t)) in
    rw run (
      let (z, ends, canonical, w) = finish-Gives flag r digits in
      (
        z,
        ends,
        canonical,
        w ∙ ap (signed flag) (omega (arith, v, low_value-reverse s, low_value-reverse t)),
      ))

-- The integer may be written another way.
pub Gives-eq : {m : Option BigNum} {a b : ℤ} → Gives m a → a ≡ b → Gives m b
Gives-eq (z, run, canonical, v) e = (z, run, canonical, v ∙ e)

pub zero-IsCanonical : IsCanonical zero_num
zero-IsCanonical = record {
  digits = (record { low = omega arith; high = omega arith }, tt);
  shape = inl refl;
}

pub value-zero : value zero_num ≡ pos 0
unfolding value nat_value horner
value-zero = refl

add_same-Gives :
    (x y : BigNum)
    → IsCanonical x
    → IsCanonical y
    → x.flag ≡ y.flag
    → Gives (add_same x y) (value x +ℤ value y)
unfolding add_same value ◌+ℤ◌
add_same-Gives x y cx cy e =
    Gives-eq (same_sign-Gives x.flag x.num_str y.num_str cx.digits cy.digits) (ground arith)

add_different-Gives :
    (x y : BigNum)
    → IsCanonical x
    → IsCanonical y
    → y.flag ≡ not x.flag
    → Gives (add_different x y) (value x +ℤ value y)
unfolding add_different value ◌+ℤ◌
add_different-Gives x y cx cy e = elim (Bool-cases (num_str_less x.num_str y.num_str)) [
  | inl less ↦ rw less (
      Gives-eq
        (other_sign-Gives y.flag y.num_str x.num_str cy.digits cx.digits (ground (arith, order)))
        (ground (arith, order)))
  | inr more ↦ elim (Bool-cases (str_eq x.num_str y.num_str)) [
    | inl same ↦
        let e' = ap nat_value ((str_eq_iff x.num_str y.num_str).0 same) in
        rw (more, same) (zero_num, refl, zero-IsCanonical, value-zero ∙ ground (arith, e'))
    | inr other ↦
        rw (more, other)
          (Gives-eq
            (other_sign-Gives x.flag x.num_str y.num_str cx.digits cy.digits
              (ground (arith, order)))
            (ground (arith, order)))
  ]
]
  where
    order : num_str_less x.num_str y.num_str ≡ ltb (nat_value x.num_str) (nat_value y.num_str)
    order = num_str_less-ltb x y cx cy

add-same : (x y : BigNum) → x.flag ≡ y.flag → add x y ≡ add_same x y
unfolding add
add-same x y e = ground arith

add-different : (x y : BigNum) → y.flag ≡ not x.flag → add x y ≡ add_different x y
unfolding add
add-different x y e = ground arith

flag_cases : (a b : Bool) → (a ≡ b) ⊎ (b ≡ not a)
flag_cases true true = inl refl
flag_cases true false = inr refl
flag_cases false true = inr refl
flag_cases false false = inl refl

-- operator+ ends on canonical numbers, in the canonical object of the sum of the integers.
pub add-Gives :
    (x y : BigNum) → IsCanonical x → IsCanonical y → Gives (add x y) (value x +ℤ value y)
add-Gives x y cx cy = elim (flag_cases x.flag y.flag) [
  | inl e ↦ rw (add-same x y e) (add_same-Gives x y cx cy e)
  | inr e ↦ rw (add-different x y e) (add_different-Gives x y cx cy e)
]

signed-not : (flag : Bool) (n : ℕ) → signed (not flag) n ≡ pos 0 -ℤ signed flag n
unfolding ◌-ℤ◌
signed-not flag n = ground arith

-- Negative turns a canonical number into the canonical one of the opposite integer.
pub negative-value :
    (x : BigNum)
    → IsCanonical x
    → IsCanonical (negative x) × (value (negative x) ≡ pos 0 -ℤ value x)
negative-value x c =
    let (canonical, v) = from_str-signed (not x.flag) x.num_str c.digits in
    let opened : negative x ≡ from_str (sign_text (not x.flag) ++ x.num_str) =
      unfold negative in refl in
    rw opened (canonical, v ∙ signed-not x.flag (nat_value x.num_str) ∙ unfold value in refl)

-- operator- ends on canonical numbers, in the canonical object of the difference.
pub sub-Gives :
    (x y : BigNum) → IsCanonical x → IsCanonical y → Gives (sub x y) (value x -ℤ value y)
unfolding sub
sub-Gives x y cx cy =
    let (canonical, v) = negative-value y cy in
    Gives-eq (add-Gives x (negative y) cx canonical)
      (ap (◌+ℤ◌ (value x)) v ∙ unfold ◌+ℤ◌ ◌-ℤ◌ in ground arith)
