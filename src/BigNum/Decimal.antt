-- ===== src/BigNum/Decimal.antt =====
-- CppString::ToString and CppString::FromString of src/CppString.h at unsigned integers, as
-- src/CppBigNum.cpp uses them: a stream prints decimal digits and reads them.
use moon_lib.Common.{
  ℕ, zero, suc, ◌+◌, ◌-◌, ◌*◌, ◌/◌, ◌%◌, ◌^◌, ◌<◌, ◌≡◌, ap, ◌∙◌, true, List, [], ◌∷◌, ◌++◌, arith,
  ltb, if◌then◌else◌, ◌⊎◌, inl, inr, Bool-cases, sym, length, length-append,
}
use moon_lib.Common.Int.{pos}
use moon_lib.BigNum.{BigNum}
use moon_lib.BigNum.Digits.{IsDigits, horner, nat_value, horner-append, append-IsDigits}
use moon_lib.BigNum.Parse.{signed, signed-true, value, IsCanonical, Leads}

-- The digits of a number, with more fuel than the number has digits.
unfoldable pub digits_of : ℕ → ℕ → List ℕ
digits_of zero n = []
digits_of (suc fuel) n =
    let front = digits_of fuel (n / 10) in
    if ltb n 10 then (n + b'0') ∷ [] else front ++ (n % 10 + b'0') ∷ []

-- `ToString` of an unsigned integer.
unfoldable pub to_string : ℕ → List ℕ
unfolding digits_of
to_string n = digits_of (suc n) n

-- `FromString` of digits as an unsigned integer of 64 bits: a stream that meets a larger number
-- stores the largest one.
unfoldable pub from_string : List ℕ → ℕ
from_string s = let n = nat_value s in if ltb n (2 ^ 64) then n else 2 ^ 64 - 1

-- The constructors from an unsigned integer.
unfoldable pub from_uint : ℕ → BigNum
from_uint n = record { flag = true; num_str = to_string n }

-- A number of digits, in the shape that a canonical object has.
record IsNumber (n : ℕ) (s : List ℕ) : Type 0 where
  digits : IsDigits s
  same : nat_value s ≡ n
  shape : ((n ≡ 0) × (s ≡ b'0' ∷ [])) ⊎ ((0 < n) × Leads s)

append-Leads : (s t : List ℕ) → Leads s → Leads (s ++ t)
append-Leads [] t h = absurd h
append-Leads (c ∷ s) t h = h

nat_value-append_digit :
    (s : List ℕ) (d : ℕ) → nat_value (s ++ (d + b'0') ∷ []) ≡ nat_value s * 10 + d
unfolding nat_value horner
nat_value-append_digit s d = horner-append 0 s ((d + b'0') ∷ []) ∙ omega arith

nat_value-digit : (d : ℕ) → nat_value ((d + b'0') ∷ []) ≡ d
unfolding nat_value horner
nat_value-digit d = omega arith

one_digit : (n : ℕ) → n < 10 → IsNumber n ((n + b'0') ∷ [])
one_digit n h = record {
  digits = (record { low = omega arith; high = omega arith }, tt);
  same = nat_value-digit n;
  shape = elim (Bool-cases (ltb 0 n)) [
    | inl p ↦ let q : 0 < n = ground arith in inr (q, omega arith)
    | inr z ↦ let e : n ≡ 0 = ground arith in inl (e, ap (λ (k : ℕ). (k + b'0') ∷ []) e)
  ];
}

-- The fuel of `to_string` is enough, and it prints the number.
digits_of-IsNumber : (fuel n : ℕ) → n < fuel → IsNumber n (digits_of fuel n)
unfolding digits_of
digits_of-IsNumber zero n h = absurd (omega arith)
digits_of-IsNumber (suc fuel) n h = elim (Bool-cases (ltb n 10)) [
  | inl small ↦ rw small (one_digit n (ground arith))
  | inr large ↦
      let r = digits_of-IsNumber fuel (n / 10) (ground arith) in
      rw large (record {
        digits =
            append-IsDigits (digits_of fuel (n / 10)) ((n % 10 + b'0') ∷ []) r.digits
              (record { low = omega arith; high = omega arith }, tt);
        same = nat_value-append_digit (digits_of fuel (n / 10)) (n % 10) ∙ omega (arith, r.same);
        shape = inr (
          ground arith,
          elim r.shape [
            | inl (none_left, _) ↦ absurd (ground arith)
            | inr (_, leads) ↦ append-Leads (digits_of fuel (n / 10)) ((n % 10 + b'0') ∷ []) leads
          ],
        );
      })
]

to_string-IsNumber : (n : ℕ) → IsNumber n (to_string n)
unfolding to_string
to_string-IsNumber n = digits_of-IsNumber (suc n) n (omega arith)

-- The constructors from an unsigned integer give the canonical object of that number.
pub from_uint-IsCanonical : (n : ℕ) → IsCanonical (from_uint n) × (value (from_uint n) ≡ pos n)
unfolding from_uint value
from_uint-IsCanonical n =
    let r = to_string-IsNumber n in
    (
      record {
        digits = r.digits;
        shape = elim r.shape [
          | inl (_, e) ↦ inl (ap (λ s. record { flag = true; num_str = s }) e)
          | inr (_, leads) ↦ inr leads
        ];
      },
      ap (signed true) r.same ∙ signed-true n,
    )

-- A number of 64 bits is read as it stands.
pub from_string-lt : (s : List ℕ) → nat_value s < 2 ^ 64 → from_string s ≡ nat_value s
unfolding from_string
from_string-lt s h = ground arith

-- Numbers that print alike are equal, and every number prints something.
pub to_string_injective : (m n : ℕ) → to_string m ≡ to_string n → m ≡ n
to_string_injective m n h =
    sym (to_string-IsNumber m).same ∙ ap nat_value h ∙ (to_string-IsNumber n).same

digits_of_some : (fuel n : ℕ) → n < fuel → 0 < length (digits_of fuel n)
unfolding digits_of
digits_of_some zero n h = absurd (omega arith)
digits_of_some (suc fuel) n h = elim (Bool-cases (ltb n 10)) [
  | inl small ↦ rw small (omega arith)
  | inr large ↦
      rw large (omega (arith, length-append (digits_of fuel (n / 10)) ((n % 10 + b'0') ∷ [])))
]

pub to_string_some : (n : ℕ) → 0 < length (to_string n)
unfolding to_string
to_string_some n = digits_of_some (suc n) n (omega arith)
