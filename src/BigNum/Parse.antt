-- ===== src/BigNum/Parse.antt =====
-- What src/CppBigNum.cpp makes of a text: `GetNumFromStr` on a sign and digits.
use moon_lib.Common.{
  ℕ, zero, suc, ◌+◌, ◌-◌, ◌*◌, ◌<◌, ◌≡◌, ◌⊎◌, inl, inr, refl, sym, ap, ◌∙◌, Bool, true, false, some,
  List, [], ◌∷◌, ◌++◌, arith, ◌==◌, length, drop, if◌then◌else◌, Bool-cases,
}
use moon_lib.Common.Int.{ℤ, pos}
pub use moon_lib.Common.Int.{signed}
use moon_lib.Text.{str_eq}
use moon_lib.BigNum.{BigNum, scan, take_digits, from_str, get_num_from_str, sign_text, zero_num}
use moon_lib.BigNum.Digits.{IsDigits, horner, nat_value}

-- The integer that an object stands for.
unfoldable pub value : BigNum → ℤ
unfolding nat_value
value x = signed x.flag (nat_value x.num_str)

-- The first digit is not zero.
abbrev pub Leads : List ℕ → Type 0
Leads [] = ⊥
Leads (c ∷ cs) = b'0' < c

-- What every constructor leaves: digits, with no zero in front of another digit, and no negative
-- zero.
pub record IsCanonical (x : BigNum) : Type 0 where
  pub digits : IsDigits x.num_str
  pub shape : (x ≡ zero_num) ⊎ Leads x.num_str

-- The zeros in front of a number, and what follows them.
zeros : List ℕ → ℕ
zeros [] = 0
zeros (c ∷ cs) = if c == b'0' then suc (zeros cs) else 0

-- Past the zeros the loop only checks the digits.
scan_digits :
    (s : List ℕ) (i start : ℕ) (flag : Bool)
    → IsDigits s
    → start < i
    → scan s i start flag ≡ some (start, flag)
unfolding scan
scan_digits [] i start flag d h = refl
scan_digits (c ∷ s) i start flag d h = ground (arith, scan_digits s (i + 1) start flag d.1)

scan-zeros :
    (s : List ℕ) (i : ℕ) (flag : Bool) → IsDigits s → scan s i i flag ≡ some (i + zeros s, flag)
unfolding scan zeros
scan-zeros [] i flag d = ground arith
scan-zeros (c ∷ s) i flag d =
    ground (arith, scan-zeros s (i + 1) flag d.1, scan_digits s (i + 1) i flag d.1)

nat_value-zero : (c : ℕ) (s : List ℕ) → (c == b'0') ≡ true → nat_value (c ∷ s) ≡ nat_value s
unfolding nat_value horner
nat_value-zero c s h = let e : 0 * 10 + (c - b'0') ≡ 0 = ground arith in rw e

-- What is left of digits without their zeros: nothing, or a number with a digit in front.
record IsStripped (s rest : List ℕ) : Type 0 where
  same : nat_value rest ≡ nat_value s
  left : IsDigits rest
  kind : ((zeros s ≡ length s) × (nat_value s ≡ 0)) ⊎ ((zeros s < length s) × Leads rest)

zeros-zero : (c : ℕ) (s : List ℕ) → (c == b'0') ≡ true → zeros (c ∷ s) ≡ suc (zeros s)
unfolding zeros
zeros-zero c s h = rw h

zeros-lead : (c : ℕ) (s : List ℕ) → (c == b'0') ≡ false → zeros (c ∷ s) ≡ 0
unfolding zeros
zeros-lead c s h = rw h

drop-zeros : (s : List ℕ) → IsDigits s → IsStripped s (drop (zeros s) s)
unfolding zeros
drop-zeros [] d = record {
  same = refl;
  left = tt;
  kind = inl (refl, unfold nat_value horner in refl);
}
drop-zeros (c ∷ s) d = elim (Bool-cases (c == b'0')) [
  | inl z ↦
      let r = drop-zeros s d.1 in
      let v = nat_value-zero c s z in
      let e = zeros-zero c s z in
      rw e (record {
        same = r.same ∙ sym v;
        left = r.left;
        kind = elim r.kind [
          | inl (all, nothing) ↦ inl (e ∙ ap suc all, v ∙ nothing)
          | inr (fewer, leads) ↦ inr (omega (arith, e), leads)
        ];
      })
  | inr n ↦
      let e = zeros-lead c s n in
      let low = d.0.low in
      rw e (record { same = refl; left = d; kind = inr (omega (arith, e), ground arith) })
]

drop-pick :
    (start : ℕ) (num : List ℕ) → (if start == 0 then num else drop start num) ≡ drop start num
drop-pick zero num = refl
drop-pick (suc n) num = ground arith

pub Leads-not_zero : (s : List ℕ) → Leads s → str_eq s (b'0' ∷ []) ≡ false
unfolding str_eq
Leads-not_zero [] h = absurd h
Leads-not_zero (c ∷ s) h = ground arith

pub signed-true : (n : ℕ) → signed true n ≡ pos n
signed-true n = ground arith

pub signed-zero : (flag : Bool) → signed flag 0 ≡ pos 0
signed-zero true = refl
signed-zero false = refl

value-zero_num : value zero_num ≡ pos 0
unfolding value horner
value-zero_num = refl

-- What follows the loop, at digits behind which `start` stands as far as behind those of `s`.
take_digits_lem :
    (num s : List ℕ) (start : ℕ) (flag : Bool)
    → IsDigits s
    → length num + zeros s ≡ length s + start
    → drop start num ≡ drop (zeros s) s
    → IsCanonical (take_digits num (some (start, flag)))
      × (value (take_digits num (some (start, flag))) ≡ signed flag (nat_value s))
unfolding take_digits
take_digits_lem num s start flag d len same = go (drop-zeros s d)
  where
    go :
        IsStripped s (drop (zeros s) s)
        → IsCanonical (take_digits num (some (start, flag)))
          × (value (take_digits num (some (start, flag))) ≡ signed flag (nat_value s))
    go r = elim r.kind [
      | inl (all, nothing) ↦
          let e : (start == length num) ≡ true = ground arith in
          rw (e, nothing)
            (
              record {
                digits = (record { low = omega arith; high = omega arith }, tt);
                shape = inl refl;
              },
              value-zero_num ∙ sym (signed-zero flag),
            )
      | inr (some_left, leads) ↦
          let e : (start == length num) ≡ false = ground arith in
          rw (e, drop-pick start num, same, Leads-not_zero (drop (zeros s) s) leads)
            (
              record { digits = r.left; shape = inr leads },
              (unfold value in ap (signed flag) r.same),
            )
    ]

-- The constructor at digits: the canonical object of their number.
pub from_str_digits :
    (s : List ℕ)
    → IsDigits s
    → IsCanonical (from_str s) × (value (from_str s) ≡ signed true (nat_value s))
unfolding from_str get_num_from_str
from_str_digits s d =
    rw (scan-zeros s 0 true d)
      (take_digits_lem s s (0 + zeros s) true d (omega arith) (ap (λ n. drop n s) zero_left))
  where
    zero_left : 0 + zeros s ≡ zeros s
    zero_left = omega arith

scan_minus : (s : List ℕ) → IsDigits s → scan (b'-' ∷ s) 0 0 true ≡ some (1 + zeros s, false)
unfolding scan
scan_minus s d = scan-zeros s 1 false d

-- The constructor at a sign and digits: the canonical object of that integer.
pub from_str-signed :
    (flag : Bool) (s : List ℕ)
    → IsDigits s
    → IsCanonical (from_str (sign_text flag ++ s))
      × (value (from_str (sign_text flag ++ s)) ≡ signed flag (nat_value s))
unfolding from_str get_num_from_str
from_str-signed true s d = from_str_digits s d
from_str-signed false s d = rw (scan_minus s d) (
    take_digits_lem (b'-' ∷ s) s (1 + zeros s) false d (omega arith)
      (ap (λ n. drop n (b'-' ∷ s)) one_more))
  where
    one_more : 1 + zeros s ≡ suc (zeros s)
    one_more = omega arith
