-- ===== src/BigNum/Text.antt =====
-- Texts into and out of CppBigNum: `Value`, `GetNumFromStr` on what `Value` prints, and on texts that
-- are no numbers.
use moon_lib.Common.{
  ℕ, ◌+◌, ◌≡◌, refl, ap, ◌∙◌, Bool, true, false, not, ◌||◌, none, List, [], ◌∷◌, ◌++◌, arith, ◌==◌,
  if◌then◌else◌,
}
use moon_lib.Text.{reverse_str}
use moon_lib.Text.Reverse.{reverse_str-reverse}
use moon_lib.BigNum.{
  BigNum, scan, take_digits, get_num_from_str, from_str, value_text, sign_text, is_digit, zero_num,
  reverse_num,
}
use moon_lib.BigNum.Digits.{nat_value, low_value, nat_value-reverse, reverse-IsDigits}
use moon_lib.BigNum.Parse.{signed, value, IsCanonical, from_str-signed}
use moon_lib.BigNum.Order.{IsCanonical-unique}

-- The constructor reads back what `Value` prints of a canonical number.
pub from_str-value_text : (x : BigNum) → IsCanonical x → from_str (value_text x) ≡ x
unfolding value_text
from_str-value_text x c =
    let (canonical, v) = from_str-signed x.flag x.num_str c.digits in
    IsCanonical-unique (from_str (sign_text x.flag ++ x.num_str)) x canonical c
      (v ∙ unfold value in refl)

scan_bad :
    (s t : List ℕ) (c i start : ℕ) (flag : Bool)
    → is_digit c ≡ false
    → (c == b'+' || c == b'-') ≡ false
    → scan (s ++ c ∷ t) i start flag ≡ none
unfolding scan
scan_bad [] t c i start flag h k = ground arith
scan_bad (d ∷ s) t c i start flag h k = ground (
  arith,
  scan_bad s t c (i + 1) (start + 1) (if d == b'-' then not flag else flag) h k,
  scan_bad s t c (i + 1) start flag h k,
)

-- A text with a character that is neither a digit nor a sign stands for zero, wherever it is.
pub from_str_bad :
    (s t : List ℕ) (c : ℕ)
    → is_digit c ≡ false
    → (c == b'+' || c == b'-') ≡ false
    → from_str (s ++ c ∷ t) ≡ zero_num
unfolding from_str get_num_from_str take_digits
from_str_bad s t c h k = rw (scan_bad s t c 0 0 true h k)

-- `Reverse` keeps the sign and reads the digits from the other end, so zeros at the end are lost.
pub reverse_num-value :
    (x : BigNum)
    → IsCanonical x
    → IsCanonical (reverse_num x) × (value (reverse_num x) ≡ signed x.flag (low_value x.num_str))
unfolding reverse_num
reverse_num-value x c =
    let back = reverse_str-reverse x.num_str in
    let (canonical, v) =
      from_str-signed x.flag (reverse_str x.num_str)
        (rw back (reverse-IsDigits x.num_str c.digits)) in
    (canonical, v ∙ ap (signed x.flag) (ap nat_value back ∙ nat_value-reverse x.num_str))
