-- ===== src/BigNum/Quotient/Loop.antt =====
-- The loops of operator/ of src/CppBigNum.cpp keep a quotient and a remainder.
use moon_lib.Common.{
  ℕ, zero, suc, ◌+◌, ◌-◌, ◌*◌, ◌≤◌, ◌<◌, ◌≡◌, refl, ◌∙◌, true, false, some, List, [], ◌∷◌, arith,
  ltb, leb, ltb→lt, lt→ltb, if◌then◌else◌, Bool-cases, inl, inr,
}
use moon_lib.BigNum.{BigNum, less, greater, greater_equal}
use moon_lib.BigNum.Digits.{IsDigit, IsDigits, horner}
use moon_lib.BigNum.Decimal.{from_uint, from_uint-IsCanonical}
use moon_lib.BigNum.Quotient.{digit_loop, take_in, div_step, div_loop}
use moon_lib.BigNum.Quotient.Naturals.{
  Holds, add-Holds, sub-Holds, mul-Holds, less-Holds, greater-Holds, greater_equal-Holds,
}

from_uint-Holds : (n : ℕ) → Holds (from_uint n) n
from_uint-Holds n = let (c, v) = from_uint-IsCanonical n in record { canonical = c; number = v }

-- The digit `k` and the remainder `r` of a division by `b` of `n`.
pub record IsDivision (n b k r : ℕ) : Type 0 where
  pub splits : n ≡ k * b + r
  pub small : r < b

one_times : (b : ℕ) → (0 + 1) * b ≡ b
one_times b = omega arith

-- A sum of one more divisor.
one_more : (k b : ℕ) → (k + 1) * b + b ≡ (k + 1 + 1) * b
one_more k b = omega arith

-- The loop over the digits 0 to 9 ends by its test, and has found the digit.
digit_loop-IsDivision :
    (rounds k n b : ℕ) {multi right curr : BigNum}
    → Holds multi ((k + 1) * b)
    → Holds right b
    → Holds curr n
    → k * b ≤ n
    → n < (k + rounds) * b
    → (d r : ℕ) × (z : BigNum) × (digit_loop rounds k multi right curr ≡ some (d, z))
      × Holds z r
      × IsDivision n b d r
unfolding digit_loop
digit_loop-IsDivision zero k n b hm hr hc low high = absurd (omega arith)
digit_loop-IsDivision (suc rounds) k n b {multi} {right} {curr} hm hr hc low high =
    elim (Bool-cases (ltb n ((k + 1) * b))) [
      | inl found ↦
          let (taken, run, ht) = sub-Holds hm hr (omega arith) in
          let (z, run', hz) = sub-Holds hc ht (omega arith) in
          let stop : greater multi curr ≡ true = greater-Holds hm hc ∙ found in
          let up = ltb→lt n ((k + 1) * b) found in
          (
            k,
            n - ((k + 1) * b - b),
            z,
            rw stop (rw run (rw run' refl)),
            hz,
            record { splits = omega arith; small = omega (arith, up) },
          )
      | inr more ↦
          let (multi', run, h) = add-Holds hm hr in
          let go : greater multi curr ≡ false = greater-Holds hm hc ∙ more in
          let h' : Holds multi' ((k + 1 + 1) * b) = rw (← one_more k b) h in
          let up : (k + 1) * b ≤ n = ground (arith, more) in
          let (d, r, z, rest, hz, split) =
            digit_loop-IsDivision rounds (k + 1) n b h' hr hc up (omega arith) in
          (d, r, z, rw go (rw run rest), hz, split)
    ]

-- A digit is taken in.
take_in-Holds :
    (c n b : ℕ) {right curr : BigNum}
    → Holds right b
    → Holds curr n
    → n < b
    → (z : BigNum) × (take_in c right curr ≡ some z) × Holds z (n * 10 + (c - b'0'))
unfolding take_in
take_in-Holds c n b {right} {curr} hr hc h =
    let below : less curr right ≡ true = less-Holds hc hr ∙ lt→ltb n b h in
    let (shifted, run, hs) = mul-Holds hc (from_uint-Holds 10) in
    let (z, run', hz) = add-Holds hs (from_uint-Holds (c - b'0')) in (z, rw below (rw run run'), hz)

-- The digit of the quotient, which is zero where the divisor is above the dividend.
digit-IsDivision :
    (n b : ℕ) {right curr : BigNum}
    → Holds right b
    → Holds curr n
    → n < 10 * b
    → (d r : ℕ) × (z : BigNum) × ((if greater_equal curr right
          then digit_loop 10 0 right right curr
          else some (0, curr))
        ≡ some (d, z))
      × Holds z r
      × IsDivision n b d r
digit-IsDivision n b {right} {curr} hr hc h = elim (Bool-cases (leb b n)) [
  | inl big ↦
      let go : greater_equal curr right ≡ true = greater_equal-Holds hc hr ∙ big in
      let first : Holds right ((0 + 1) * b) = rw (one_times b) hr in
      let (d, r, z, run, hz, split) =
        digit_loop-IsDivision 10 0 n b first hr hc (omega arith) (omega arith) in
      (d, r, z, rw go run, hz, split)
  | inr small ↦
      let stop : greater_equal curr right ≡ false = greater_equal-Holds hc hr ∙ small in
      (0, n, curr, rw stop, hc, record { splits = omega arith; small = ground (arith, small) })
]

shift_division :
    (m b q n x d r : ℕ) → m ≡ q * b + n → n * 10 + x ≡ d * b + r → m * 10 + x ≡ (q * 10 + d) * b + r
shift_division m b q n x d r e f = omega arith

-- One round keeps the quotient and the remainder of what has been taken in.
div_step-IsDivision :
    (c m b q n : ℕ) {right curr result : BigNum}
    → IsDigit c
    → Holds right b
    → Holds curr n
    → Holds result q
    → IsDivision m b q n
    → (z w : BigNum) × (q' n' : ℕ) × (div_step c right curr result ≡ some (z, w))
      × Holds z n'
      × Holds w q'
      × IsDivision (m * 10 + (c - b'0')) b q' n'
unfolding div_step
div_step-IsDivision c m b q n {right} {curr} {result} dc hr hc hq split =
    let small : n < b = split.small in
    let high : c ≤ b'9' = dc.high in
    let (curr1, run1, h1) = take_in-Holds c n b hr hc small in
    let (d, r, curr2, run2, h2, digit) =
      digit-IsDivision (n * 10 + (c - b'0')) b hr h1 (omega arith) in
    let (shifted, run3, h3) = mul-Holds hq (from_uint-Holds 10) in
    let (result', run4, h4) = add-Holds h3 (from_uint-Holds d) in
    (
      curr2,
      result',
      q * 10 + d,
      r,
      rw run1 (rw run2 (rw run3 (rw run4 refl))),
      h2,
      h4,
      record {
        splits = shift_division m b q n (c - b'0') d r split.splits digit.splits;
        small = digit.small;
      },
    )

-- The whole loop: the quotient of the digits read before and in it.
pub div_loop-IsDivision :
    (s : List ℕ) (m b q n : ℕ) {right curr result : BigNum}
    → IsDigits s
    → Holds right b
    → Holds curr n
    → Holds result q
    → IsDivision m b q n
    → (z : BigNum) × (q' n' : ℕ) × (div_loop s right curr result ≡ some z)
      × Holds z q'
      × IsDivision (horner m s) b q' n'
unfolding div_loop horner
div_loop-IsDivision [] m b q n {right} {curr} {result} ds hr hc hq split =
    (result, q, n, refl, hq, split)
div_loop-IsDivision (c ∷ s) m b q n ds hr hc hq split =
    let (curr', result', q1, n1, run, hc', hq', split') =
      div_step-IsDivision c m b q n ds.0 hr hc hq split in
    let (z, q2, n2, rest, hz, whole) =
      div_loop-IsDivision s (m * 10 + (c - b'0')) b q1 n1 ds.1 hr hc' hq' split' in
    (z, q2, n2, rw run rest, hz, whole)
