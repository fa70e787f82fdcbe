-- ===== src/Math/Primes/Trial.antt =====
-- `IsPrime` of src/CppMath.cpp and the primes.
use native.Mathlib.Nat.{
  div-add-mod, mul_assoc, mul_comm, mul-le-mul, mul-le-mul_right, dvd-mul_right, mod-eq-zero_of_dvd,
  mul-zero, mul-one,
}
use moon_lib.Common.{
  ℕ, zero, suc, ◌+◌, ◌*◌, ◌/◌, ◌%◌, ◌^◌, ◌≤◌, ◌<◌, ◌≡◌, ◌≢◌, ◌↔◌, ◌⊎◌, refl, ap, subst, ◌∙◌, Bool,
  true, false, some, arith, leb, ltb, ◌==◌, inl, inr, Bool-cases,
}
use moon_lib.Math.Primes.{prime_loop, is_prime}

-- No number from 2 on and below i divides n.
abbrev pub NoDivisor : ℕ → ℕ → Type 0
NoDivisor n i = (k : ℕ) → 1 < k → k < i → n % k ≢ 0

abbrev pub IsPrime : ℕ → Type 0
IsPrime n = (1 < n) × NoDivisor n n

-- What the C library's square root of a uint32_t gives, as an integer.
abbrev pub IsRoot : (ℕ → ℕ) → Type 0
IsRoot root = (n : ℕ) → n < 2 ^ 32 → (root n * root n ≤ n) × (n < (root n + 1) * (root n + 1))

pub divided_exactly : (n k : ℕ) → n % k ≡ 0 → n ≡ k * (n / k)
divided_exactly n k h = omega (arith, div-add-mod n k)

pub divides_product : (k m : ℕ) → (k * m) % k ≡ 0
divides_product k m = mod-eq-zero_of_dvd k (dvd-mul_right k m)

big_product : (r k m : ℕ) → r + 1 ≤ k → r + 1 ≤ m → (r + 1) * (r + 1) ≤ k * m
big_product r k m p q = mul-le-mul p q

-- The other factor of a number.
cofactor :
    (n r k m : ℕ)
    → n ≡ k * m
    → k < n
    → 1 < n
    → r + 1 ≤ k
    → n < (r + 1) * (r + 1)
    → (1 < m) × (m < r + 1) × (n % m ≡ 0)
cofactor n r k zero e l h p s = absurd (omega (arith, mul-zero k))
cofactor n r k (suc zero) e l h p s = absurd (omega (arith, mul-one k))
cofactor n r k (suc (suc j)) e l h p s =
    let m = suc (suc j) in
    let small : m < r + 1 = elim (order (suc (suc j)) r) [
      | inl b ↦ b
      | inr b ↦ absurd (omega (arith, big_product r k m p b))
    ] in
    (omega arith, small, ap (λ x. x % m) (e ∙ mul_comm k m) ∙ divides_product m k)
  where
    order : (x r : ℕ) → (x < r + 1) ⊎ (r + 1 ≤ x)
    order x r = ground arith

-- A number without divisors up to its root is prime.
pub NoDivisor-IsPrime : (n r : ℕ) → 1 < n → n < (r + 1) * (r + 1) → NoDivisor n (r + 1) → IsPrime n
NoDivisor-IsPrime n r h s d = (
  h,
  λ k l b e. elim (order k) [
    | inl small ↦ d k l small e
    | inr large ↦
        let (more, less, divides) = cofactor n r k (n / k) (divided_exactly n k e) b h large s in
        d (n / k) more less divides
  ],
)
  where
    order : (k : ℕ) → (k < r + 1) ⊎ (r + 1 ≤ k)
    order k = ground arith

-- An even number does not divide an odd one.
even_not : (n j : ℕ) → n % 2 ≡ 1 → n % (2 * j) ≢ 0
even_not n j h e =
    let whole : n ≡ 2 * j * (n / (2 * j)) = divided_exactly n (2 * j) e in
    omega (arith, mul_assoc 2 j (n / (2 * j)))

-- The next odd number to try.
pub NoDivisor-next :
    (n i : ℕ) → n % 2 ≡ 1 → i % 2 ≡ 1 → n % i ≢ 0 → NoDivisor n i → NoDivisor n (i + 2)
NoDivisor-next n i o q e d k l b h = elim (order k) [
  | inl less ↦ d k l less h
  | inr (inl same) ↦ e (subst (λ x. n % x ≡ 0) same h)
  | inr (inr next) ↦
      let half : k ≡ 2 * (k / 2) = omega arith in
      even_not n (k / 2) o (subst (λ x. n % x ≡ 0) half h)
]
  where
    order : (k : ℕ) → (k < i) ⊎ ((k ≡ i) ⊎ (i + 1 ≤ k))
    order k = ground arith

-- What the loop finds.
abbrev Found : ℕ → ℕ → Bool → Type 0
Found n r true = NoDivisor n (r + 1)
Found n r false = (k : ℕ) × (1 < k) × (k ≤ r) × (n % k ≡ 0)

prime_loop-Found :
    (fuel n i r : ℕ)
    → n % 2 ≡ 1
    → i % 2 ≡ 1
    → 1 < i
    → r + 4 < 2 ^ 32
    → r + 1 < i + fuel
    → 0 < fuel
    → NoDivisor n i
    → (b : Bool) × (prime_loop fuel n i r ≡ some b) × Found n r b
unfolding prime_loop
prime_loop-Found zero n i r o q l m f z d = absurd (omega arith)
prime_loop-Found (suc fuel) n i r o q l m f z d = elim (Bool-cases (leb i r)) [
  | inl more ↦
      let low : i ≤ r = ground arith in
      let next : (i + 2) % 2 ^ 32 ≡ i + 2 = omega arith in
      elim (Bool-cases (n % i == 0)) [
        | inl e ↦ rw (more, e) (false, refl, (i, l, low, ground arith))
        | inr e ↦
            let not_it : n % i ≢ 0 = ground arith in
            rw (more, e, next)
              (prime_loop-Found fuel n (i + 2) r o (omega arith) (omega arith) m (omega arith)
                (omega arith) (NoDivisor-next n i o q not_it d))
      ]
  | inr done ↦ let high : r < i = ground arith in rw done (true, refl, λ k a b. d k a (omega arith))
]

-- The roots of the numbers that uint32_t has.
pub root_small : (r n : ℕ) → r * r ≤ n → n < 2 ^ 32 → r < 2 ^ 16
root_small r n h b = elim (order r) [
  | inl small ↦ small
  | inr large ↦ absurd (omega (arith, mul-le-mul large large))
]
  where
    order : (r : ℕ) → (r < 2 ^ 16) ⊎ (2 ^ 16 ≤ r)
    order r = ground arith

root_less : (r n : ℕ) → r * r ≤ n → 1 < r → r < n
root_less r n h l = let twice : 2 * r ≤ r * r = mul-le-mul_right r l in omega arith

Found-IsPrime :
    (n r : ℕ) (b : Bool)
    → 1 < n
    → r * r ≤ n
    → n < (r + 1) * (r + 1)
    → Found n r b
    → (b ≡ true) ↔ IsPrime n
Found-IsPrime n r true h p q d = (λ e. NoDivisor-IsPrime n r h q d, λ e. refl)
Found-IsPrime n r false h p q (k, l, b, e) = (
  λ x. absurd (cc),
  λ (_, none_). absurd (none_ k l (omega (arith, root_less r n p (omega arith))) e),
)

pub NoDivisor-three : (n : ℕ) → n % 2 ≡ 1 → NoDivisor n 3
NoDivisor-three n o k l h e =
    let two : k ≡ 2 = omega arith in omega (arith, subst (λ x. n % x ≡ 0) two e)

-- `IsPrime` of a uint32_t ends, and answers whether the number is prime, where the square root of the C
-- library gives the integer part of the root.
pub is_prime-IsPrime :
    (root : ℕ → ℕ) (n : ℕ)
    → IsRoot root
    → n < 2 ^ 32
    → (b : Bool) × (is_prime root n ≡ some b) × ((b ≡ true) ↔ IsPrime n)
unfolding is_prime
is_prime-IsPrime root n s b = elim (Bool-cases (ltb n 2)) [
  | inl e ↦
      let low : n < 2 = ground arith in
      rw e (false, refl, ((λ x. absurd (cc)), λ (h, _). absurd (omega arith)))
  | inr e ↦ elim (Bool-cases (n == 2)) [
    | inl f ↦
        let two : n ≡ 2 = ground arith in
        rw (e, f) (true, refl, ((λ x. (omega arith, λ k l h. absurd (omega arith))), λ x. refl))
    | inr f ↦
        let more : 2 < n = ground arith in
        elim (Bool-cases (n % 2 == 0)) [
          | inl g ↦
              let even : n % 2 ≡ 0 = ground arith in
              rw (e, f, g)
                (
                  false,
                  refl,
                  ((λ x. absurd (cc)), λ (_, none_). absurd (none_ 2 (omega arith) more even)),
                )
          | inr g ↦
              let odd : n % 2 ≡ 1 = ground arith in
              let (low, high) = s n b in
              let small : root n < 2 ^ 16 = root_small (root n) n low b in
              let (c, run, found) =
                prime_loop-Found (suc (root n)) n 3 (root n) odd refl (omega arith) (omega arith)
                  (omega arith) (omega arith) (NoDivisor-three n odd) in
              rw (e, f, g) (c, run, Found-IsPrime n (root n) c (omega arith) low high found)
        ]
  ]
]
