-- ===== src/Math/Factors/Product.antt =====
-- `GetPrimerFactorNum` of src/CppMath.cpp and the product of its factors.
use native.Mathlib.Nat.{
  mul_assoc, mul_comm, mul_left_comm, pow-succ', pow-zero, mul-one, mul-zero, div-lt_self,
  mul-le-mul,
}
use moon_lib.Common.{
  ℕ, zero, suc, ◌+◌, ◌*◌, ◌/◌, ◌%◌, ◌^◌, ◌≤◌, ◌<◌, ◌≡◌, ◌≢◌, refl, sym, ap, ◌∙◌, some, List, [],
  ◌∷◌, arith, leb, ltb, ◌==◌, inl, inr, Bool-cases,
}
use moon_lib.Math.Factors.{bump, divide_out, factor_loop, put_last, get_primer_factor_num}
use moon_lib.Math.Primes.Trial.{
  NoDivisor, IsPrime, IsRoot, divided_exactly, divides_product, NoDivisor-IsPrime, NoDivisor-next,
  root_small, NoDivisor-three,
}

-- The product of the factors, each as often as it is counted.
unfoldable pub product : List (ℕ × ℕ) → ℕ
product [] = 1
product ((k, e) ∷ m) = k ^ e * product m

-- Every factor is a prime, and is counted.
abbrev pub AllPrimeKeys : List (ℕ × ℕ) → Type 0
AllPrimeKeys [] = Unit
AllPrimeKeys ((k, e) ∷ m) = IsPrime k × (0 < e) × AllPrimeKeys m

pow_one : (k : ℕ) → k ^ 1 ≡ k
pow_one k = pow-succ' k 0 ∙ ap (λ x. k * x) (pow-zero k) ∙ mul-one k

product-bump : (k : ℕ) (m : List (ℕ × ℕ)) → product (bump k m) ≡ k * product m
unfolding bump product
product-bump k [] = ap (λ x. x * 1) (pow_one k)
product-bump k ((j, e) ∷ m) = elim (Bool-cases (j == k)) [
  | inl h ↦
      let same : j ≡ k = ground arith in
      rw h (
        ap (λ x. x * product m) (pow-succ' j e)
        ∙ mul_assoc j (j ^ e) (product m)
        ∙ ap (λ x. x * (j ^ e * product m)) same)
  | inr h ↦ elim (Bool-cases (ltb k j)) [
    | inl l ↦ rw (h, l) (ap (λ x. x * (j ^ e * product m)) (pow_one k))
    | inr l ↦
        rw (h, l) (ap (λ x. j ^ e * x) (product-bump k m) ∙ mul_left_comm (j ^ e) k (product m))
  ]
]

bump-AllPrimeKeys :
    (k : ℕ) (m : List (ℕ × ℕ)) → IsPrime k → AllPrimeKeys m → AllPrimeKeys (bump k m)
unfolding bump
bump-AllPrimeKeys k [] p a = (p, omega arith, tt)
bump-AllPrimeKeys k ((j, e) ∷ m) p (q, l, a) = elim (Bool-cases (j == k)) [
  | inl h ↦ rw h (q, omega arith, a)
  | inr h ↦ elim (Bool-cases (ltb k j)) [
    | inl b ↦ rw (h, b) (p, omega arith, (q, l, a))
    | inr b ↦ rw (h, b) (q, l, bump-AllPrimeKeys k m p a)
  ]
]

multiple_divides : (k a b : ℕ) → a % k ≡ 0 → (b * a) % k ≡ 0
multiple_divides k a b h =
    ap (λ x. x % k) (ap (λ x. b * x) (divided_exactly a k h) ∙ mul_left_comm b k (a / k))
    ∙ divides_product k (b * (a / k))

-- The smallest divisor of a number is a prime.
least_IsPrime : (n i : ℕ) → 1 < i → n % i ≡ 0 → NoDivisor n i → IsPrime i
least_IsPrime n i l e d = (
  l,
  λ k a b h. d k a b (
      ap (λ x. x % k) (divided_exactly n i e ∙ mul_comm i (n / i))
      ∙ multiple_divides k i (n / i) h),
)

NoDivisor-quotient : (n i j : ℕ) → n % i ≡ 0 → NoDivisor n j → NoDivisor (n / i) j
NoDivisor-quotient n i j e d k a b h =
    d k a b (ap (λ x. x % k) (divided_exactly n i e) ∙ multiple_divides k (n / i) i h)

-- What a loop leaves of a number and its factors.
pub record Left (num : ℕ) (factors : List (ℕ × ℕ)) (after : ℕ) (found : List (ℕ × ℕ)) : Type 0 where
  pub whole : after * product found ≡ num * product factors
  pub positive : 0 < after
  pub smaller : after ≤ num
  pub primes : AllPrimeKeys found
  pub undivided : (j : ℕ) → NoDivisor num j → NoDivisor after j

quotient_less : (n i : ℕ) → 1 < i → 0 < n → n % i ≡ 0 → (0 < n / i) × (n / i < n)
quotient_less n i l p e = (positive (n / i) (divided_exactly n i e), div-lt_self p l)
  where
    positive : (q : ℕ) → n ≡ i * q → 0 < q
    positive zero h = absurd (omega (arith, mul-zero i))
    positive (suc q) h = omega arith

Left-same : (num : ℕ) (f : List (ℕ × ℕ)) → 0 < num → AllPrimeKeys f → Left num f num f
Left-same num f p a = record {
  whole = refl;
  positive = p;
  smaller = omega arith;
  primes = a;
  undivided = λ j d. d;
}

divide_out-Left :
    (fuel i num : ℕ) (f : List (ℕ × ℕ))
    → 1 < i
    → 0 < num
    → num < fuel
    → NoDivisor num i
    → AllPrimeKeys f
    → (after : ℕ) × (found : List (ℕ × ℕ)) × (divide_out fuel i num f ≡ some (after, found))
      × Left num f after found
      × (after % i ≢ 0)
unfolding divide_out
divide_out-Left zero i num f l p h d a = absurd (omega arith)
divide_out-Left (suc fuel) i num f l p h d a = elim (Bool-cases (num % i == 0)) [
  | inl e ↦
      let zero_ : num % i ≡ 0 = ground arith in
      let (more, less) = quotient_less num i l p zero_ in
      let (after, found, run, left, done) =
        divide_out-Left fuel i (num / i) (bump i f) l more (omega arith)
          (NoDivisor-quotient num i i zero_ d)
          (bump-AllPrimeKeys i f (least_IsPrime num i l zero_ d) a) in
      let moved : num / i * product (bump i f) ≡ num * product f =
        ap (λ x. num / i * x) (product-bump i f)
        ∙ sym (mul_assoc (num / i) i (product f))
        ∙ ap (λ x. x * product f) (mul_comm (num / i) i ∙ sym (divided_exactly num i zero_)) in
      rw e (
        after,
        found,
        run,
        record {
          whole = left.whole ∙ moved;
          positive = left.positive;
          smaller = omega (arith, left.smaller);
          primes = left.primes;
          undivided = λ j n. left.undivided j (NoDivisor-quotient num i j zero_ n);
        },
        done,
      )
  | inr e ↦ rw e (num, f, refl, Left-same num f p a, ground arith)
]

Left-trans :
    (n : ℕ) (f : List (ℕ × ℕ)) (m : ℕ) (g : List (ℕ × ℕ)) (k : ℕ) (h : List (ℕ × ℕ))
    → Left n f m g
    → Left m g k h
    → Left n f k h
Left-trans n f m g k h l r = record {
  whole = r.whole ∙ l.whole;
  positive = r.positive;
  smaller = omega (arith, l.smaller, r.smaller);
  primes = r.primes;
  undivided = λ j d. r.undivided j (l.undivided j d);
}

odd_of : (n i : ℕ) → 2 < i → NoDivisor n i → n % 2 ≡ 1
odd_of n i l d = let two : n % 2 ≢ 0 = d 2 (omega arith) l in omega arith

factor_loop-Left :
    (fuel i limit num : ℕ) (f : List (ℕ × ℕ))
    → 2 < i
    → i % 2 ≡ 1
    → limit + 4 < 2 ^ 32
    → limit + 1 < i + fuel
    → 0 < fuel
    → 0 < num
    → NoDivisor num i
    → AllPrimeKeys f
    → (after : ℕ) × (found : List (ℕ × ℕ)) × (factor_loop fuel i limit num f ≡ some (after, found))
      × Left num f after found
      × NoDivisor after (limit + 1)
unfolding factor_loop
factor_loop-Left zero i limit num f l o s h z p d a = absurd (omega arith)
factor_loop-Left (suc fuel) i limit num f l o s h z p d a = elim (Bool-cases (leb i limit)) [
  | inl e ↦
      let low : i ≤ limit = ground arith in
      let next : (i + 2) % 2 ^ 32 ≡ i + 2 = omega arith in
      let (mid, g, run, left, done) =
        divide_out-Left (suc num) i num f (omega arith) p (omega arith) d a in
      let fewer = left.undivided i d in
      let (after, found, run_rest, right, undivided) =
        factor_loop-Left fuel (i + 2) limit mid g (omega arith) (omega arith) s (omega arith)
          (omega arith) left.positive (NoDivisor-next mid i (odd_of mid i l fewer) o done fewer)
          left.primes in
      rw (e, next, run)
        (after, found, run_rest, Left-trans num f mid g after found left right, undivided)
  | inr e ↦
      let high : limit < i = ground arith in
      rw e (num, f, refl, Left-same num f p a, λ k b c. d k b (omega arith))
]

last_factor :
    (num r : ℕ) (f : List (ℕ × ℕ))
    → 0 < num
    → num < (r + 1) * (r + 1)
    → NoDivisor num (r + 1)
    → AllPrimeKeys f
    → (m : List (ℕ × ℕ)) × (put_last (some (num, f)) ≡ some m)
      × (product m ≡ num * product f)
      × AllPrimeKeys m
last_factor num r f p h d a = elim (Bool-cases (num == 1)) [
  | inl e ↦
      let one_ : num ≡ 1 = ground arith in
      rw e (f, refl, sym (ap (λ x. x * product f) one_ ∙ omega arith), a)
  | inr e ↦
      let prime = NoDivisor-IsPrime num r (ground arith) h d in
      rw e (bump num f, refl, product-bump num f, bump-AllPrimeKeys num f prime a)
]

-- `GetPrimerFactorNum` of a positive uint32_t ends with primes only, each counted, whose product is the
-- number, where the square root of the C library gives the integer part of the root.
pub get_primer_factor_num-product :
    (root : ℕ → ℕ) (n : ℕ)
    → IsRoot root
    → 0 < n
    → n < 2 ^ 32
    → (m : List (ℕ × ℕ)) × (get_primer_factor_num root n ≡ some m)
      × (product m ≡ n)
      × AllPrimeKeys m
unfolding get_primer_factor_num
get_primer_factor_num-product root n s p b =
    let (mid, g, run, left, done) =
      divide_out-Left (suc n) 2 n [] (omega arith) p (omega arith) (λ k l h. absurd (omega arith))
        tt in
    let mid_small : mid < 2 ^ 32 = omega (arith, left.smaller) in
    let (low, high) = s mid mid_small in
    let small : root mid < 2 ^ 16 = root_small (root mid) mid low mid_small in
    let limit : (root mid + 1) % 2 ^ 32 ≡ root mid + 1 = omega arith in
    let (after, found, run_rest, right, undivided) =
      factor_loop-Left (suc (root mid + 1)) 3 (root mid + 1) mid g (omega arith) refl (omega arith)
        (omega arith) (omega arith) left.positive (NoDivisor-three mid (odd_of_not mid done))
        left.primes in
    let bigger : (root mid + 1) * (root mid + 1) ≤ (root mid + 1 + 1) * (root mid + 1 + 1) =
      mul-le-mul (omega arith) (omega arith) in
    let (m, last, whole, primes) =
      last_factor after (root mid + 1) found right.positive (omega (arith, right.smaller)) undivided
        right.primes in
    rw (run, limit, run_rest) (m, last, whole ∙ right.whole ∙ left.whole ∙ start n, primes)
  where
    odd_of_not : (k : ℕ) → k % 2 ≢ 0 → k % 2 ≡ 1
    odd_of_not k h = omega arith

    start : (n : ℕ) → n * product [] ≡ n
    start n = unfold product in mul-one n
