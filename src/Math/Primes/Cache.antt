-- ===== src/Math/Primes/Cache.antt =====
-- The answers of CppMathPrimeWithCache of src/CppMath.cpp beside those of CppMath.
use native.Mathlib.Nat.{mod-eq_of_lt}
use moon_lib.Common.{
  ℕ, ◌%◌, ◌^◌, ◌<◌, ◌≡◌, ◌≢◌, ◌⊎◌, refl, sym, ap, subst, ◌∙◌, Bool, true, false, some, List, [],
  ◌∷◌, arith, ltb, ◌==◌, inl, inr, Bool-cases,
}
use moon_lib.Math.Primes.{is_prime, in_set, divided, remember, is_prime_cached}
use moon_lib.Math.Primes.Trial.{IsPrime, IsRoot, is_prime-IsPrime}

abbrev pub AllPrime : List ℕ → Type 0
AllPrime [] = Unit
AllPrime (p ∷ set) = IsPrime p × AllPrime set

in_set-IsPrime : (n : ℕ) (set : List ℕ) → AllPrime set → in_set n set ≡ true → IsPrime n
unfolding in_set
in_set-IsPrime n [] a h = absurd (cc)
in_set-IsPrime n (p ∷ set) (a, rest) h = elim (Bool-cases (p == n)) [
  | inl e ↦ let same : p ≡ n = ground arith in subst IsPrime same a
  | inr e ↦ in_set-IsPrime n set rest (rw e at h)
]

-- A number that has a divisor in the set, and is not in the set, is not prime.
divided-composite :
    (n : ℕ) (set : List ℕ)
    → AllPrime set
    → 1 < n
    → in_set n set ≡ false
    → divided n set ≡ true
    → IsPrime n
    → ⊥
unfolding in_set divided
divided-composite n [] a h s d (l, p) = cc
divided-composite n (q ∷ set) ((m, a), rest) h s d (l, p) = elim (Bool-cases (q == n)) [
  | inl e ↦ absurd_true (rw e at s)
  | inr e ↦
      let other : q ≢ n = ground arith in
      elim (Bool-cases (n % q == 0)) [
        | inl f ↦
            let whole : n % q ≡ 0 = ground arith in
            elim (order q n) [
              | inl less ↦ p q m less whole
              | inr (inl same) ↦ other same
              | inr (inr more) ↦ let self : n % q ≡ n = mod-eq_of_lt more in omega arith
            ]
        | inr f ↦ elim (Bool-cases (ltb n q)) [
          | inl g ↦ absurd_true (sym (rw (f, g) at d))
          | inr g ↦ divided-composite n set rest h (rw e at s) (rw (f, g) at d) (l, p)
        ]
      ]
]
  where
    absurd_true : true ≡ false → ⊥
    absurd_true x = cc

    order : (q n : ℕ) → (q < n) ⊎ ((q ≡ n) ⊎ (n < q))
    order q n = ground arith

-- What the cached form answers, and the set that it leaves.
abbrev pub Agrees : (ℕ → ℕ) → List ℕ → ℕ → Type 0
Agrees root set n =
    (b : Bool) × (after : List ℕ) × (is_prime_cached root set n ≡ some (b, after))
    × (is_prime root n ≡ some b)
    × AllPrime after

-- Where the set holds primes only, `IsPrime` of CppMathPrimeWithCache ends with the answer of `IsPrime`
-- of CppMath for every uint32_t, and leaves a set of primes.
pub is_prime_cached-Agrees :
    (root : ℕ → ℕ) (set : List ℕ) (n : ℕ)
    → IsRoot root
    → n < 2 ^ 32
    → AllPrime set
    → Agrees root set n
unfolding is_prime_cached
is_prime_cached-Agrees root set n s b a =
    let (c, run, iff) = is_prime-IsPrime root n s b in
    elim (Bool-cases (ltb n 2)) [
      | inl e ↦ rw e (false, set, refl, small e, a)
      | inr e ↦ elim (Bool-cases (n == 2)) [
        | inl f ↦ rw (e, f) (true, set, refl, two e f, a)
        | inr f ↦ elim (Bool-cases (n % 2 == 0)) [
          | inl g ↦ rw (e, f, g) (false, set, refl, even e f g, a)
          | inr g ↦
              let more : 1 < n = ground arith in
              elim (Bool-cases (in_set n set)) [
                | inl h ↦
                    let yes_ : c ≡ true = iff.1 (in_set-IsPrime n set a h) in
                    rw (e, f, g, h) (true, set, refl, run ∙ ap some yes_, a)
                | inr h ↦ elim (Bool-cases (divided n set)) [
                  | inl k ↦
                      rw (e, f, g, h, k)
                        (
                          false,
                          set,
                          refl,
                          run ∙ ap some (not_prime c iff.0 (divided-composite n set a more h k)),
                          a,
                        )
                  | inr k ↦ rw (e, f, g, h, k, run) (kept c iff.0)
                ]
              ]
        ]
      ]
    ]
  where
    small : ltb n 2 ≡ true → is_prime root n ≡ some false
    small e = unfold is_prime in rw e refl

    two : ltb n 2 ≡ false → (n == 2) ≡ true → is_prime root n ≡ some true
    two e f = unfold is_prime in rw (e, f) refl

    even : ltb n 2 ≡ false → (n == 2) ≡ false → (n % 2 == 0) ≡ true → is_prime root n ≡ some false
    even e f g = unfold is_prime in rw (e, f, g) refl

    not_prime : (c : Bool) → (c ≡ true → IsPrime n) → (IsPrime n → ⊥) → c ≡ false
    not_prime true h k = absurd (k (h refl))
    not_prime false h k = refl

    kept :
        (c : Bool)
        → (c ≡ true → IsPrime n)
        → (b' : Bool) × (after : List ℕ) × (remember n set (some c) ≡ some (b', after))
          × (some c ≡ some b')
          × AllPrime after
    kept true h = (true, n ∷ set, refl, refl, (h refl, a))
    kept false h = (false, set, refl, refl, a)
