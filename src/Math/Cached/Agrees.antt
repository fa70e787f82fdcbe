-- ===== src/Math/Cached/Agrees.antt =====
-- `FactorialWithCache` of src/CppMath.cpp beside `Factorial`.
use moon_lib.Common.{
  ℕ, zero, suc, ◌+◌, ◌-◌, ◌*◌, ◌%◌, ◌^◌, ◌≤◌, ◌<◌, ◌≡◌, ◌⊎◌, refl, sym, ap, ◌∙◌, Bool, true, false,
  Option, none, some, [], ◌∷◌, arith, leb, ltb, ◌==◌, length, if◌then◌else◌, inl, inr, Bool-cases,
  Option-cases,
}
use moon_lib.Math.{factorial}
use moon_lib.Math.Counting.{product_to, low_mul, factorial-product_to}
use moon_lib.Math.Cached.{
  Cache, lookup, before_bound, store, cache_loop, drop_last, shrink, from_entry,
  factorial_with_cache,
}

-- Every entry is the factorial of its key, as uint32_t has it.
abbrev pub IsValid : Cache → Type 0
IsValid [] = Unit
IsValid ((k, v) ∷ m) = (v ≡ product_to k % 2 ^ 32) × IsValid m

lookup-IsValid : (n v : ℕ) (m : Cache) → IsValid m → lookup n m ≡ some v → v ≡ product_to n % 2 ^ 32
unfolding lookup
lookup-IsValid n v [] a h = absurd (none_some h)
  where
    none_some : ◌≡◌ {A = Option ℕ} none (some v) → ⊥
    none_some q = cc
lookup-IsValid n v ((k, w) ∷ m) (e, a) h = elim (Bool-cases (k == n)) [
  | inl same ↦
      let k_n : k ≡ n = ground arith in
      let w_v : w ≡ v = some_same (rw same at h) in
      sym w_v ∙ e ∙ ap (λ x. product_to x % 2 ^ 32) k_n
  | inr other ↦ lookup-IsValid n v m a (rw other at h)
]
  where
    some_same : ◌≡◌ {A = Option ℕ} (some w) (some v) → w ≡ v
    some_same q = cc

-- An entry that the loop can go on from.
abbrev Before : ℕ → Option (ℕ × ℕ) → Type 0
Before n none = Unit
Before n (some (k, v)) = (k < n) × (v ≡ product_to k % 2 ^ 32)

before_bound-Before :
    (n : ℕ) (prev : Option (ℕ × ℕ)) (m : Cache)
    → Before n prev
    → IsValid m
    → Before n (before_bound n prev m)
unfolding before_bound
before_bound-Before n prev [] b a = tt
before_bound-Before n prev ((k, v) ∷ m) b (e, a) = elim (Bool-cases (ltb k n)) [
  | inl l ↦
      let less : k < n = ground arith in rw l (before_bound-Before n (some (k, v)) m (less, e) a)
  | inr l ↦ rw l b
]

store-IsValid :
    (k v : ℕ) (m : Cache) → v ≡ product_to k % 2 ^ 32 → IsValid m → IsValid (store k v m)
unfolding store
store-IsValid k v [] e a = (e, tt)
store-IsValid k v ((j, w) ∷ m) e (f, a) = elim (Bool-cases (j == k)) [
  | inl h ↦ rw h (e, a)
  | inr h ↦ elim (Bool-cases (ltb k j)) [
    | inl l ↦ rw (h, l) (e, (f, a))
    | inr l ↦ rw (h, l) (f, store-IsValid k v m e a)
  ]
]

maybe_store-IsValid :
    (b : Bool) (k v : ℕ) (m : Cache)
    → v ≡ product_to k % 2 ^ 32
    → IsValid m
    → IsValid (if b then store k v m else m)
maybe_store-IsValid true k v m e a = store-IsValid k v m e a
maybe_store-IsValid false k v m e a = a

drop_last-IsValid : (m : Cache) → IsValid m → IsValid (drop_last m)
drop_last-IsValid [] a = tt
drop_last-IsValid (e ∷ []) a = tt
drop_last-IsValid ((k, v) ∷ (j, w) ∷ m) (e, a) = (e, drop_last-IsValid ((j, w) ∷ m) a)

length-drop_last : (m : Cache) → length (drop_last m) ≡ length m - 1
length-drop_last [] = refl
length-drop_last (e ∷ []) = refl
length-drop_last (e ∷ f ∷ m) = omega (arith, length-drop_last (f ∷ m))

shrink-IsValid : (rounds size : ℕ) (m : Cache) → IsValid m → IsValid (shrink rounds size m)
unfolding shrink
shrink-IsValid zero size m a = a
shrink-IsValid (suc rounds) size m a = elim (Bool-cases (ltb size (length m))) [
  | inl h ↦ rw h (shrink-IsValid rounds size (drop_last m) (drop_last-IsValid m a))
  | inr h ↦ rw h a
]

length-shrink :
    (rounds size : ℕ) (m : Cache) → length m ≤ rounds + size → length (shrink rounds size m) ≤ size
unfolding shrink
length-shrink zero size m h = omega arith
length-shrink (suc rounds) size m h = elim (Bool-cases (ltb size (length m))) [
  | inl b ↦ rw b (length-shrink rounds size (drop_last m) (omega (arith, length-drop_last m)))
  | inr b ↦ rw b (ground arith)
]

-- The loop at the number after i, with the factorial of i so far.
cache_loop-product_to :
    (fuel size n i : ℕ) (m : Cache)
    → i ≤ n
    → n + 1 < 2 ^ 32
    → n < i + fuel
    → IsValid m
    → (after : Cache) × (cache_loop fuel size n (suc i) (product_to i % 2 ^ 32) m
        ≡ some (product_to n % 2 ^ 32, after))
      × IsValid after
unfolding cache_loop product_to
cache_loop-product_to zero size n i m l b f a = absurd (omega arith)
cache_loop-product_to (suc fuel) size n i m l b f a = elim (Bool-cases (leb (suc i) n)) [
  | inl more ↦
      let low : product_to i % 2 ^ 32 * suc i % 2 ^ 32 ≡ product_to (suc i) % 2 ^ 32 =
        low_mul (2 ^ 32) (product_to i) (suc i) in
      let next : (suc i + 1) % 2 ^ 32 ≡ suc (suc i) = ground arith in
      rw (more, next, low)
        (cache_loop-product_to fuel size n (suc i) _ (ground arith) b (ground arith) (
          maybe_store-IsValid (ltb (length m) size) (suc i) (product_to (suc i) % 2 ^ 32) m refl a))
  | inr done ↦
      let same : i ≡ n = ground arith in
      rw done (m, ap (λ x. some (product_to x % 2 ^ 32, m)) same, a)
]

-- What a call answers, and the cache that it leaves.
abbrev pub AgreesWith : ℕ → ℕ → Cache → Option (ℕ × Cache) → Type 0
AgreesWith n size cache o =
    (v : ℕ) × (after : Cache) × (o ≡ some (v, after))
    × (factorial n ≡ some v)
    × IsValid after
    × ((after ≡ cache) ⊎ (length after ≤ size))

from_entry-product_to :
    (size n : ℕ) (m : Cache) (o : Option (ℕ × ℕ))
    → 1 < n
    → n + 1 < 2 ^ 32
    → IsValid m
    → Before n o
    → (after : Cache) × (from_entry size n m o ≡ some (product_to n % 2 ^ 32, after))
      × IsValid after
unfolding product_to
from_entry-product_to size n m none h b a _ =
    cache_loop-product_to (suc n) size n 1 m (omega arith) b (omega arith) a
from_entry-product_to size n m (some (k, v)) h b a (l, e) =
    let next : (k + 1) % 2 ^ 32 ≡ suc k = omega arith in
    rw (next, e) (cache_loop-product_to (suc n) size n k m (omega arith) b (omega arith) a)

-- Where every entry of the cache is the factorial of its key, `FactorialWithCache` of a number below
-- 2 ^ 32 - 1 ends with what `Factorial` gives, and leaves such a cache: the same one, or one that is no
-- larger than it may be.
pub factorial_with_cache-AgreesWith :
    (n size : ℕ) (cache : Cache)
    → n + 1 < 2 ^ 32
    → IsValid cache
    → AgreesWith n size cache (factorial_with_cache n size cache)
unfolding factorial_with_cache
factorial_with_cache-AgreesWith n size cache b a = elim (Bool-cases (leb n 1)) [
  | inl e ↦ rw e (1, cache, refl, unfold factorial in rw e refl, a, inl refl)
  | inr e ↦
      let more : 1 < n = ground arith in
      let reference = factorial-product_to n b in
      elim (Option-cases (lookup n cache)) [
        | inl f ↦
            let before = before_bound-Before n none cache tt a in
            let (after, run, valid) =
              from_entry-product_to size n cache (before_bound n none cache) more b a before in
            rw (e, f, run)
              (
                product_to n % 2 ^ 32,
                shrink (length after) size after,
                refl,
                reference,
                shrink-IsValid (length after) size after valid,
                inr (length-shrink (length after) size after (omega arith)),
              )
        | inr (v, f) ↦
            rw (e, f)
              (
                v,
                cache,
                refl,
                reference ∙ ap some (sym (lookup-IsValid n v cache a f)),
                a,
                inl refl,
              )
      ]
]
