-- ===== src/Net/Press/Figures/Extremes.antt =====
-- The least and the greatest time of src/CppNet.cpp, where 0 stands for no time yet.
use moon_lib.Common.{
  ℕ, ◌≤◌, ◌<◌, ◌≡◌, ◌⊎◌, refl, ◌||◌, List, [], ◌∷◌, length, ltb, ◌==◌, inl, inr, Bool-cases, arith,
}
use moon_lib.Net.Press.{later_min, later_max}

abbrev pub Has : ℕ → List ℕ → Type 0
Has x [] = ⊥
Has x (y ∷ l) = (x ≡ y) ⊎ Has x l

-- Every number is positive, and m is the least of them, or 0 where there is none.
pub record IsLeast (m : ℕ) (l : List ℕ) : Type 0 where
  pub none_yet : length l ≡ 0 → m ≡ 0
  pub is_one : 0 < length l → Has m l
  pub not_above : (x : ℕ) → Has x l → m ≤ x
  pub positive : (x : ℕ) → Has x l → 0 < x

-- m is the greatest of the numbers, or 0 where there is none.
pub record IsGreatest (m : ℕ) (l : List ℕ) : Type 0 where
  pub none_yet : length l ≡ 0 → m ≡ 0
  pub is_one : 0 < length l → Has m l
  pub not_below : (x : ℕ) → Has x l → x ≤ m

pub nil-IsLeast : IsLeast 0 []
nil-IsLeast = record {
  none_yet = λ e. refl;
  is_one = λ h. absurd (omega arith);
  not_above = λ x h. absurd h;
  positive = λ x h. absurd h;
}

pub nil-IsGreatest : IsGreatest 0 []
nil-IsGreatest = record {
  none_yet = λ e. refl;
  is_one = λ h. absurd (omega arith);
  not_below = λ x h. absurd h;
}

positive_cons :
    (u : ℕ) (l : List ℕ) → 0 < u → ((x : ℕ) → Has x l → 0 < x) → (x : ℕ) → Has x (u ∷ l) → 0 < x
positive_cons u l p h x (inl e) = omega arith
positive_cons u l p h x (inr k) = h x k

pub later_min-IsLeast :
    (m u : ℕ) (l : List ℕ) → 0 < u → IsLeast m l → IsLeast (later_min m u) (u ∷ l)
later_min-IsLeast m u [] p h =
    let none_ : m ≡ 0 = h.none_yet refl in
    rw none_ (record {
      none_yet = λ e. absurd (omega arith);
      is_one = λ e. inl refl;
      not_above = λ x k. one x k;
      positive = positive_cons u [] p h.positive;
    })
  where
    one : (x : ℕ) → (x ≡ u) ⊎ ⊥ → u ≤ x
    one x (inl e) = omega arith
    one x (inr k) = absurd k
later_min-IsLeast m u (y ∷ l) p h =
    let there : Has m (y ∷ l) = h.is_one (omega arith) in
    let more : 0 < m = h.positive m there in
    elim (Bool-cases (m == 0 || ltb u m)) [
      | inl e ↦
          let less : u < m = ground arith in
          rw e (record {
            none_yet = λ e. absurd (omega arith);
            is_one = λ e. inl refl;
            not_above = λ x k. new less x k;
            positive = positive_cons u (y ∷ l) p h.positive;
          })
      | inr e ↦
          let least : m ≤ u = ground arith in
          rw e (record {
            none_yet = λ e. absurd (omega arith);
            is_one = λ e. inr there;
            not_above = λ x k. old least x k;
            positive = positive_cons u (y ∷ l) p h.positive;
          })
    ]
  where
    new : u < m → (x : ℕ) → Has x (u ∷ y ∷ l) → u ≤ x
    new less x (inl e) = omega arith
    new less x (inr k) = let above = h.not_above x k in omega arith

    old : m ≤ u → (x : ℕ) → Has x (u ∷ y ∷ l) → m ≤ x
    old less x (inl e) = omega arith
    old less x (inr k) = h.not_above x k

pub later_max-IsGreatest :
    (m u : ℕ) (l : List ℕ) → 0 < u → IsGreatest m l → IsGreatest (later_max m u) (u ∷ l)
later_max-IsGreatest m u l p h = elim (Bool-cases (ltb m u)) [
  | inl e ↦
      let less : m < u = ground arith in
      rw e (record {
        none_yet = λ e. absurd (omega arith);
        is_one = λ e. inl refl;
        not_below = λ x k. new less x k;
      })
  | inr e ↦
      let more : u ≤ m = ground arith in
      rw e (record {
        none_yet = λ e. absurd (omega arith);
        is_one = λ e. inr (there l more h.none_yet h.is_one);
        not_below = λ x k. old more x k;
      })
]
  where
    new : m < u → (x : ℕ) → Has x (u ∷ l) → x ≤ u
    new less x (inl e) = omega arith
    new less x (inr k) = let below = h.not_below x k in omega arith

    old : u ≤ m → (x : ℕ) → Has x (u ∷ l) → x ≤ m
    old less x (inl e) = omega arith
    old less x (inr k) = h.not_below x k

    there : (l : List ℕ) → u ≤ m → (length l ≡ 0 → m ≡ 0) → (0 < length l → Has m l) → Has m l
    there [] less none_ some_ = let zero_ = none_ refl in absurd (omega arith)
    there (y ∷ l) less none_ some_ = some_ (omega arith)
