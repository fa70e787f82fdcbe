-- ===== src/Log/Moves.antt =====
-- The renames of `LogMsg` of src/CppLog.cpp.
use moon_lib.Common.{
  ℕ, zero, suc, ◌+◌, ◌-◌, ◌%◌, ◌^◌, ◌≤◌, ◌<◌, ◌≡◌, ◌⊎◌, refl, sym, subst, ◌∙◌, false, none, List,
  arith, if◌then◌else◌, inl, inr, Bool-cases, Option-cases,
}
use moon_lib.Text.{str_eq}
use moon_lib.Text.Reverse.{str_eq_self}
use moon_lib.Log.{FileSystem, rounds, rename_loop, rename_log, rotate}
use moon_lib.Log.Names.{numbered, numbered_apart}
use moon_lib.Log.Disk.{IsLawful, Takes, IsOther, content-move}

module _ {F : Type 0} (fs : FileSystem F) (law : IsLawful fs) where
  module _ (log_file : List ℕ) (top : ℕ) (CanWrite : F → Type 0)
      (takes : Takes fs log_file top CanWrite) where
    -- The renames, down from a number whose successor is free.
    abbrev pub renamed : ℕ → F → F
    renamed i f = rename_log fs log_file (rename_loop fs log_file i (numbered log_file (suc i)) f)

    abbrev one_up : ℕ → F → F
    one_up i f = (fs.rename (numbered log_file i) (numbered log_file (suc i)) f).0

    one_up-content :
        (i : ℕ) (q : List ℕ) (f : F)
        → i ≤ top
        → CanWrite f
        → fs.content f (numbered log_file (suc i)) ≡ none
        → fs.content (one_up i f) q ≡ (
            if str_eq (numbered log_file (suc i)) q
            then fs.content f (numbered log_file i)
            else if str_eq (numbered log_file i) q
            then none
            else fs.content f q)
    one_up-content i q f t w free =
        content-move fs law (numbered log_file i) (numbered log_file (suc i)) q f
          (λ text e. takes.rename_takes i text f t w e) (takes.rename_misses i f t w) free
          (numbered_apart log_file i (suc i) (λ e. omega arith))

    -- The name that a file was moved from is free.
    one_up_free :
        (i : ℕ) (f : F)
        → i ≤ top
        → CanWrite f
        → fs.content f (numbered log_file (suc i)) ≡ none
        → fs.content (one_up i f) (numbered log_file i) ≡ none
    one_up_free i f t w free =
        one_up-content i (numbered log_file i) f t w free
        ∙ rw
            (
              numbered_apart log_file (suc i) i (λ e. omega arith),
              str_eq_self (numbered log_file i),
            )
            refl

    one_up_moved :
        (i : ℕ) (f : F)
        → i ≤ top
        → CanWrite f
        → fs.content f (numbered log_file (suc i)) ≡ none
        → fs.content (one_up i f) (numbered log_file (suc i)) ≡ fs.content f (numbered log_file i)
    one_up_moved i f t w free =
        one_up-content i (numbered log_file (suc i)) f t w free
        ∙ rw (str_eq_self (numbered log_file (suc i))) refl

    one_up_other :
        (i : ℕ) (q : List ℕ) (f : F)
        → i ≤ top
        → CanWrite f
        → fs.content f (numbered log_file (suc i)) ≡ none
        → str_eq (numbered log_file (suc i)) q ≡ false
        → str_eq (numbered log_file i) q ≡ false
        → fs.content (one_up i f) q ≡ fs.content f q
    one_up_other i q f t w free g h = one_up-content i q f t w free ∙ rw (g, h) refl

    pub renamed_other :
        (i : ℕ) (q : List ℕ) (f : F)
        → i ≤ top
        → CanWrite f
        → fs.content f (numbered log_file (suc i)) ≡ none
        → IsOther log_file (suc i) q
        → fs.content (renamed i f) q ≡ fs.content f q
    unfolding rename_loop
    renamed_other zero q f t w free o =
        one_up_other zero q f t w free (o 1 (omega arith)) (o 0 (omega arith))
    renamed_other (suc i) q f t w free o =
        renamed_other i q (one_up (suc i) f) (omega arith) (takes.rename_stays (suc i) f t w)
          (one_up_free (suc i) f t w free) (λ k l. o k (omega arith))
        ∙ one_up_other (suc i) q f t w free (o (suc (suc i)) (omega arith))
            (o (suc i) (omega arith))

    pub renamed_free :
        (i : ℕ) (f : F)
        → i ≤ top
        → CanWrite f
        → fs.content f (numbered log_file (suc i)) ≡ none
        → fs.content (renamed i f) log_file ≡ none
    unfolding rename_loop
    renamed_free zero f t w free = one_up_free zero f t w free
    renamed_free (suc i) f t w free =
        renamed_free i (one_up (suc i) f) (omega arith) (takes.rename_stays (suc i) f t w)
          (one_up_free (suc i) f t w free)

    pub renamed_moved :
        (i j : ℕ) (f : F)
        → i ≤ top
        → CanWrite f
        → fs.content f (numbered log_file (suc i)) ≡ none
        → j ≤ i
        → fs.content (renamed i f) (numbered log_file (suc j)) ≡ fs.content f (numbered log_file j)
    unfolding rename_loop
    renamed_moved zero zero f t w free l = one_up_moved zero f t w free
    renamed_moved zero (suc j) f t w free l = absurd (omega arith)
    renamed_moved (suc i) j f t w free l = elim (order j l) [
      | inl less ↦
          renamed_moved i j (one_up (suc i) f) (omega arith) (takes.rename_stays (suc i) f t w)
            (one_up_free (suc i) f t w free) less
          ∙ one_up_other (suc i) (numbered log_file j) f t w free
              (numbered_apart log_file (suc (suc i)) j (λ e. omega arith))
              (numbered_apart log_file (suc i) j (λ e. omega arith))
      | inr same ↦
          subst
            (λ x.
              fs.content (renamed (suc i) f) (numbered log_file (suc x))
              ≡ fs.content f (numbered log_file x))
            (sym same)
            (renamed_other i (numbered log_file (suc (suc i))) (one_up (suc i) f) (omega arith)
                (takes.rename_stays (suc i) f t w) (one_up_free (suc i) f t w free)
                (λ k b. numbered_apart log_file k (suc (suc i)) (λ e. omega arith))
              ∙ one_up_moved (suc i) f t w free)
    ]
      where
        order : (k : ℕ) → k ≤ suc i → (k ≤ i) ⊎ (k ≡ suc i)
        order k b = ground arith

    pub renamed_writable : (i : ℕ) (f : F) → i ≤ top → CanWrite f → CanWrite (renamed i f)
    unfolding rename_loop
    renamed_writable zero f t w = takes.rename_stays zero f t w
    renamed_writable (suc i) f t w =
        renamed_writable i (one_up (suc i) f) (omega arith) (takes.rename_stays (suc i) f t w)

    oldest_number : (i : ℕ) → i < 2 ^ 31 → (suc (suc i) + 2 ^ 32 - 1) % 2 ^ 32 ≡ suc i
    oldest_number i h = omega arith

    all_rounds : (i : ℕ) → i < 2 ^ 31 → rounds (suc (suc i)) ≡ i
    all_rounds i h = ground arith

    abbrev pub cleared : ℕ → F → F
    cleared i f = (fs.unlink (numbered log_file (suc i)) f).0

    pub rotate-renamed :
        (i : ℕ) (f : F) → i < 2 ^ 31 → rotate fs log_file (suc (suc i)) f ≡ renamed i (cleared i f)
    unfolding rotate
    rotate-renamed i f h = rw (oldest_number i h, all_rounds i h) refl

    -- The oldest file is gone, whether it was there or not.
    pub cleared_free :
        (f : F) → CanWrite f → fs.content (cleared top f) (numbered log_file (suc top)) ≡ none
    cleared_free f w =
        let oldest = numbered log_file (suc top) in
        elim (Bool-cases (fs.unlink oldest f).1) [
          | inl e ↦ law.content-unlink oldest oldest f e ∙ rw (str_eq_self oldest) refl
          | inr e ↦ elim (Option-cases (fs.content f oldest)) [
            | inl n ↦ law.content-unlink_failed oldest oldest f e ∙ n
            | inr (text, n) ↦ let ok = takes.unlink_takes text f w n in absurd (cc)
          ]
        ]

    pub cleared_other :
        (q : List ℕ) (f : F)
        → str_eq (numbered log_file (suc top)) q ≡ false
        → fs.content (cleared top f) q ≡ fs.content f q
    cleared_other q f h =
        let oldest = numbered log_file (suc top) in
        elim (Bool-cases (fs.unlink oldest f).1) [
          | inl e ↦ law.content-unlink oldest q f e ∙ rw h refl
          | inr e ↦ law.content-unlink_failed oldest q f e
        ]
