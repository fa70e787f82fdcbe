-- ===== src/Log/Names.antt =====
-- The names of the files of CppLog of src/CppLog.cpp.

use moon_lib.Common.{
  ℕ, zero, suc, ◌≡◌, ◌≢◌, refl, sym, ap, false, List, [], ◌∷◌, ◌++◌, arith, length, take, drop,
  length-append, take-append-drop, inl, inr, Bool-cases,
}
use moon_lib.Text.{str_eq}
use moon_lib.Text.Reverse.{str_eq_iff}
use moon_lib.BigNum.Decimal.{to_string, to_string_injective, to_string_some}
use moon_lib.Log.{last_dot, or_size, insert_number}

-- The file itself, and those with a number in front of the dot.
abbrev pub numbered : List ℕ → ℕ → List ℕ
numbered log_file zero = log_file
numbered log_file (suc i) = insert_number log_file (suc i)

prefix_cancel : (a s t : List ℕ) → a ++ s ≡ a ++ t → s ≡ t
prefix_cancel [] s t h = h
prefix_cancel (c ∷ a) s t h = prefix_cancel a s t (cc)

suffix_cancel : (s t d : List ℕ) → length s ≡ length t → s ++ d ≡ t ++ d → s ≡ t
suffix_cancel [] [] d l h = refl
suffix_cancel [] (y ∷ t) d l h = absurd (omega arith)
suffix_cancel (x ∷ s) [] d l h = absurd (omega arith)
suffix_cancel (x ∷ s) (y ∷ t) d l h =
    let rest = suffix_cancel s t d (omega arith) (cc) in let same : x ≡ y = cc in cc

insert_number_apart :
    (log_file : List ℕ) (i j : ℕ) → i ≢ j → insert_number log_file i ≢ insert_number log_file j
unfolding insert_number
insert_number_apart log_file i j n h =
    let dot = or_size log_file (last_dot log_file) in
    let tails = prefix_cancel (take dot log_file) _ _ h in
    let sizes = ap length tails in
    n (
      to_string_injective i j (
        suffix_cancel (to_string i) (to_string j) (drop dot log_file)
          (omega (
            arith,
            sizes,
            length-append (to_string i) (drop dot log_file),
            length-append (to_string j) (drop dot log_file),
          ))
          tails))

insert_number-longer : (log_file : List ℕ) (i : ℕ) → log_file ≢ insert_number log_file i
unfolding insert_number
insert_number-longer log_file i h =
    let dot = or_size log_file (last_dot log_file) in
    let whole = ap length (take-append-drop dot log_file) in
    let sizes = ap length h in
    omega (
      arith,
      whole,
      sizes,
      to_string_some i,
      length-append (take dot log_file) (drop dot log_file),
      length-append (take dot log_file) (to_string i ++ drop dot log_file),
      length-append (to_string i) (drop dot log_file),
    )

numbered_differ : (log_file : List ℕ) (i j : ℕ) → i ≢ j → numbered log_file i ≢ numbered log_file j
numbered_differ log_file zero zero n h = n refl
numbered_differ log_file zero (suc j) n h = insert_number-longer log_file (suc j) h
numbered_differ log_file (suc i) zero n h = insert_number-longer log_file (suc i) (sym h)
numbered_differ log_file (suc i) (suc j) n h = insert_number_apart log_file (suc i) (suc j) n h

-- Files with different numbers have different names.
pub numbered_apart :
    (log_file : List ℕ) (i j : ℕ)
    → i ≢ j
    → str_eq (numbered log_file i) (numbered log_file j) ≡ false
numbered_apart log_file i j n =
    elim (Bool-cases (str_eq (numbered log_file i) (numbered log_file j))) [
      | inl e ↦ absurd (numbered_differ log_file i j n ((str_eq_iff _ _).0 e))
      | inr e ↦ e
    ]
