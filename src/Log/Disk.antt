-- ===== src/Log/Disk.antt =====
-- The calls that change files, as `LogMsg` of src/CppLog.cpp needs them.
use moon_lib.Common.{
  ℕ, suc, ◌≤◌, ◌≡◌, refl, sym, ap, ◌∙◌, true, false, Option, none, some, List, [], ◌++◌,
  if◌then◌else◌, inl, inr, Bool-cases, Option-cases,
}
use moon_lib.Text.{str_eq}
use moon_lib.Text.Reverse.{str_eq_iff}
use moon_lib.Log.{FileSystem}
use moon_lib.Log.Names.{numbered}

abbrev pub old_text : Option (List ℕ) → List ℕ
old_text none = []
old_text (some text) = text

-- What the documentation of the calls says of their effect, where nothing else touches the files.
pub record IsLawful {F : Type 0} (fs : FileSystem F) : Type 0 where
  pub content-append :
      (p msg q : List ℕ) (f : F)
      → (fs.append p msg f).1 ≡ true
      → fs.content (fs.append p msg f).0 q
        ≡ (if str_eq p q then some (old_text (fs.content f p) ++ msg) else fs.content f q)
  pub content-unlink :
      (p q : List ℕ) (f : F)
      → (fs.unlink p f).1 ≡ true
      → fs.content (fs.unlink p f).0 q ≡ (if str_eq p q then none else fs.content f q)
  pub content-unlink_failed :
      (p q : List ℕ) (f : F)
      → (fs.unlink p f).1 ≡ false
      → fs.content (fs.unlink p f).0 q ≡ fs.content f q
  pub content-rename :
      (a b q text : List ℕ) (f : F)
      → (fs.rename a b f).1 ≡ true
      → fs.content f a ≡ some text
      → str_eq a b ≡ false
      → fs.content (fs.rename a b f).0 q
        ≡ (if str_eq b q then some text else if str_eq a q then none else fs.content f q)
  pub content-rename_failed :
      (a b q : List ℕ) (f : F)
      → (fs.rename a b f).1 ≡ false
      → fs.content (fs.rename a b f).0 q ≡ fs.content f q

-- While the directory can be written, the calls on the files with the numbers up to one above `top`
-- succeed where these are there, and leave it so; no directory has such a name. It is not so where the
-- directory's name has a dot and the name of the file in it has none: the number goes into the name of
-- the directory.
pub record Takes {F : Type 0} (fs : FileSystem F) (log_file : List ℕ) (top : ℕ)
    (CanWrite : F → Type 0) : Type 0 where
  pub append_takes : (msg : List ℕ) (f : F) → CanWrite f → (fs.append log_file msg f).1 ≡ true
  pub unlink_takes :
      (text : List ℕ) (f : F)
      → CanWrite f
      → fs.content f (numbered log_file (suc top)) ≡ some text
      → (fs.unlink (numbered log_file (suc top)) f).1 ≡ true
  pub rename_takes :
      (k : ℕ) (text : List ℕ) (f : F)
      → k ≤ top
      → CanWrite f
      → fs.content f (numbered log_file k) ≡ some text
      → (fs.rename (numbered log_file k) (numbered log_file (suc k)) f).1 ≡ true
  pub rename_misses :
      (k : ℕ) (f : F)
      → k ≤ top
      → CanWrite f
      → fs.content f (numbered log_file k) ≡ none
      → (fs.rename (numbered log_file k) (numbered log_file (suc k)) f).1 ≡ false
  pub unlink_stays : (f : F) → CanWrite f → CanWrite (fs.unlink (numbered log_file (suc top)) f).0
  pub rename_stays :
      (k : ℕ) (f : F)
      → k ≤ top
      → CanWrite f
      → CanWrite (fs.rename (numbered log_file k) (numbered log_file (suc k)) f).0

-- A file that has none of the numbers.
abbrev pub IsOther : List ℕ → ℕ → List ℕ → Type 0
IsOther log_file i q = (k : ℕ) → k ≤ i → str_eq (numbered log_file k) q ≡ false

module _ {F : Type 0} (fs : FileSystem F) (law : IsLawful fs) where
  -- A rename to a name that is free, which succeeds just where the file is there.
  pub content-move :
      (a b q : List ℕ) (f : F)
      → ((text : List ℕ) → fs.content f a ≡ some text → (fs.rename a b f).1 ≡ true)
      → (fs.content f a ≡ none → (fs.rename a b f).1 ≡ false)
      → fs.content f b ≡ none
      → str_eq a b ≡ false
      → fs.content (fs.rename a b f).0 q
        ≡ (if str_eq b q then fs.content f a else if str_eq a q then none else fs.content f q)
  content-move a b q f takes misses free other = elim (Option-cases (fs.content f a)) [
    | inl e ↦ rw e (law.content-rename_failed a b q f (misses e) ∙ missing e)
    | inr (text, e) ↦ rw e (law.content-rename a b q text f (takes text e) e other)
  ]
    where
      missing :
          fs.content f a ≡ none
          → fs.content f q
            ≡ (if str_eq b q then none else if str_eq a q then none else fs.content f q)
      missing e = elim (Bool-cases (str_eq b q)) [
        | inl g ↦ rw g (ap (fs.content f) (sym ((str_eq_iff b q).0 g)) ∙ free)
        | inr g ↦ elim (Bool-cases (str_eq a q)) [
          | inl h ↦ rw (g, h) (ap (fs.content f) (sym ((str_eq_iff a q).0 h)) ∙ e)
          | inr h ↦ rw (g, h) refl
        ]
      ]
