-- ===== src/Log/Tests.antt =====
-- CppLog of src/CppLog.cpp at inputs, with a file system that is a table of names.
use moon_lib.Common.{
  ℕ, zero, suc, ◌≤◌, ◌≡◌, refl, ◌∙◌, Bool, true, false, Option, none, some, List, [], ◌∷◌, ◌++◌,
  arith, if◌then◌else◌,
}
use moon_lib.Text.{str_eq}
use moon_lib.Text.Dict.{find, put, drop_key, find-put, find-drop_key}
use moon_lib.BigNum.Decimal.{digits_of, to_string}
use moon_lib.Log.{FileSystem, Log, last_dot, insert_number, log_msg}
use moon_lib.Log.Names.{numbered}
use moon_lib.Log.Disk.{old_text, IsLawful, Takes}
use moon_lib.Log.Rotation.{Rotated, log_msg-Rotated}

abbrev Files : Type 0
Files = List (List ℕ × List ℕ)

abbrev moved : Option (List ℕ) → List ℕ → List ℕ → Files → Files × Bool
moved none a b f = (f, false)
moved (some text) a b f = (put b text (drop_key a f), true)

abbrev removed : Option (List ℕ) → List ℕ → Files → Files × Bool
removed none p f = (f, false)
removed (some text) p f = (drop_key p f, true)

abbrev memory : FileSystem Files
memory = record {
  content = λ f p. find p f;
  append = λ p msg f. (put p (old_text (find p f) ++ msg) f, true);
  unlink = λ p f. removed (find p f) p f;
  rename = λ a b f. moved (find a f) a b f;
}

memory-unlink :
    (p q : List ℕ) (o : Option (List ℕ)) (f : Files)
    → (removed o p f).1 ≡ true
    → find q (removed o p f).0 ≡ (if str_eq p q then none else find q f)
memory-unlink p q none f h = absurd (cc)
memory-unlink p q (some text) f h = find-drop_key q p f

memory-unlink_failed :
    (p q : List ℕ) (o : Option (List ℕ)) (f : Files)
    → (removed o p f).1 ≡ false
    → find q (removed o p f).0 ≡ find q f
memory-unlink_failed p q none f h = refl
memory-unlink_failed p q (some text) f h = absurd (cc)

memory-rename :
    (a b q text : List ℕ) (f : Files)
    → find a f ≡ some text
    → find q (moved (find a f) a b f).0
      ≡ (if str_eq b q then some text else if str_eq a q then none else find q f)
memory-rename a b q text f e =
    rw e (find-put q b text (drop_key a f) ∙ rw (find-drop_key q a f) refl)

memory-rename_failed :
    (a b q : List ℕ) (o : Option (List ℕ)) (f : Files)
    → (moved o a b f).1 ≡ false
    → find q (moved o a b f).0 ≡ find q f
memory-rename_failed a b q none f h = refl
memory-rename_failed a b q (some text) f h = absurd (cc)

memory-IsLawful : IsLawful memory
memory-IsLawful = record {
  content-append = λ p msg q f h. find-put q p (old_text (find p f) ++ msg) f;
  content-unlink = λ p q f h. memory-unlink p q (find p f) f h;
  content-unlink_failed = λ p q f h. memory-unlink_failed p q (find p f) f h;
  content-rename = λ a b q text f h e o. memory-rename a b q text f e;
  content-rename_failed = λ a b q f h. memory-rename_failed a b q (find a f) f h;
}

-- This directory can always be written.
memory-Takes : (log_file : List ℕ) (top : ℕ) → Takes memory log_file top (λ f. Unit)
memory-Takes log_file top = record {
  append_takes = λ msg f w. refl;
  unlink_takes = λ text f w e. rw e refl;
  rename_takes = λ k text f t w e. rw e refl;
  rename_misses = λ k f t w e. rw e refl;
  unlink_stays = λ f w. tt;
  rename_stays = λ k f t w. tt;
}

-- "l.x", which may have 1 character, in three files.
abbrev log : Log
log = record { log_file = b'l' ∷ b'.' ∷ b'x' ∷ []; max_file_size = 1; max_file_count = 3 }

abbrev files : Files
files = (b'l' ∷ b'.' ∷ b'x' ∷ [], b'a' ∷ []) ∷ (b'l' ∷ b'1' ∷ b'.' ∷ b'x' ∷ [], b'b' ∷ []) ∷ []

name_run : numbered log.log_file 2 ≡ b'l' ∷ b'2' ∷ b'.' ∷ b'x' ∷ []
unfolding insert_number last_dot to_string digits_of
name_run = refl

-- The number goes into the name of the directory "v.d", where the file has no dot.
directory_run :
    insert_number (b'v' ∷ b'.' ∷ b'd' ∷ b'/' ∷ b'l' ∷ []) 1
    ≡ b'v' ∷ b'1' ∷ b'.' ∷ b'd' ∷ b'/' ∷ b'l' ∷ []
unfolding insert_number last_dot to_string digits_of
directory_run = refl

other_name : (k : ℕ) → k ≤ 2 → str_eq (numbered log.log_file k) [] ≡ false
unfolding insert_number str_eq last_dot
other_name zero h = refl
other_name (suc k) h = refl

log_msg-Rotated_example :
    Rotated memory log (b'c' ∷ []) 1 [] files (log_msg memory log (b'c' ∷ []) files)
unfolding find str_eq
log_msg-Rotated_example =
    log_msg-Rotated memory memory-IsLawful log (b'c' ∷ []) 1 1 [] files (λ f. Unit)
      (memory-Takes log.log_file 1) tt refl refl (omega arith) refl (omega arith) other_name
