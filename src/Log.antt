-- ===== src/Log.antt =====
-- CppLog of src/CppLog.h and src/CppLog.cpp: `LogMsg`, with the files that it renames. The file system
-- is a parameter.
pub mod Names
pub mod Disk
pub mod Moves
pub mod Rotation
mod Tests
use moon_lib.Common.{
  ℕ, zero, suc, ◌+◌, ◌-◌, ◌%◌, ◌^◌, Bool, true, false, not, ◌&&◌, Option, none, some, List, [], ◌∷◌,
  ◌++◌, ltb, ◌==◌, length, take, drop, if◌then◌else◌,
}
use moon_lib.Common.Int.{ℤ, pos, negsuc, ltb_ℤ}
use moon_lib.Text.Split.{is_empty}
use moon_lib.BigNum.Decimal.{to_string}

-- What the file system does: what a file holds, if it is there, and the calls that change it, with
-- whether they succeed.
pub record FileSystem (F : Type 0) : Type 0 where
  pub content : F → List ℕ → Option (List ℕ)
  pub append : List ℕ → List ℕ → F → F × Bool
  pub unlink : List ℕ → F → F × Bool
  pub rename : List ℕ → List ℕ → F → F × Bool

-- CppLog.
pub record Log : Type 0 where
  pub log_file : List ℕ
  pub max_file_size : ℕ
  pub max_file_count : ℕ

-- A number of 32 bits as int32_t.
abbrev pub as_int32 : ℕ → ℤ
as_int32 n = if ltb n (2 ^ 31) then pos n else negsuc (2 ^ 32 - 1 - n)

-- `GetFileSize`: -1 for a file that is not there.
abbrev pub size_of : Option (List ℕ) → ℤ
size_of none = negsuc zero
size_of (some text) = as_int32 (length text % 2 ^ 32)

abbrev pub later_dot : ℕ → Option ℕ → Option ℕ
later_dot c none = if c == b'.' then some 0 else none
later_dot c (some i) = some (suc i)

-- `rfind('.')`.
unfoldable pub last_dot : List ℕ → Option ℕ
last_dot [] = none
last_dot (c ∷ s) = later_dot c (last_dot s)

abbrev pub or_size : List ℕ → Option ℕ → ℕ
or_size s none = length s
or_size s (some i) = i

-- The name with a number before its dot.
unfoldable pub insert_number : List ℕ → ℕ → List ℕ
insert_number log_file i =
    let dot = or_size log_file (last_dot log_file) in
    take dot log_file ++ (to_string i ++ drop dot log_file)

-- `int32_t i = mMaxFileCount - 2`, as the rounds of the loop while i is at least 1.
abbrev pub rounds : ℕ → ℕ
rounds count = let i = (count + 2 ^ 32 - 2) % 2 ^ 32 in if ltb i (2 ^ 31) then i else 0

module _ {F : Type 0} (fs : FileSystem F) where
  -- The loop that renames, whether a rename succeeds or not, with the name that became free.
  unfoldable pub rename_loop : List ℕ → ℕ → List ℕ → F → List ℕ × F
  rename_loop log_file zero dst_file f = (dst_file, f)
  rename_loop log_file (suc i) dst_file f =
      let src_file = insert_number log_file (suc i) in
      rename_loop log_file i src_file (fs.rename src_file dst_file f).0

  abbrev pub rename_log : List ℕ → List ℕ × F → F
  rename_log log_file (dst_file, f) = (fs.rename log_file dst_file f).0

  -- What `LogMsg` does with the files when the log has grown too large.
  unfoldable pub rotate : List ℕ → ℕ → F → F
  rotate log_file count f =
      let oldest = insert_number log_file ((count + 2 ^ 32 - 1) % 2 ^ 32) in
      rename_log log_file (rename_loop log_file (rounds count) oldest (fs.unlink oldest f).0)

  abbrev pub too_large : Log → F → Bool
  too_large l f =
      ltb 0 l.max_file_size
      && not (ltb_ℤ (size_of (fs.content f l.log_file)) (as_int32 l.max_file_size))

  -- `LogMsg`. Without a file the message goes to the output of the process.
  unfoldable pub log_msg : Log → List ℕ → F → F
  log_msg l msg f =
      if is_empty l.log_file
      then f
      else if l.max_file_count == 0
      then f
      else (fs.append l.log_file (msg ++ b'\n' ∷ [])
          (if too_large l f then rotate l.log_file l.max_file_count f else f)).0
