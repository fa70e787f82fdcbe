-- ===== src/Log/Rotation.antt =====
-- The files of a log that has grown too large, after `LogMsg` of src/CppLog.cpp.
use moon_lib.Common.{
  ℕ, suc, ◌^◌, ◌≤◌, ◌<◌, ◌≡◌, refl, ◌∙◌, true, false, some, List, [], ◌∷◌, ◌++◌, arith, ◌==◌,
}
use moon_lib.Text.Reverse.{str_eq_self}
use moon_lib.Text.Split.{is_empty}
use moon_lib.Log.{FileSystem, Log, rotate, too_large, log_msg}
use moon_lib.Log.Names.{numbered, numbered_apart}
use moon_lib.Log.Disk.{IsLawful, Takes, IsOther}
use moon_lib.Log.Moves.{
  renamed, renamed_other, renamed_free, renamed_moved, renamed_writable, rotate-renamed, cleared,
  cleared_free, cleared_other,
}

-- What `LogMsg` leaves of the files when it rotates them: each of the numbers but the last one has moved
-- up, the log has the message only, and another file is as it was.
abbrev pub Rotated : {F : Type 0} → FileSystem F → Log → List ℕ → ℕ → List ℕ → F → F → Type 0
Rotated fs l msg j q before after =
    (fs.content after (numbered l.log_file (suc j)) ≡ fs.content before (numbered l.log_file j))
    × (fs.content after l.log_file ≡ some (msg ++ b'\n' ∷ []))
    × (fs.content after q ≡ fs.content before q)

module _ {F : Type 0} (fs : FileSystem F) (law : IsLawful fs) where
  -- After a rotation the message is appended to a log that is not there.
  append-Rotated :
      (l : Log) (msg : List ℕ) (i j : ℕ) (q : List ℕ) (f : F) (CanWrite : F → Type 0)
      → Takes fs l.log_file i CanWrite
      → CanWrite f
      → i < 2 ^ 31
      → j ≤ i
      → IsOther l.log_file (suc i) q
      → Rotated fs l msg j q f
          (fs.append l.log_file (msg ++ b'\n' ∷ []) (rotate fs l.log_file (suc (suc i)) f)).0
  append-Rotated l msg i j q f CanWrite takes w h b o =
      let name = l.log_file in
      let start = cleared fs law name i CanWrite takes i f in
      let can = takes.unlink_stays f w in
      let free = cleared_free fs law name i CanWrite takes f w in
      let done = renamed fs law name i CanWrite takes i start in
      let same : rotate fs name (suc (suc i)) f ≡ done =
        rotate-renamed fs law name i CanWrite takes i f h in
      let up = renamed_moved fs law name i CanWrite takes i j start (omega arith) can free b in
      let here = renamed_free fs law name i CanWrite takes i start (omega arith) can free in
      let there = renamed_other fs law name i CanWrite takes i q start (omega arith) can free o in
      let add = λ (x : List ℕ). law.content-append name (msg ++ b'\n' ∷ []) x done (
        takes.append_takes (msg ++ b'\n' ∷ []) done
          (renamed_writable fs law name i CanWrite takes i start (omega arith) can)) in
      rw same (
        add (numbered name (suc j))
            ∙ rw (numbered_apart name 0 (suc j) (λ e. omega arith)) (
                up
                ∙ cleared_other fs law name i CanWrite takes (numbered name j) f
                    (numbered_apart name (suc i) j (λ e. omega arith))),
        add name ∙ rw (str_eq_self name, here) refl,
        add q
            ∙ rw (o 0 (omega arith))
                (there ∙ cleared_other fs law name i CanWrite takes q f (o (suc i) (omega arith))),
      )

  -- Where the log has grown too large and at least two files are kept, `LogMsg` moves each file to the
  -- next number, the log itself to the number 1, and drops the one with the last number, whichever of
  -- these files are there. The log has the message only, and other files stay as they are. For this
  -- the directory can be written, which has to mean that the calls on these files succeed where the
  -- file is there, and no directory has one of the names. So it is not said of a log without a dot in a
  -- directory with one: the numbers go into the name of the directory there.
  pub log_msg-Rotated :
      (l : Log) (msg : List ℕ) (i j : ℕ) (q : List ℕ) (f : F) (CanWrite : F → Type 0)
      → Takes fs l.log_file i CanWrite
      → CanWrite f
      → is_empty l.log_file ≡ false
      → l.max_file_count ≡ suc (suc i)
      → i < 2 ^ 31
      → too_large fs l f ≡ true
      → j ≤ i
      → IsOther l.log_file (suc i) q
      → Rotated fs l msg j q f (log_msg fs l msg f)
  unfolding log_msg
  log_msg-Rotated l msg i j q f CanWrite takes w e c h t b o =
      let some_ : (suc (suc i) == 0) ≡ false = ground arith in
      rw (e, t, c, some_) (append-Rotated l msg i j q f CanWrite takes w h b o)
