-- ===== src/Net/Press/Kept.antt =====
-- The figures of MultiThreadClientBase of src/CppNet.cpp through any events.
use moon_lib.Common.{
  ℕ, zero, suc, ◌+◌, ◌%◌, ◌^◌, ◌<◌, ◌≡◌, ◌≢◌, ◌⊎◌, refl, sym, subst, ◌∙◌, Bool, true, false, some,
  List, [], ◌∷◌, length, ◌==◌, if◌then◌else◌, inl, inr, Bool-cases, arith,
}
use moon_lib.Common.Int.{ℤ, pos, negsuc}
use moon_lib.Time.{Timeval, timev_diff}
use moon_lib.Net.Press.{
  Stats, Press, CheckResponse, send_time, set_send_time, drop_send_time, add_time, count_response,
  read_all, read_used, proc_read, proc_write, proc_delete_fd, add_client, reset_period,
}
use moon_lib.Net.Press.Figures.{
  sum, Event, connected, wrote, got, deleted, reset, add_used, step, events_run, Matches,
}
use moon_lib.Net.Press.Figures.Extremes.{Has, later_min-IsLeast, later_max-IsGreatest}

-- One more time, with the answer counted in one of the two numbers.
counted-Matches :
    (u success fail : ℕ) (st : Stats) (h : List ℕ)
    → 0 < u
    → (success + fail) % 2 ^ 64 ≡ (suc (length h)) % 2 ^ 64
    → Matches st h
    → Matches (record (add_time u st) { success_count = success; fail_count = fail }) (u ∷ h)
unfolding add_time sum
counted-Matches u success fail st h p c k =
    let total = k.total_is in
    record {
      counted = c;
      total_is = omega arith;
      min_is = later_min-IsLeast st.min_time_us u h p k.min_is;
      max_is = later_max-IsGreatest st.max_time_us u h p k.max_is;
    }

add_time-Matches :
    (u : ℕ) (b : Bool) (st : Stats) (h : List ℕ)
    → 0 < u
    → Matches st h
    → Matches (count_response b (add_time u st)) (u ∷ h)
unfolding count_response add_time
add_time-Matches u true st h p k =
    let counted = k.counted in
    counted-Matches u ((st.success_count + 1) % 2 ^ 64) st.fail_count st h p (omega arith) k
add_time-Matches u false st h p k =
    let counted = k.counted in
    counted-Matches u st.success_count ((st.fail_count + 1) % 2 ^ 64) st h p (omega arith) k

period-Matches :
    {U : Type 0} (total least greatest : ℕ) (p : Press U) (h : List ℕ)
    → Matches p.stats h
    → Matches (reset_period total least greatest p).stats h
unfolding reset_period
period-Matches total least greatest p h k = record {
  counted = k.counted;
  total_is = k.total_is;
  min_is = k.min_is;
  max_is = k.max_is;
}

-- The descriptors without one of them.
unfoldable pub without : ℕ → List ℕ → List ℕ
without fd [] = []
without fd (x ∷ fds) = let rest = without fd fds in if x == fd then rest else x ∷ rest

-- The events come for descriptors that are connected.
abbrev pub Expected : List Event → List ℕ → Type 0
Expected [] fds = Unit
Expected (connected fd t ∷ events) fds = Expected events (fd ∷ fds)
Expected (wrote fd ret now ∷ events) fds = Has fd fds × Expected events fds
Expected (got fd now reads ∷ events) fds = Has fd fds × Expected events fds
Expected (deleted fd ∷ events) fds = Expected events (without fd fds)
Expected (reset total least greatest ∷ events) fds = Expected events fds

-- The descriptors have client data.
abbrev pub AllOpen : List ℕ → List (ℕ × Timeval) → Type 0
AllOpen fds l = (q : ℕ) → Has q fds → (t : Timeval) × (send_time q l ≡ some t)

send_time-set :
    (q fd : ℕ) (t : Timeval) (l : List (ℕ × Timeval))
    → send_time q (set_send_time fd t l) ≡ (if fd == q then some t else send_time q l)
unfolding send_time set_send_time
send_time-set q fd t [] = ground arith
send_time-set q fd t ((x, u) ∷ l) =
    let ih = send_time-set q fd t l in
    elim (Bool-cases (x == fd)) [ inl e ↦ rw e (ground arith) | inr e ↦ rw (e, ih) (ground arith) ]

send_time-drop :
    (q fd : ℕ) (l : List (ℕ × Timeval)) → q ≢ fd → send_time q (drop_send_time fd l) ≡ send_time q l
unfolding send_time drop_send_time
send_time-drop q fd [] h = refl
send_time-drop q fd ((x, u) ∷ l) h =
    let ih = send_time-drop q fd l h in
    elim (Bool-cases (x == fd)) [ inl e ↦ rw (e, ih) (ground arith) | inr e ↦ rw (e, ih) refl ]

Has-without : (q fd : ℕ) (fds : List ℕ) → Has q (without fd fds) → Has q fds × (q ≢ fd)
unfolding without
Has-without q fd [] h = absurd h
Has-without q fd (x ∷ fds) h = elim (Bool-cases (x == fd)) [
  | inl e ↦ let (k, n) = Has-without q fd fds (rw e at h) in (inr k, n)
  | inr e ↦ go e (λ k. Has-without q fd fds k) (rw e at h)
]
  where
    go :
        (x == fd) ≡ false
        → (Has q (without fd fds) → Has q fds × (q ≢ fd))
        → (q ≡ x) ⊎ Has q (without fd fds)
        → Has q (x ∷ fds) × (q ≢ fd)
    go e rest (inl same) = (inl same, ground arith)
    go e rest (inr k) = let (j, n) = rest k in (inr j, n)

set-AllOpen :
    (fd : ℕ) (t : Timeval) (fds : List ℕ) (l : List (ℕ × Timeval))
    → AllOpen fds l
    → AllOpen (fd ∷ fds) (set_send_time fd t l)
set-AllOpen fd t fds l o q h = elim (Bool-cases (fd == q)) [
  | inl e ↦ (t, send_time-set q fd t l ∙ rw e refl)
  | inr e ↦ let (u, there) = o q (other e h) in (u, send_time-set q fd t l ∙ rw e there)
]
  where
    other : (fd == q) ≡ false → (q ≡ fd) ⊎ Has q fds → Has q fds
    other e (inl same) = absurd (ground arith)
    other e (inr k) = k

drop-AllOpen :
    (fd : ℕ) (fds : List ℕ) (l : List (ℕ × Timeval))
    → AllOpen fds l
    → AllOpen (without fd fds) (drop_send_time fd l)
drop-AllOpen fd fds l o q h =
    let (there, n) = Has-without q fd fds h in
    let (t, e) = o q there in (t, send_time-drop q fd l n ∙ e)

module _ {U : Type 0} (check_response : CheckResponse U) where
  -- A run that is defined and leaves figures of the times.
  abbrev pub RunMatches : List Event → Press U → List ℕ → Type 0
  RunMatches events p h =
      (p' : Press U) × (h' : List ℕ) × (events_run check_response events p h ≡ some (p', h'))
      × Matches p'.stats h'

  -- The answer with its time.
  read-Matches :
      (used : ℤ) (fd : ℕ) (reads : List (List ℕ)) (p : Press U) (h : List ℕ)
      → Matches p.stats h
      → Matches (read_used check_response fd reads used p).0.stats (add_used used h)
  read-Matches (negsuc n) fd reads p h k = k
  read-Matches (pos zero) fd reads p h k = k
  read-Matches (pos (suc n)) fd reads p h k =
      add_time-Matches (suc n) (check_response fd (read_all reads) p.own).1 p.stats h (omega arith)
        k

  read-send_times :
      (used : ℤ) (fd : ℕ) (reads : List (List ℕ)) (p : Press U)
      → (read_used check_response fd reads used p).0.send_times ≡ p.send_times
  read-send_times (negsuc n) fd reads p = refl
  read-send_times (pos zero) fd reads p = refl
  read-send_times (pos (suc n)) fd reads p = refl

  -- Let one client thread run `ProcWrite`, `ProcRead`, `ProcDeleteFd` and new connections, each event of
  -- a connected descriptor, with any `CheckResponse`, while the thread of `Run` changes the figures of
  -- the period to anything between them. They keep that the numbers of right and wrong answers make up
  -- the number of times that were taken, and that the total, the least and the greatest time of the
  -- whole run are those of these times, with the total and the numbers modulo 2 ^ 64 and 0 where there
  -- is none. The source is defined on the way.
  pub events_run-Matches :
      (events : List Event) (fds : List ℕ) (p : Press U) (h : List ℕ)
      → Expected events fds
      → AllOpen fds p.send_times
      → Matches p.stats h
      → RunMatches events p h
  unfolding events_run step proc_read proc_write proc_delete_fd add_client reset_period
  events_run-Matches [] fds p h x o k = (p, h, refl, k)
  events_run-Matches (connected fd t ∷ events) fds p h x o k =
      events_run-Matches events (fd ∷ fds) (add_client fd t p) h x
        (set-AllOpen fd t fds p.send_times o) k
  events_run-Matches (wrote fd (negsuc n) now ∷ events) fds p h (there, x) o k =
      events_run-Matches events fds p h x o k
  events_run-Matches (wrote fd (pos zero) now ∷ events) fds p h (there, x) o k =
      events_run-Matches events fds p h x o k
  events_run-Matches (wrote fd (pos (suc n)) now ∷ events) fds p h (there, x) o k =
      let (t, e) = o fd there in
      rw e (
        events_run-Matches events fds (record p { send_times = set_send_time fd now p.send_times })
          h x (λ q z. set-AllOpen fd now fds p.send_times o q (inr z)) k)
  events_run-Matches (got fd now reads ∷ events) fds p h (there, x) o k =
      let (t, e) = o fd there in
      let used = timev_diff now t in
      let p' = (read_used check_response fd reads used p).0 in
      rw e (
        events_run-Matches events fds p' (add_used used h) x
          (subst (AllOpen fds) (sym (read-send_times used fd reads p)) o)
          (read-Matches used fd reads p h k))
  events_run-Matches (deleted fd ∷ events) fds p h x o k =
      events_run-Matches events (without fd fds) (proc_delete_fd fd p) h x
        (drop-AllOpen fd fds p.send_times o) k
  events_run-Matches (reset total least greatest ∷ events) fds p h x o k =
      events_run-Matches events fds (reset_period total least greatest p) h x o
        (period-Matches total least greatest p h k)
