-- ===== src/Net/Epoll/Tests.antt =====
-- CppEpollManager of src/CppNet.cpp over a kernel that is a set of descriptors and refuses number 9.
use moon_lib.Common.{
  ℕ, ◌≡◌, refl, Bool, true, false, ◌&&◌, ◌||◌, Option, none, some, List, [], ◌∷◌, ◌==◌,
  if◌then◌else◌, inl, inr, Bool-cases,
}
use moon_lib.Net.Epoll.{
  Bits, in_rdhup, out_rdhup, Manager, has_fd, insert_fd, erase_fd, Kernel, Handlers, returned,
  add_or_mod_fd, del_fd, proc_read, proc_write, drop_event, on_event, on_events, wait,
}
use moon_lib.Net.Epoll.Covered.{
  Watches, IsCovered, Keeps, has_fd-insert_fd, has_fd-erase_fd, wait-IsCovered,
}
use moon_lib.Net.Epoll.Stuck.{add_or_mod, del, attempts, AllThrown, Refuses, refused_forever}

abbrev refuses_add : ℕ → List ℕ → Bool
refuses_add fd w = fd == 9 || has_fd fd w

abbrev in_only : Bits
in_only = record { in_bit = true; out_bit = false; rdhup_bit = false }

abbrev kernel : Kernel (List ℕ)
kernel = record {
  ctl_add = λ fd events w.
      (if refuses_add fd w then w else insert_fd fd w, if refuses_add fd w then false else true);
  ctl_mod = λ fd events w. (w, has_fd fd w);
  ctl_del = λ fd w. (if has_fd fd w then erase_fd fd w else w, has_fd fd w);
  epoll_wait = λ size w.
      (w, some (record { fd = 3; events = in_only } ∷ record { fd = 4; events = in_rdhup } ∷ []));
}

add_law :
    (fd q : ℕ) (w : List ℕ)
    → has_fd q (if refuses_add fd w then w else insert_fd fd w)
      ≡ (if (if refuses_add fd w then false else true) && fd == q then true else has_fd q w)
add_law fd q w = elim (Bool-cases (refuses_add fd w)) [
  | inl e ↦ rw e refl
  | inr e ↦ rw e (has_fd-insert_fd q fd w)
]

del_law :
    (fd q : ℕ) (w : List ℕ)
    → has_fd q (if has_fd fd w then erase_fd fd w else w)
      ≡ (if has_fd fd w && fd == q then false else has_fd q w)
del_law fd q w = elim (Bool-cases (has_fd fd w)) [
  | inl e ↦ rw e (has_fd-erase_fd q fd w)
  | inr e ↦ rw e refl
]

abbrev kernel-Watches : Watches kernel
kernel-Watches = record {
  watched = λ w q. has_fd q w;
  watched-add = λ fd q events w. add_law fd q w;
  watched-mod = λ fd q events w. refl;
  watched-del = λ fd q w. del_law fd q w;
  watched-wait = λ size q w. refl;
}

abbrev handlers : Handlers (List ℕ)
handlers = record {
  read_func = λ e m. (m, (true, e));
  write_func = λ e m. (m, (false, e));
  delete_func = none;
}

handlers-Keeps : Keeps kernel kernel-Watches handlers
handlers-Keeps = record {
  on_read = λ e m c. c;
  on_write = λ e m c. c;
  on_delete = λ f fd m e c. absurd (nothing f e);
}
  where
    nothing :
        (f : ℕ → Manager (List ℕ) → Manager (List ℕ))
        → ◌≡◌ {A = Option (ℕ → Manager (List ℕ) → Manager (List ℕ))} none (some f)
        → ⊥
    nothing f e = cc

abbrev watching : Manager (List ℕ)
watching = record { fds = 3 ∷ 4 ∷ []; events_size = 0; world = 3 ∷ 4 ∷ [] }

wait_run :
    wait kernel handlers watching
    ≡ (record { fds = 3 ∷ []; events_size = 2; world = 3 ∷ [] }, returned)
unfolding has_fd insert_fd erase_fd add_or_mod_fd del_fd proc_read proc_write drop_event on_event
    on_events wait
wait_run = refl

wait-IsCovered_example : IsCovered kernel kernel-Watches (wait kernel handlers watching).0
wait-IsCovered_example =
    wait-IsCovered kernel kernel-Watches handlers handlers-Keeps watching (λ q w. w)

kernel-Refuses : Refuses kernel kernel-Watches
kernel-Refuses = record { mod_refused = λ fd events w e. e; del_refused = λ fd w e. e }

refused_forever_example :
    AllThrown kernel
      (attempts kernel 9 (add_or_mod in_rdhup ∷ del ∷ add_or_mod out_rdhup ∷ []) watching)
unfolding has_fd
refused_forever_example =
    refused_forever kernel kernel-Watches kernel-Refuses 9 in_rdhup
      (del ∷ add_or_mod out_rdhup ∷ []) watching refl refl refl
