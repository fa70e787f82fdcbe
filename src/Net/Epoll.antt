-- ===== src/Net/Epoll.antt =====
-- CppEpollManager of src/CppNet.h and src/CppNet.cpp. The kernel and the user's functions are
-- parameters: what they do is a step on the manager with the world around it.
pub mod Covered
pub mod Stuck
mod Tests
use moon_lib.Common.{
  ℕ, zero, suc, Bool, true, false, Option, none, some, List, [], ◌∷◌, ltb, ◌==◌, length,
  if◌then◌else◌,
}

-- The bits EPOLLIN, EPOLLOUT and EPOLLRDHUP of a set of events.
pub record Bits : Type 0 where
  pub in_bit : Bool
  pub out_bit : Bool
  pub rdhup_bit : Bool

abbrev pub in_rdhup : Bits
in_rdhup = record { in_bit = true; out_bit = false; rdhup_bit = true }

abbrev pub out_rdhup : Bits
out_rdhup = record { in_bit = false; out_bit = true; rdhup_bit = true }

-- An `epoll_event`, with `data.fd`.
pub record Event : Type 0 where
  pub fd : ℕ
  pub events : Bits

-- CppEpollManager: `mFds`, the size of `mEvents`, and the world.
pub record Manager (W : Type 0) : Type 0 where
  pub fds : List ℕ
  pub events_size : ℕ
  pub world : W

-- `mFds.find`, `insert` and `erase`.
unfoldable pub has_fd : ℕ → List ℕ → Bool
has_fd fd [] = false
has_fd fd (x ∷ fds) = if x == fd then true else has_fd fd fds

unfoldable pub insert_fd : ℕ → List ℕ → List ℕ
insert_fd fd [] = fd ∷ []
insert_fd fd (x ∷ fds) =
    let rest = x ∷ insert_fd fd fds in
    if x == fd then x ∷ fds else if ltb fd x then fd ∷ x ∷ fds else rest

unfoldable pub erase_fd : ℕ → List ℕ → List ℕ
erase_fd fd [] = []
erase_fd fd (x ∷ fds) = let rest = erase_fd fd fds in if x == fd then rest else x ∷ rest

-- The calls of `epoll_ctl` and `epoll_wait`, with true or a value for success.
pub record Kernel (W : Type 0) : Type 0 where
  pub ctl_add : ℕ → Bits → W → W × Bool
  pub ctl_mod : ℕ → Bits → W → W × Bool
  pub ctl_del : ℕ → W → W × Bool
  pub epoll_wait : ℕ → W → W × Option (List Event)

-- The user's functions: the state, whether they return 0, and the event, which they may change.
pub record Handlers (W : Type 0) : Type 0 where
  pub read_func : Event → Manager W → Manager W × (Bool × Event)
  pub write_func : Event → Manager W → Manager W × (Bool × Event)
  pub delete_func : Option (ℕ → Manager W → Manager W)

-- Whether a call returns or throws.
pub data Ending : Type 0 where
  returned : Ending
  thrown : Ending

abbrev pub ending : Bool → Ending
ending true = returned
ending false = thrown

module _ {W : Type 0} (k : Kernel W) where
  -- `AddOrModFd`.
  unfoldable pub add_or_mod_fd : ℕ → Bits → Manager W → Manager W × Ending
  add_or_mod_fd fd events m =
      let (added, add_ok) = k.ctl_add fd events m.world in
      let (modified, mod_ok) = k.ctl_mod fd events m.world in
      if has_fd fd m.fds
      then (record m { world = modified }, ending mod_ok)
      else (record m { fds = insert_fd fd m.fds; world = added }, ending add_ok)

  -- `DelFd`.
  unfoldable pub del_fd : ℕ → Manager W → Manager W × Ending
  del_fd fd m =
      let (deleted, ok) = k.ctl_del fd m.world in
      if ok
      then (record m { fds = erase_fd fd m.fds; world = deleted }, returned)
      else (record m { world = deleted }, thrown)

  -- `ProcRead` and `ProcWrite`: the state, the ending, and whether the user's function returned 0, with
  -- the event.
  abbrev pub after_func :
      ℕ → Bits → Manager W × (Bool × Event) → (Manager W × Ending) × (Bool × Event)
  after_func fd events (m, (true, event)) =
      (add_or_mod_fd fd events m, (true, record { fd = fd; events = events }))
  after_func fd events (m, (false, event)) = ((m, returned), (false, event))

  module _ (h : Handlers W) where
    unfoldable pub proc_read : Event → Manager W → (Manager W × Ending) × (Bool × Event)
    proc_read event m = after_func event.fd out_rdhup (h.read_func event m)

    unfoldable pub proc_write : Event → Manager W → (Manager W × Ending) × (Bool × Event)
    proc_write event m = after_func event.fd in_rdhup (h.write_func event m)

    abbrev pub tell_deleted :
        Option (ℕ → Manager W → Manager W) → ℕ → Manager W × Ending → Manager W × Ending
    tell_deleted none fd (m, e) = (m, e)
    tell_deleted (some f) fd (m, returned) = (f fd m, returned)
    tell_deleted (some f) fd (m, thrown) = (m, thrown)

    -- The descriptor is deleted, and the user told.
    unfoldable pub drop_event : Event → Manager W → Manager W × Ending
    drop_event event m = tell_deleted h.delete_func event.fd (del_fd event.fd m)

    -- A failure of the user's function deletes the descriptor.
    abbrev pub drop_failed : (Manager W × Ending) × (Bool × Event) → Manager W × Ending
    drop_failed (result, (true, event)) = result
    drop_failed ((m, e), (false, event)) = drop_event event m

    -- One event of `Wait`.
    unfoldable pub on_event : Event → Manager W → Manager W × Ending
    on_event event m =
        if event.events.in_bit
        then (if event.events.rdhup_bit
            then drop_event event m
            else drop_failed (proc_read event m))
        else if event.events.out_bit
        then drop_failed (proc_write event m)
        else (m, returned)

    abbrev pub unless_thrown :
        (Manager W → Manager W × Ending) → Manager W × Ending → Manager W × Ending
    unless_thrown next (m, returned) = next m
    unless_thrown next (m, thrown) = (m, thrown)

    -- The loop over the events.
    unfoldable pub on_events : List Event → Manager W → Manager W × Ending
    on_events [] m = (m, returned)
    on_events (event ∷ events) m = unless_thrown (on_events events) (on_event event m)

    abbrev pub on_waited : Manager W → Option (List Event) → Manager W × Ending
    on_waited m none = (m, thrown)
    on_waited m (some events) = on_events events m

    -- The sizes before `epoll_wait`.
    abbrev pub grown : Manager W → Manager W
    grown m =
        let size = if ltb m.events_size (length m.fds) then length m.fds else m.events_size in
        record m { events_size = if size == 0 then 1 else size }

    -- `Wait`.
    unfoldable pub wait : Manager W → Manager W × Ending
    wait m =
        let g = grown m in
        let (world, events) = k.epoll_wait g.events_size g.world in
        on_waited (record g { world = world }) events
