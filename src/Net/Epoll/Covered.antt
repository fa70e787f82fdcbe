-- ===== src/Net/Epoll/Covered.antt =====
-- CppEpollManager of src/CppNet.cpp and the descriptors that the kernel watches for it.
use moon_lib.Common.{
  ℕ, ◌≡◌, refl, sym, ◌∙◌, Bool, true, false, ◌&&◌, Option, none, some, List, [], ◌∷◌, arith, ◌==◌,
  if◌then◌else◌, inl, inr, Bool-cases,
}
use moon_lib.Net.Epoll.{
  Bits, in_rdhup, out_rdhup, Event, Manager, has_fd, insert_fd, erase_fd, Kernel, Handlers, Ending,
  returned, thrown, add_or_mod_fd, del_fd, after_func, proc_read, proc_write, tell_deleted,
  drop_event, drop_failed, on_event, unless_thrown, on_events, on_waited, grown, wait,
}

pub has_fd-insert_fd :
    (q fd : ℕ) (fds : List ℕ)
    → has_fd q (insert_fd fd fds) ≡ (if fd == q then true else has_fd q fds)
unfolding has_fd insert_fd
has_fd-insert_fd q fd [] = refl
has_fd-insert_fd q fd (x ∷ fds) = ground (arith, has_fd-insert_fd q fd fds)

pub has_fd-erase_fd :
    (q fd : ℕ) (fds : List ℕ)
    → has_fd q (erase_fd fd fds) ≡ (if fd == q then false else has_fd q fds)
unfolding has_fd erase_fd
has_fd-erase_fd q fd [] = ground arith
has_fd-erase_fd q fd (x ∷ fds) = ground (arith, has_fd-erase_fd q fd fds)

-- What the documentation of `epoll_ctl` says of the descriptors that the kernel watches.
pub record Watches {W : Type 0} (k : Kernel W) : Type 0 where
  pub watched : W → ℕ → Bool
  pub watched-add :
      (fd q : ℕ) (events : Bits) (w : W)
      → watched (k.ctl_add fd events w).0 q
        ≡ (if (k.ctl_add fd events w).1 && fd == q then true else watched w q)
  pub watched-mod :
      (fd q : ℕ) (events : Bits) (w : W) → watched (k.ctl_mod fd events w).0 q ≡ watched w q
  pub watched-del :
      (fd q : ℕ) (w : W)
      → watched (k.ctl_del fd w).0 q
        ≡ (if (k.ctl_del fd w).1 && fd == q then false else watched w q)
  pub watched-wait : (size q : ℕ) (w : W) → watched (k.epoll_wait size w).0 q ≡ watched w q

module _ {W : Type 0} (k : Kernel W) (law : Watches k) where
  -- Every descriptor that the kernel watches is in `mFds`.
  abbrev pub IsCovered : Manager W → Type 0
  IsCovered m = (q : ℕ) → law.watched m.world q ≡ true → has_fd q m.fds ≡ true

  -- The user's functions keep this.
  pub record Keeps (h : Handlers W) : Type 0 where
    pub on_read : (e : Event) (m : Manager W) → IsCovered m → IsCovered (h.read_func e m).0
    pub on_write : (e : Event) (m : Manager W) → IsCovered m → IsCovered (h.write_func e m).0
    pub on_delete :
        (f : ℕ → Manager W → Manager W) (fd : ℕ) (m : Manager W)
        → h.delete_func ≡ some f
        → IsCovered m
        → IsCovered (f fd m)

  add_or_mod_fd-IsCovered :
      (fd : ℕ) (events : Bits) (m : Manager W)
      → IsCovered m
      → IsCovered (add_or_mod_fd k fd events m).0
  unfolding add_or_mod_fd
  add_or_mod_fd-IsCovered fd events m c = elim (Bool-cases (has_fd fd m.fds)) [
    | inl e ↦ rw e (λ q w. c q (sym (law.watched-mod fd q events m.world) ∙ w))
    | inr e ↦ rw e (λ q w.
        ground (arith, has_fd-insert_fd q fd m.fds, law.watched-add fd q events m.world, c q))
  ]

  del_fd-IsCovered : (fd : ℕ) (m : Manager W) → IsCovered m → IsCovered (del_fd k fd m).0
  unfolding del_fd
  del_fd-IsCovered fd m c = elim (Bool-cases (k.ctl_del fd m.world).1) [
    | inl e ↦
        rw e (λ q w. ground (arith, has_fd-erase_fd q fd m.fds, law.watched-del fd q m.world, c q))
    | inr e ↦ rw e (λ q w. ground (arith, law.watched-del fd q m.world, c q))
  ]

  module _ (h : Handlers W) (keeps : Keeps h) where
    tell_deleted-IsCovered :
        (o : Option (ℕ → Manager W → Manager W)) (fd : ℕ) (m : Manager W) (e : Ending)
        → h.delete_func ≡ o
        → IsCovered m
        → IsCovered (tell_deleted k h o fd (m, e)).0
    tell_deleted-IsCovered none fd m e s c = c
    tell_deleted-IsCovered (some f) fd m returned s c = keeps.on_delete f fd m s c
    tell_deleted-IsCovered (some f) fd m thrown s c = c

    drop_event-IsCovered :
        (e : Event) (m : Manager W) → IsCovered m → IsCovered (drop_event k h e m).0
    unfolding drop_event
    drop_event-IsCovered e m c =
        let r = del_fd k e.fd m in
        tell_deleted-IsCovered h.delete_func e.fd r.0 r.1 refl (del_fd-IsCovered e.fd m c)

    after_func-IsCovered :
        (fd : ℕ) (events : Bits) (m : Manager W) (b : Bool) (e : Event)
        → IsCovered m
        → IsCovered (drop_failed k h (after_func k fd events (m, (b, e)))).0
    after_func-IsCovered fd events m true e c = add_or_mod_fd-IsCovered fd events m c
    after_func-IsCovered fd events m false e c = drop_event-IsCovered e m c

    on_event-IsCovered : (e : Event) (m : Manager W) → IsCovered m → IsCovered (on_event k h e m).0
    unfolding on_event proc_read proc_write
    on_event-IsCovered e m c =
        let r = h.read_func e m in
        let w = h.write_func e m in
        by_bits e.events.in_bit e.events.rdhup_bit e.events.out_bit _ _ _ _
          (drop_event-IsCovered e m c)
          (after_func-IsCovered e.fd out_rdhup r.0 r.1.0 r.1.1 (keeps.on_read e m c))
          (after_func-IsCovered e.fd in_rdhup w.0 w.1.0 w.1.1 (keeps.on_write e m c)) c
      where
        by_bits :
            (i r o : Bool) (a b d n : Manager W × Ending)
            → IsCovered a.0
            → IsCovered b.0
            → IsCovered d.0
            → IsCovered n.0
            → IsCovered (if i then (if r then a else b) else if o then d else n).0
        by_bits true true o a b d n p q s t = p
        by_bits true false o a b d n p q s t = q
        by_bits false r true a b d n p q s t = s
        by_bits false r false a b d n p q s t = t

    on_events-IsCovered :
        (events : List Event) (m : Manager W) → IsCovered m → IsCovered (on_events k h events m).0
    unfolding on_events
    on_events-IsCovered [] m c = c
    on_events-IsCovered (e ∷ events) m c =
        go (on_event k h e m) (on_event-IsCovered e m c) (on_events-IsCovered events)
      where
        go :
            (r : Manager W × Ending)
            → IsCovered r.0
            → ((m : Manager W) → IsCovered m → IsCovered (on_events k h events m).0)
            → IsCovered (unless_thrown k h (on_events k h events) r).0
        go (m', returned) c' next = next m' c'
        go (m', thrown) c' next = c'

    on_waited-IsCovered :
        (o : Option (List Event)) (m : Manager W) → IsCovered m → IsCovered (on_waited k h m o).0
    on_waited-IsCovered none m c = c
    on_waited-IsCovered (some events) m c = on_events-IsCovered events m c

    -- Whatever events come, whichever calls fail and wherever an exception ends it, `Wait` keeps that
    -- every descriptor that the kernel watches is in `mFds`, where the user's functions keep it.
    pub wait-IsCovered : (m : Manager W) → IsCovered m → IsCovered (wait k h m).0
    unfolding wait
    wait-IsCovered m c =
        let r = k.epoll_wait (grown k h m).events_size m.world in
        on_waited-IsCovered r.1 (record (grown k h m) { world = r.0 })
          (λ q w. c q (sym (law.watched-wait (grown k h m).events_size q m.world) ∙ w))
