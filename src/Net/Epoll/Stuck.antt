-- ===== src/Net/Epoll/Stuck.antt =====
-- CppEpollManager of src/CppNet.cpp after `epoll_ctl` has refused a descriptor.
use moon_lib.Common.{ℕ, ◌≡◌, refl, ap, ◌∙◌, true, false, List, [], ◌∷◌, arith}
use moon_lib.Net.Epoll.{
  Bits, Manager, has_fd, insert_fd, Kernel, Ending, thrown, ending, add_or_mod_fd, del_fd,
}
use moon_lib.Net.Epoll.Covered.{Watches, has_fd-insert_fd}

-- A call for one descriptor.
pub data Attempt : Type 0 where
  add_or_mod : Bits → Attempt
  del : Attempt

module _ {W : Type 0} (k : Kernel W) where
  unfoldable pub attempt : ℕ → Attempt → Manager W → Manager W × Ending
  attempt fd (add_or_mod events) m = add_or_mod_fd k fd events m
  attempt fd del m = del_fd k fd m

  -- How the calls end, one after the other.
  unfoldable pub attempts : ℕ → List Attempt → Manager W → List Ending
  attempts fd [] m = []
  attempts fd (a ∷ l) m = let (m', e) = attempt fd a m in e ∷ attempts fd l m'

  abbrev pub AllThrown : List Ending → Type 0
  AllThrown [] = Unit
  AllThrown (e ∷ l) = (e ≡ thrown) × AllThrown l

  -- The kernel refuses to change or delete a descriptor that it does not watch.
  pub record Refuses (law : Watches k) : Type 0 where
    pub mod_refused :
        (fd : ℕ) (events : Bits) (w : W)
        → law.watched w fd ≡ false
        → (k.ctl_mod fd events w).1 ≡ false
    pub del_refused : (fd : ℕ) (w : W) → law.watched w fd ≡ false → (k.ctl_del fd w).1 ≡ false

  module _ (law : Watches k) (refuses : Refuses law) where
    abbrev IsLost : ℕ → Manager W → Type 0
    IsLost fd m = (has_fd fd m.fds ≡ true) × (law.watched m.world fd ≡ false)

    attempt-IsLost :
        (fd : ℕ) (a : Attempt) (m : Manager W)
        → IsLost fd m
        → ((attempt fd a m).1 ≡ thrown) × IsLost fd (attempt fd a m).0
    unfolding attempt add_or_mod_fd del_fd
    attempt-IsLost fd (add_or_mod events) m (there, gone) = rw there (
      ap ending (refuses.mod_refused fd events m.world gone),
      (there, law.watched-mod fd fd events m.world ∙ gone),
    )
    attempt-IsLost fd del m (there, gone) =
        let no_ = refuses.del_refused fd m.world gone in
        rw no_ (refl, (there, law.watched-del fd fd m.world ∙ rw no_ gone))

    attempts-AllThrown :
        (fd : ℕ) (l : List Attempt) (m : Manager W) → IsLost fd m → AllThrown (attempts fd l m)
    unfolding attempts
    attempts-AllThrown fd [] m h = tt
    attempts-AllThrown fd (a ∷ l) m h =
        let (e, lost) = attempt-IsLost fd a m h in
        (e, attempts-AllThrown fd l (attempt fd a m).0 lost)

    -- When the kernel refuses to add a descriptor that is new to the manager and is not watched, that
    -- call throws, and so does every later call to add it, to change it or to delete it.
    pub refused_forever :
        (fd : ℕ) (events : Bits) (l : List Attempt) (m : Manager W)
        → has_fd fd m.fds ≡ false
        → law.watched m.world fd ≡ false
        → (k.ctl_add fd events m.world).1 ≡ false
        → AllThrown (attempts fd (add_or_mod events ∷ l) m)
    unfolding attempts attempt add_or_mod_fd
    refused_forever fd events l m new gone refused = rw new (
      ap ending refused,
      attempts-AllThrown fd l
          (record m { fds = insert_fd fd m.fds; world = (k.ctl_add fd events m.world).0 })
          (
            has_fd-insert_fd fd fd m.fds ∙ ground arith,
            law.watched-add fd fd events m.world ∙ rw refused gone,
          ),
    )
