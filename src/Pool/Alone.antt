-- ===== src/Pool/Alone.antt =====
-- One worker of src/CppThread.cpp that steps while no other thread does.
use moon_lib.Common.{
  ℕ, ◌≡◌, ◌⊎◌, inl, inr, refl, sym, ap, ap₂, ◌∙◌, subst, Bool, true, List, ◌∷◌, some, get_elem?,
  set,
}
use moon_lib.Pool.{
  Task, Shared, finish, Pc, Move, System, Reach, work, here, later, inner, taken, draining,
}

-- A move in which a call throws where it is said to, by the function that is called.
abbrev pub EndsBy : (ℕ → Bool) → {m m' : Shared} {p p' : Pc} → Move m p m' p' → Type 0
EndsBy aborts (Move.returned {t} abort) = abort ≡ aborts t.fun
EndsBy aborts _ = Unit

-- Worker i moves from s to u, and no other thread does.
pub data Alone (aborts : ℕ → Bool) (i : ℕ) (s : System) : System → Type 0 where
  idle : Alone aborts i s s
  then_move :
      {t : System} {m : Shared} {p q : Pc}
      → Alone aborts i s t
      → get_elem? t.pcs i ≡ some p
      → (mv : Move t.mem p m q) → EndsBy aborts mv
      → Alone aborts i s (record { mem = m; pcs = set t.pcs i q })

-- Such moves are steps of the pool.
pub Alone-Reach : {aborts : ℕ → Bool} {i : ℕ} {s u : System} → Alone aborts i s u → Reach s u
Alone-Reach idle = here
Alone-Reach {i = i} (then_move r at mv e) = later (Alone-Reach r) (work i at mv)

abbrev After : Shared → Pc → Shared × Pc
After m p = (m, p)

task_eq : {t u : Task} {ts us l : List Task} → l ≡ t ∷ ts → l ≡ u ∷ us → (t ≡ u) × (ts ≡ us)
task_eq h k = (cc, cc)

-- A worker has one move at most.
move_once :
    (aborts : ℕ → Bool) {m m1 m2 : Shared} {p p1 p2 : Pc} (a : Move m p m1 p1)
    → EndsBy aborts a
    → (b : Move m p m2 p2) → EndsBy aborts b
    → After m1 p1 ≡ After m2 p2
move_once aborts (Move.outer_go s) x (Move.outer_go s') y = refl
move_once aborts (Move.outer_go s) x (Move.outer_stop s') y = absurd (cc)
move_once aborts (Move.outer_stop s) x (Move.outer_go s') y = absurd (cc)
move_once aborts (Move.outer_stop s) x (Move.outer_stop s') y = refl
move_once aborts (Move.wake_task h l) x (Move.wake_task h' l') y = refl
move_once aborts (Move.wake_task h l) x (Move.wake_stop h' l') y = refl
move_once aborts (Move.wake_stop h l) x (Move.wake_task h' l') y = refl
move_once aborts (Move.wake_stop h l) x (Move.wake_stop h' l') y = refl
move_once aborts (Move.woken_go s) x (Move.woken_go s') y = refl
move_once aborts (Move.woken_go s) x (Move.woken_stop s') y = absurd (cc)
move_once aborts (Move.woken_stop s) x (Move.woken_go s') y = absurd (cc)
move_once aborts (Move.woken_stop s) x (Move.woken_stop s') y = refl
move_once aborts (Move.inner_go s) x (Move.inner_go s') y = refl
move_once aborts (Move.inner_go s) x (Move.inner_stop s') y = absurd (cc)
move_once aborts (Move.inner_stop s) x (Move.inner_go s') y = absurd (cc)
move_once aborts (Move.inner_stop s) x (Move.inner_stop s') y = refl
move_once aborts (Move.take_empty h l) x (Move.take_empty h' l') y = refl
move_once aborts (Move.take_empty h l) x (Move.take_stop h' s') y = refl
move_once aborts (Move.take_empty h l) x (Move.take h' s' l') y = absurd (cc)
move_once aborts (Move.take_stop h s) x (Move.take_empty h' l') y = refl
move_once aborts (Move.take_stop h s) x (Move.take_stop h' s') y = refl
move_once aborts (Move.take_stop h s) x (Move.take h' s' l') y = absurd (cc)
move_once aborts (Move.take h s l) x (Move.take_empty h' l') y = absurd (cc)
move_once aborts (Move.take h s l) x (Move.take_stop h' s') y = absurd (cc)
move_once aborts {m = m} (Move.take h s l) x (Move.take h' s' l') y =
    let (t_eq, ts_eq) = task_eq l l' in
    ap₂ (λ t ts. After (record m { fun_list = ts }) (taken t)) t_eq ts_eq
move_once aborts (Move.skip f) x (Move.skip f') y = refl
move_once aborts (Move.skip f) x (Move.call f') y = absurd (cc)
move_once aborts (Move.call f) x (Move.skip f') y = absurd (cc)
move_once aborts (Move.call f) x (Move.call f') y = refl
move_once aborts {m = m} (Move.returned {t} a) x (Move.returned b) y =
    ap (λ c. After (finish t.context c m) inner) (x ∙ sym y)
move_once aborts (Move.last_lock h) x (Move.last_lock h') y = refl
move_once aborts {m = m} (Move.drain_front l) x (Move.drain_front l') y =
    ap (λ t. After (finish t.context true m) draining) (task_eq l l').0
move_once aborts (Move.drain_front l) x (Move.drain_end l') y = absurd (cc)
move_once aborts (Move.drain_end l) x (Move.drain_front l') y = absurd (cc)
move_once aborts (Move.drain_end l) x (Move.drain_end l') y = refl

-- Two moves from one place lead to the same one.
moves_meet :
    (aborts : ℕ → Bool) (i : ℕ) (t : System) {m1 m2 : Shared} {p p' q1 q2 : Pc}
    → get_elem? t.pcs i ≡ some p
    → (a : Move t.mem p m1 q1) → EndsBy aborts a
    → get_elem? t.pcs i ≡ some p'
    → (b : Move t.mem p' m2 q2) → EndsBy aborts b
    → ◌≡◌ {A = System}
        (record { mem = m1; pcs = set t.pcs i q1 })
        (record { mem = m2; pcs = set t.pcs i q2 })
moves_meet aborts i t {m1} {m2} {p} {p'} {q1} {q2} at a x at' b y =
    let same : p ≡ p' = same_pc (sym at ∙ at') in
    let once : After m1 q1 ≡ After m2 q2 =
      subst (λ r. (b : Move t.mem r m2 q2) → EndsBy aborts b → After m1 q1 ≡ After m2 q2) same
        (λ b y. move_once aborts a x b y) b y in
    ap (λ (r : Shared × Pc). record { mem = r.0; pcs = set t.pcs i r.1 }) once
  where
    same_pc : {p p' : Pc} → some p ≡ some p' → p ≡ p'
    same_pc e = cc

-- A longer run goes by where one move from its beginning leads.
passed :
    (aborts : ℕ → Bool) (i : ℕ) {t u : System} {m m' : Shared} {p p' q q' : Pc}
    → get_elem? t.pcs i ≡ some p
    → (a : Move t.mem p m q) → EndsBy aborts a
    → Alone aborts i t u
    → get_elem? u.pcs i ≡ some p'
    → (b : Move u.mem p' m' q') → EndsBy aborts b
    → Alone aborts i
        (record { mem = m; pcs = set t.pcs i q })
        (record { mem = m'; pcs = set u.pcs i q' })
passed aborts i {t} {m = m} {q = q} at a x idle at' b y =
    subst (Alone aborts i (record { mem = m; pcs = set t.pcs i q }))
      (moves_meet aborts i t at a x at' b y) idle
passed aborts i at a x (then_move r at1 mv1 e1) at' b y =
    then_move (passed aborts i at a x r at1 mv1 e1) at' b y

meet :
    (aborts : ℕ → Bool) (i : ℕ) {t u : System} {m : Shared} {p q : Pc}
    → get_elem? t.pcs i ≡ some p
    → (a : Move t.mem p m q) → EndsBy aborts a
    → Alone aborts i u t ⊎ Alone aborts i t u
    → Alone aborts i u (record { mem = m; pcs = set t.pcs i q })
      ⊎ Alone aborts i (record { mem = m; pcs = set t.pcs i q }) u
meet aborts i at a x (inl r) = inl (then_move r at a x)
meet aborts i at a x (inr idle) = inl (then_move idle at a x)
meet aborts i at a x (inr (then_move r at1 mv1 e1)) = inr (passed aborts i at a x r at1 mv1 e1)

-- Of two runs from one place, one goes on from where the other has come to.
pub Alone-Alone :
    (aborts : ℕ → Bool) (i : ℕ) {s u v : System}
    → Alone aborts i s u
    → Alone aborts i s v
    → Alone aborts i u v ⊎ Alone aborts i v u
Alone-Alone aborts i r idle = inr r
Alone-Alone aborts i r (then_move q at mv e) = meet aborts i at mv e (Alone-Alone aborts i r q)
