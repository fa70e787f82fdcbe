-- ===== src/Pool/Order.antt =====
-- A worker of src/CppThread.cpp empties the list in its order.
use moon_lib.Common.{
  ℕ, zero, suc, ◌≡◌, ◌≢◌, ◌⊎◌, ◌==◌, refl, sym, ap, ◌∙◌, Bool, true, false, List, [], ◌∷◌, ◌++◌,
  map, some, arith, get_elem?, set,
}
use mathlib.Core.List.{append_assoc, append-nil, map-append}
use moon_lib.Pool.Alone.{Alone, idle, then_move, Alone-Alone}
use moon_lib.Pool.{Context, Task, Shared, finish, Pc, Move, System, inner, taking, taken, running}

-- The tasks have contexts of their own, none of them finished.
abbrev pub Apart : ℕ → List Task → Type 0
Apart c [] = Unit
Apart c (t ∷ ts) = (c ≢ t.context) × Apart c ts

abbrev pub IsFresh : List Task → (ℕ → Context) → Type 0
IsFresh [] cs = Unit
IsFresh (t ∷ ts) cs = ((cs t.context).is_finish ≡ false) × Apart t.context ts × IsFresh ts cs

-- Every context is finished, and tells whether the call has thrown.
abbrev pub AllEnded : (ℕ → Bool) → List Task → (ℕ → Context) → Type 0
AllEnded aborts [] cs = Unit
AllEnded aborts (t ∷ ts) cs =
    (cs t.context ≡ record { is_finish = true; is_abort = aborts t.fun }) × AllEnded aborts ts cs

-- Worker i is at the inner loop, and may take a task.
abbrev pub IsReady : System → ℕ → Type 0
IsReady s i = (get_elem? s.pcs i ≡ some inner) × (s.mem.stop ≡ false) × (s.mem.held ≡ false)

Alone-trans :
    {aborts : ℕ → Bool} {i : ℕ} {s t u : System}
    → Alone aborts i s t
    → Alone aborts i t u
    → Alone aborts i s u
Alone-trans r idle = r
Alone-trans r (then_move q at mv e) = then_move (Alone-trans r q) at mv e

get-set :
    (pcs : List Pc) (i : ℕ) {p : Pc} (q : Pc)
    → get_elem? pcs i ≡ some p
    → get_elem? (set pcs i q) i ≡ some q
get-set [] i q e = cc
get-set (x ∷ xs) zero q e = refl
get-set (x ∷ xs) (suc i) q e = get-set xs i q e

finish-IsFresh :
    (c : ℕ) (b : Bool) (ts : List Task) (m : Shared)
    → Apart c ts
    → IsFresh ts m.contexts
    → IsFresh ts (finish c b m).contexts
unfolding finish
finish-IsFresh c b [] m a h = tt
finish-IsFresh c b (t ∷ ts) m (ne, a) (f, ap, h) = (ground arith, ap, finish-IsFresh c b ts m a h)

finished_self :
    (c : ℕ) (b : Bool) (m : Shared)
    → (finish c b m).contexts c ≡ record { is_finish = true; is_abort = b }
unfolding finish
finished_self c b m = let self : (c == c) ≡ true = ground arith in rw self refl

finished-other :
    (c d : ℕ) (b : Bool) (m : Shared) → d ≢ c → (finish c b m).contexts d ≡ m.contexts d
unfolding finish
finished-other c d b m n = let other : (c == d) ≡ false = ground arith in rw other refl

-- A number that is none of the tasks' contexts.
abbrev pub IsOutside : ℕ → List Task → Type 0
IsOutside d [] = Unit
IsOutside d (t ∷ ts) = (d ≢ t.context) × IsOutside d ts

Apart-IsOutside : (c : ℕ) (ts : List Task) → Apart c ts → IsOutside c ts
Apart-IsOutside c [] a = tt
Apart-IsOutside c (t ∷ ts) (n, a) = (n, Apart-IsOutside c ts a)

append-IsOutside :
    (d : ℕ) (xs ys : List Task) → IsOutside d (xs ++ ys) → IsOutside d xs × IsOutside d ys
append-IsOutside d [] ys h = (tt, h)
append-IsOutside d (x ∷ xs) ys (n, h) = let (k, l) = append-IsOutside d xs ys h in ((n, k), l)

-- What a run of worker i alone from s to u does with the tasks.
pub record Ran (aborts : ℕ → Bool) (s u : System) (i : ℕ) (ts rest : List Task) : Type 0 where
  pub alone : Alone aborts i s u
  pub ready : IsReady u i
  pub list : u.mem.fun_list ≡ rest
  pub calls : u.mem.calls ≡ s.mem.calls ++ map (λ t. t.fun) ts
  pub others : (d : ℕ) → IsOutside d ts → u.mem.contexts d ≡ s.mem.contexts d

-- One task.
one_task :
    (aborts : ℕ → Bool) (s : System) (i : ℕ) (t : Task) (ts : List Task)
    → IsReady s i
    → s.mem.fun_list ≡ t ∷ ts
    → (s.mem.contexts t.context).is_finish ≡ false
    → (u : System) × Ran aborts s u i (t ∷ []) ts
      × (u.mem.contexts ≡ (finish t.context (aborts t.fun) s.mem).contexts)
unfolding finish
one_task aborts s i t ts (at, stop, held) e fresh =
    let pcs1 = set s.pcs i taking in
    let at1 = get-set s.pcs i taking at in
    let pcs2 = set pcs1 i (taken t) in
    let at2 = get-set pcs1 i (taken t) at1 in
    let pcs3 = set pcs2 i (running t) in
    let at3 = get-set pcs2 i (running t) at2 in
    (
      _,
      record {
        alone =
            then_move
              (then_move
                (then_move (then_move idle at (Move.inner_go stop) tt) at1 (Move.take held stop e)
                  tt)
                at2 (Move.call fresh) tt)
              at3 (Move.returned (aborts t.fun)) refl;
        ready = (get-set pcs3 i inner at3, stop, held);
        list = refl;
        calls = refl;
        others = λ d (n, _). finished-other t.context d (aborts t.fun) s.mem n;
      },
      refl,
    )

Ran-trans :
    {aborts : ℕ → Bool} {s t u : System} {i : ℕ} {xs ys mid rest : List Task}
    → Ran aborts s t i xs mid
    → Ran aborts t u i ys rest
    → Ran aborts s u i (xs ++ ys) rest
Ran-trans {s} {xs = xs} {ys = ys} a b = record {
  alone = Alone-trans a.alone b.alone;
  ready = b.ready;
  list = b.list;
  calls =
      b.calls
      ∙ ap (λ c. c ++ map (λ t. t.fun) ys) a.calls
      ∙ append_assoc s.mem.calls (map (λ t. t.fun) xs) (map (λ t. t.fun) ys)
      ∙ ap (λ c. s.mem.calls ++ c) (sym (map-append (λ t. t.fun) xs ys));
  others = λ d h. let (k, l) = append-IsOutside d xs ys h in b.others d l ∙ a.others d k;
}

-- The run of a ready worker through the tasks.
run_through :
    (aborts : ℕ → Bool) (s : System) (i : ℕ) (ts : List Task)
    → IsReady s i
    → s.mem.fun_list ≡ ts
    → IsFresh ts s.mem.contexts
    → (v : System) × Ran aborts s v i ts [] × AllEnded aborts ts v.mem.contexts
run_through aborts s i [] r e f = (
  s,
  record {
    alone = idle;
    ready = r;
    list = e;
    calls = sym (append-nil s.mem.calls);
    others = λ d h. refl;
  },
  tt,
)
run_through aborts s i (t ∷ ts) r e (open_, apart, f) =
    let (w, first, cs) = one_task aborts s i t ts r e open_ in
    let f' : IsFresh ts w.mem.contexts =
      rw cs (finish-IsFresh t.context (aborts t.fun) ts s.mem apart f) in
    let (v, rest, all) = run_through aborts w i ts first.ready first.list f' in
    let ended : v.mem.contexts t.context ≡ record { is_finish = true; is_abort = aborts t.fun } =
      rest.others t.context (Apart-IsOutside t.context ts apart)
      ∙ ap (λ c. c t.context) cs
      ∙ finished_self t.context (aborts t.fun) s.mem in
    (v, Ran-trans first rest, (ended, all))

-- Let a worker at its inner loop, in a pool that is not stopped, step alone from s to u, with a list of
-- tasks whose contexts are apart and not finished at s, and let each call throw or not. There is a place
-- v where the list is empty, its tasks have been called in order, and each context is finished and
-- tells whether its call has thrown. The worker alone comes from s to v, and u lies on its way to v, or
-- v on its way to u.
pub empties_in_order :
    (aborts : ℕ → Bool) (s u : System) (i : ℕ) (ts : List Task)
    → IsReady s i
    → s.mem.fun_list ≡ ts
    → IsFresh ts s.mem.contexts
    → Alone aborts i s u
    → (v : System) × Ran aborts s v i ts []
      × AllEnded aborts ts v.mem.contexts
      × (Alone aborts i u v ⊎ Alone aborts i v u)
empties_in_order aborts s u i ts r e f q =
    let (v, ran, all) = run_through aborts s i ts r e f in
    (v, ran, all, Alone-Alone aborts i q ran.alone)
