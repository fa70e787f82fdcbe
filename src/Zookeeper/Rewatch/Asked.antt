-- ===== src/Zookeeper/Rewatch/Asked.antt =====
-- What the first two loops of `ReconnectResumeEnv` of src/CppZookeeper.cpp ask the server.
use moon_lib.Common.{
  ℕ, ◌≡◌, refl, sym, ap, subst, ◌∙◌, true, List, [], ◌∷◌, ◌++◌, if◌then◌else◌, inl, inr, Bool-cases,
}
use moon_lib.Text.Dict.{find}
use moon_lib.Zookeeper.{
  Mask, watcher_get, watcher_exists, watcher_get_children, or_zero, covers, Kind, not_watcher,
  global, exists, get, get_children, Manager, change_to_abs_path,
}
use moon_lib.Zookeeper.Absolute.{absolute_stays}
use moon_lib.Zookeeper.Rewatch.Tables.{
  HasTables, HasTables-refl, HasTables-trans, is_absolute-IsAbsolute, exists_global-HasTables,
  get_global-HasTables, get_children_global-HasTables,
}
use moon_lib.Zookeeper.Rewatch.{
  Call, ask_exists, ask_get, ask_get_children, ask_wexists, ask_wget, ask_wget_children, Server,
  is_absolute, keys, in_key_order, watch_node, watch_children, types_of, resume_path, resume_paths,
  resume_custom, resume_customs, resume_watchers,
}

-- The calls for one path: of Exists and Get the stronger one, and GetChildren.
abbrev pub asked_node : List ℕ → Mask → List Call
asked_node path types =
    if covers types watcher_exists
    then ask_exists path ∷ []
    else if covers types watcher_get
    then ask_get path ∷ []
    else []

abbrev pub asked_children : List ℕ → Mask → List Call
asked_children path types =
    if covers types watcher_get_children then ask_get_children path ∷ [] else []

-- The calls for the paths, and for the contexts.
unfoldable pub asked_paths : Manager → List (List ℕ) → List Call
asked_paths m [] = []
asked_paths m (path ∷ paths) =
    let types = or_zero (find path m.global_types) in
    let rest = asked_paths m paths in
    if is_absolute path then asked_node path types ++ (asked_children path types ++ rest) else rest

abbrev pub asked_context : List ℕ → ℕ → Kind → List Call
asked_context path id not_watcher = []
asked_context path id global = []
asked_context path id exists = ask_wexists path id ∷ []
asked_context path id get = ask_wget path id ∷ []
asked_context path id get_children = ask_wget_children path id ∷ []

unfoldable pub asked_contexts : Manager → List (List ℕ × ℕ) → List Call
asked_contexts m [] = []
asked_contexts m ((path, id) ∷ l) = asked_context path id (m.contexts id).kind ++ asked_contexts m l

module _ {S : Type 0} (server : Server S) where
  -- The server after some calls.
  unfoldable pub sends : List Call → S → S
  sends [] s = s
  sends (c ∷ l) s = sends l (server c s).0

  sends-append : (l l' : List Call) (s : S) → sends (l ++ l') s ≡ sends l' (sends l s)
  unfolding sends
  sends-append [] l' s = refl
  sends-append (c ∷ l) l' s = sends-append l l' (server c s).0

  -- The server has seen these calls, and the manager has the tables that it had.
  pub record Asks (l : List Call) (s : S) (m : Manager) (r : S × Manager) : Type 0 where
    pub server_asked : r.0 ≡ sends l s
    pub tables_kept : HasTables m r.1

  Asks-then :
      (l l' : List Call) (s : S) (m : Manager) (r r' : S × Manager)
      → Asks l s m r
      → Asks l' r.0 r.1 r'
      → Asks (l ++ l') s m r'
  Asks-then l l' s m r r' h k = record {
    server_asked = k.server_asked ∙ ap (sends l') h.server_asked ∙ sym (sends-append l l' s);
    tables_kept = HasTables-trans m r.1 r'.1 h.tables_kept k.tables_kept;
  }

  watch_node-Asks :
      (path : List ℕ) (s : S) (m : Manager)
      → is_absolute path ≡ true
      → Asks
          (asked_node path (types_of server path m))
          s
          m
          (watch_node server path (types_of server path m) s m)
  unfolding watch_node sends
  watch_node-Asks path s m a =
      let there = absolute_stays m path (is_absolute-IsAbsolute path a) in
      let types = types_of server path m in
      elim (Bool-cases (covers types watcher_exists)) [
        | inl e ↦ rw e (record {
          server_asked = rw there refl;
          tables_kept =
              exists_global-HasTables (server (ask_exists (change_to_abs_path m path)) s).1 path m a
                e;
        })
        | inr e ↦ elim (Bool-cases (covers types watcher_get)) [
          | inl f ↦
              rw (e, f)
                (record {
                  server_asked = rw there refl;
                  tables_kept =
                      get_global-HasTables (server (ask_get (change_to_abs_path m path)) s).1 path m
                        a f;
                })
          | inr f ↦ rw (e, f) (record { server_asked = refl; tables_kept = HasTables-refl m })
        ]
      ]

  watch_children-Asks :
      (path : List ℕ) (s : S) (m : Manager)
      → is_absolute path ≡ true
      → Asks
          (asked_children path (types_of server path m))
          s
          m
          (watch_children server path (types_of server path m) s m)
  unfolding watch_children sends
  watch_children-Asks path s m a =
      let there = absolute_stays m path (is_absolute-IsAbsolute path a) in
      elim (Bool-cases (covers (types_of server path m) watcher_get_children)) [
        | inl e ↦ rw e (record {
          server_asked = rw there refl;
          tables_kept =
              get_children_global-HasTables
                (server (ask_get_children (change_to_abs_path m path)) s).1 path m a e;
        })
        | inr e ↦ rw e (record { server_asked = refl; tables_kept = HasTables-refl m })
      ]

  asked_paths-HasTables :
      (paths : List (List ℕ)) (m m' : Manager)
      → HasTables m m'
      → asked_paths m' paths ≡ asked_paths m paths
  unfolding asked_paths
  asked_paths-HasTables [] m m' h = refl
  asked_paths-HasTables (path ∷ paths) m m' h =
      rw (h.same_types path, asked_paths-HasTables paths m m' h) refl

  resume_paths-Asks :
      (paths : List (List ℕ)) (s : S) (m : Manager)
      → Asks (asked_paths m paths) s m (resume_paths server paths s m)
  unfolding resume_paths resume_path asked_paths
  resume_paths-Asks [] s m = record {
    server_asked = unfold sends in refl;
    tables_kept = HasTables-refl m;
  }
  resume_paths-Asks (path ∷ paths) s m = elim (Bool-cases (is_absolute path)) [
    | inl e ↦
        let r = watch_node server path (types_of server path m) s m in
        let h = watch_node-Asks path s m e in
        let r' = watch_children server path (types_of server path r.1) r.0 r.1 in
        let k = watch_children-Asks path r.0 r.1 e in
        let tables = HasTables-trans m r.1 r'.1 h.tables_kept k.tables_kept in
        let next = resume_paths-Asks paths r'.0 r'.1 in
        let last = resume_paths server paths r'.0 r'.1 in
        rw e (
          Asks-then (asked_node path (types_of server path m))
            (asked_children path (types_of server path m) ++ asked_paths m paths) s m r last h
            (Asks-then (asked_children path (types_of server path m)) (asked_paths m paths) r.0 r.1
              r' last
              (subst (λ t. Asks (asked_children path (or_zero t)) r.0 r.1 r')
                (h.tables_kept.same_types path) k)
              (subst (λ l. Asks l r'.0 r'.1 last) (asked_paths-HasTables paths m r'.1 tables)
                next)))
    | inr e ↦ rw e (resume_paths-Asks paths s m)
  ]

  resume_custom-sends :
      (path : List ℕ) (id : ℕ) (kind : Kind) (s : S)
      → resume_custom server path id kind s ≡ sends (asked_context path id kind) s
  unfolding resume_custom sends
  resume_custom-sends path id not_watcher s = refl
  resume_custom-sends path id global s = refl
  resume_custom-sends path id exists s = refl
  resume_custom-sends path id get s = refl
  resume_custom-sends path id get_children s = refl

  resume_customs-sends :
      (m m' : Manager) (l : List (List ℕ × ℕ)) (s : S)
      → m'.contexts ≡ m.contexts
      → resume_customs server m' l s ≡ sends (asked_contexts m l) s
  unfolding resume_customs asked_contexts
  resume_customs-sends m m' [] s h = unfold sends in refl
  resume_customs-sends m m' ((path, id) ∷ l) s h =
      rw (h, sends-append (asked_context path id (m.contexts id).kind) (asked_contexts m l) s)
        (resume_customs-sends m m' l (resume_custom server path id (m.contexts id).kind s) h
          ∙ ap (sends (asked_contexts m l)) (resume_custom-sends path id (m.contexts id).kind s))

  -- Whatever the server answers to each of them, the first two loops of `ReconnectResumeEnv` ask for every
  -- absolute path the stronger of Exists and Get that it is watched for, and GetChildren where it is
  -- watched for that, and then for each context of a watcher its own call, and nothing else. The tables
  -- stay as they were.
  pub resume_watchers-Asks :
      (s : S) (m : Manager)
      → Asks
          (asked_paths m (keys m.global_types) ++ asked_contexts m (in_key_order [] m.custom))
          s
          m
          (resume_watchers server s m)
  unfolding resume_watchers
  resume_watchers-Asks s m =
      let r = resume_paths server (keys m.global_types) s m in
      let h = resume_paths-Asks (keys m.global_types) s m in
      let customs = in_key_order [] m.custom in
      Asks-then (asked_paths m (keys m.global_types)) (asked_contexts m customs) s m r
        (resume_watchers server s m) h
        (record {
          server_asked =
              rw h.tables_kept.same_custom
                (resume_customs-sends m r.1 customs r.0 h.tables_kept.same_contexts);
          tables_kept = HasTables-refl r.1;
        })
