-- ===== src/Zookeeper/Rewatch/Tests.antt =====
-- `ReconnectResumeEnv` of src/CppZookeeper.cpp over a server that keeps the calls, the last one first, and
-- fails at each of them.
use moon_lib.Common.{◌≡◌, refl, true, false, List, [], ◌∷◌, ◌++◌, ◌==◌, if◌then◌else◌}
use moon_lib.Text.{str_eq, str_less}
use moon_lib.Text.Dict.{find}
use moon_lib.Zookeeper.{
  failed, Manager, watcher_get, watcher_exists, watcher_get_children, mask_or, exists, get_children,
  change_to_abs_path,
}
use moon_lib.Zookeeper.Requests.{exists_global, get_global, get_children_global}
use moon_lib.Zookeeper.Rewatch.{
  Call, ask_exists, ask_get, ask_get_children, ask_wexists, ask_wget_children, Server, keys,
  insert_keyed, in_key_order, watch_node, watch_children, resume_path, resume_paths, resume_custom,
  resume_customs, resume_watchers,
}
use moon_lib.Zookeeper.Rewatch.Asked.{asked_paths, asked_contexts, Asks, resume_watchers-Asks}

abbrev recording : Server (List Call)
recording call s = (call ∷ s, failed 4)

abbrev manager : Manager
manager = record {
  root_path = b'/' ∷ [];
  global_types =
      (b'/' ∷ b'a' ∷ [], mask_or watcher_exists watcher_get_children)
      ∷ (b'/' ∷ b'b' ∷ [], watcher_get)
      ∷ [];
  custom = (b'/' ∷ b'd' ∷ [], 1) ∷ (b'/' ∷ b'c' ∷ [], 2) ∷ [];
  contexts = λ i. record {
    kind = if i == 1 then exists else get_children;
    is_stop = false;
    auto_reg = true;
  };
  ephemerals = [];
}

watchers_run :
    (resume_watchers recording [] manager).0
    ≡ ask_wexists (b'/' ∷ b'd' ∷ []) 1
      ∷ ask_wget_children (b'/' ∷ b'c' ∷ []) 2
      ∷ ask_get (b'/' ∷ b'b' ∷ [])
      ∷ ask_get_children (b'/' ∷ b'a' ∷ [])
      ∷ ask_exists (b'/' ∷ b'a' ∷ [])
      ∷ []
unfolding resume_watchers resume_paths resume_path watch_node watch_children resume_customs
    resume_custom insert_keyed in_key_order change_to_abs_path find str_eq str_less exists_global
    get_global get_children_global
watchers_run = refl

resume_watchers-Asks_example :
    Asks recording
      (asked_paths manager (keys manager.global_types)
        ++ asked_contexts manager (in_key_order [] manager.custom))
      []
      manager
      (resume_watchers recording [] manager)
resume_watchers-Asks_example = resume_watchers-Asks recording [] manager
