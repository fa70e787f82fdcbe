-- ===== src/Net/Press.antt =====
-- The figures of MultiThreadClientBase of src/CppNet.h and src/CppNet.cpp, and what its functions on a
-- connection do with them. There is one client thread, and a call of it is one step. The source shares
-- the figures with the thread of `Run` without a lock: what that thread does with the figures of the
-- period is open here.

pub mod Figures
pub mod Kept
mod Tests
use moon_lib.Common.{
  ℕ, zero, suc, ◌+◌, ◌%◌, ◌^◌, Bool, true, false, ◌||◌, Option, none, some, List, [], ◌∷◌, ◌++◌,
  ltb, ◌==◌, if◌then◌else◌,
}
use moon_lib.Common.Int.{ℤ, pos, negsuc}
use moon_lib.Time.{Timeval, timev_diff}

-- `gSuccessCount` and the fields after it.
pub record Stats : Type 0 where
  pub success_count : ℕ
  pub fail_count : ℕ
  pub total_time_us : ℕ
  pub min_time_us : ℕ
  pub max_time_us : ℕ
  pub curr_total_time_us : ℕ
  pub curr_min_time_us : ℕ
  pub curr_max_time_us : ℕ

-- The constructor.
abbrev pub new_stats : Stats
new_stats = record {
  success_count = 0;
  fail_count = 0;
  total_time_us = 0;
  min_time_us = 0;
  max_time_us = 0;
  curr_total_time_us = 0;
  curr_min_time_us = 0;
  curr_max_time_us = 0;
}

-- `mClientDatas` of the thread, by the time of sending, the figures, and what a subclass keeps.
pub record Press (U : Type 0) : Type 0 where
  pub send_times : List (ℕ × Timeval)
  pub stats : Stats
  pub own : U

-- `CheckResponse`, a virtual function, which may change what the subclass keeps.
abbrev pub CheckResponse : Type 0 → Type 0
CheckResponse U = ℕ → List ℕ → U → U × Bool

unfoldable pub send_time : ℕ → List (ℕ × Timeval) → Option Timeval
send_time fd [] = none
send_time fd ((x, t) ∷ l) = let rest = send_time fd l in if x == fd then some t else rest

-- An entry is written over where it stands.
unfoldable pub set_send_time : ℕ → Timeval → List (ℕ × Timeval) → List (ℕ × Timeval)
set_send_time fd t [] = (fd, t) ∷ []
set_send_time fd t ((x, u) ∷ l) =
    let rest = (x, u) ∷ set_send_time fd t l in if x == fd then (x, t) ∷ l else rest

unfoldable pub drop_send_time : ℕ → List (ℕ × Timeval) → List (ℕ × Timeval)
drop_send_time fd [] = []
drop_send_time fd ((x, t) ∷ l) =
    let rest = drop_send_time fd l in if x == fd then rest else (x, t) ∷ rest

-- The larger and the smaller time, where 0 is no time yet.
abbrev pub later_max : ℕ → ℕ → ℕ
later_max old used = if ltb old used then used else old

abbrev pub later_min : ℕ → ℕ → ℕ
later_min old used = if old == 0 || ltb used old then used else old

-- The figures with the time of one answer.
unfoldable pub add_time : ℕ → Stats → Stats
add_time used st = record st {
  total_time_us = (st.total_time_us + used) % 2 ^ 64;
  min_time_us = later_min st.min_time_us used;
  max_time_us = later_max st.max_time_us used;
  curr_total_time_us = (st.curr_total_time_us + used) % 2 ^ 64;
  curr_min_time_us = later_min st.curr_min_time_us used;
  curr_max_time_us = later_max st.curr_max_time_us used;
}

unfoldable pub count_response : Bool → Stats → Stats
count_response is_right st =
    if is_right
    then record st { success_count = (st.success_count + 1) % 2 ^ 64 }
    else record st { fail_count = (st.fail_count + 1) % 2 ^ 64 }

-- The loop of `read`, with what the calls give before the first one that gives nothing.
unfoldable pub read_all : List (List ℕ) → List ℕ
read_all [] = []
read_all (buf ∷ rest) = buf ++ read_all rest

module _ {U : Type 0} (check_response : CheckResponse U) where
  -- `ProcRead` after the time that was used: false is a failure.
  abbrev pub read_used : ℕ → List (List ℕ) → ℤ → Press U → Press U × Bool
  read_used fd reads (negsuc n) p = (p, false)
  read_used fd reads (pos zero) p = (p, false)
  read_used fd reads (pos (suc n)) p =
      let (own, is_right) = check_response fd (read_all reads) p.own in
      (record p { stats = count_response is_right (add_time (suc n) p.stats); own = own }, true)

  abbrev pub read_since :
      ℕ → Timeval → List (List ℕ) → Option Timeval → Press U → Option (Press U × Bool)
  read_since fd receive_time reads none p = none
  read_since fd receive_time reads (some t) p =
      some (read_used fd reads (timev_diff receive_time t) p)

  -- `ProcRead`. Without client data of the descriptor the source reads through a null pointer: `none`.
  unfoldable pub proc_read : ℕ → Timeval → List (List ℕ) → Press U → Option (Press U × Bool)
  proc_read fd receive_time reads p = read_since fd receive_time reads (send_time fd p.send_times) p

-- `ProcWrite`, by what `write` answers, and the time then. It returns what `write` does where that is
-- not above 0, and its caller takes a negative value as a failure.
abbrev pub write_since :
    {U : Type 0} → ℕ → Timeval → Option Timeval → Press U → Option (Press U × Bool)
write_since fd now none p = none
write_since fd now (some t) p =
    some (record p { send_times = set_send_time fd now p.send_times }, true)

unfoldable pub proc_write : {U : Type 0} → ℕ → ℤ → Timeval → Press U → Option (Press U × Bool)
proc_write fd (negsuc n) now p = some (p, false)
proc_write fd (pos zero) now p = some (p, true)
proc_write fd (pos (suc n)) now p = write_since fd now (send_time fd p.send_times) p

-- `ProcDeleteFd`.
unfoldable pub proc_delete_fd : {U : Type 0} → ℕ → Press U → Press U
proc_delete_fd fd p = record p { send_times = drop_send_time fd p.send_times }

-- What `ThreadFunc` does for a new connection.
unfoldable pub add_client : {U : Type 0} → ℕ → Timeval → Press U → Press U
add_client fd t p = record p { send_times = set_send_time fd t p.send_times }

-- The figures of the period as the thread of `Run` may leave them: it writes them, and a step of this
-- thread that was under way may write them after that.
unfoldable pub reset_period : {U : Type 0} → (total least greatest : ℕ) → Press U → Press U
reset_period total least greatest p = record p {
  stats = record p.stats {
    curr_total_time_us = total;
    curr_min_time_us = least;
    curr_max_time_us = greatest;
  };
}
