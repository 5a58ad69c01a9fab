-- ===== src/Tools/SampleDaemon.antt =====
-- A container daemon for the tests of the tools (runtime/src/tools/code_exec.rs), whose world is the
-- number of its containers.
use xola.Base.{ℕ, suc, ◌-◌, ◌≡◌, Option, some, [], ◌∷◌, Exit, ok, ℤ, Duration}
use xola.Tools.Error.{ToolError}
use xola.Tools.CodeExec.{Docker, std_out, stream_error, std_err}
use xola.Tools.SampleJson.{Sample}

abbrev pub in_time :
    Duration → (ℕ → Exit ToolError Sample × ℕ) → ℕ → Option (Exit ToolError Sample) × ℕ
in_time d future w = (some (future w).0, (future w).1)

pub in_time-some :
    (d : Duration) (future : ℕ → Exit ToolError Sample × ℕ) (w w' : ℕ) (r : Exit ToolError Sample)
    → in_time d future w ≡ (some r, w')
    → future w ≡ (r, w')
in_time-some d future w w' r e = cc

-- A daemon on which each run prints a line and ends with this code.
abbrev pub daemon : ℤ → Docker Sample ℕ
daemon exit_code = record {
  connect = λ w. (ok tt, w);
  create_container = λ name body w. (ok name, suc w);
  start_container = λ id w. (ok tt, w);
  logs = λ id w. (std_out "hello" ∷ std_err "oops" ∷ stream_error "lost" ∷ std_out "!" ∷ [], w);
  inspect_container = λ id w. (ok (some exit_code), w);
  remove_container = λ id w. (ok tt, w - 1);
  new_v4 = λ w. ("0", w);
  timeout = in_time;
  timeout_some = in_time-some;
}
