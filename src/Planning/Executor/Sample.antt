-- ===== src/Planning/Executor/Sample.antt =====
-- A concrete executor for the tests of runtime/src/planning/executor.rs. A value is a text; the world is a
-- clock in nanoseconds and the replies that the language model's server has left.
use mathlib.Core.Option.{some-injective}
use xola.Base.{
  ℕ, ◌+◌, ◌-◌, ◌*◌, ap, true, false, Option, none, some, String, List, [], ◌∷◌, Exit, ok, err,
  Duration, from_secs, ltb, if◌then◌else◌,
}
use xola.Base.Text.{len}
use xola.Reliability.CircuitBreaker
use xola.Reliability.LoopDetector
use xola.Reliability.LoopDetector.{Hashing, Iteration}
use xola.Tools.Error.{ToolError, execution_failed}
use xola.Tools.TimeoutConfig
use xola.Tools.Registry
use xola.Tools.Registry.{Tool, Host, checked, ToolRegistry, register}
use xola.Ipc.{IpcError, ReasonResponse, SummarizeRequest, SummarizeResponse}
use xola.Planning.Config.{PlanConfig, default_replan}
use xola.Planning.Executor.Task.{TaskResult, PlanExecutor, Task, Run, Act}

abbrev pub Text : Type 0
Text = String

pub record Stage : Type 0 where
  pub now : Duration
  pub script : List (ReasonResponse Text)

abbrev pub default_reply : ReasonResponse Text
default_reply = record {
  thought = "Default done.";
  action = none;
  action_input = "{}";
  is_final = true;
  final_answer = some "Default final answer";
}

-- The next reply of the script, after a second.
abbrev pub reply : Stage → Exit IpcError (ReasonResponse Text) × Stage
reply w = next w.script
  where
    next : List (ReasonResponse Text) → Exit IpcError (ReasonResponse Text) × Stage
    next [] = (ok default_reply, record w { now = w.now + from_secs 1 })
    next (r ∷ rest) = (ok r, record { now = w.now + from_secs 1; script = rest })

abbrev pub summary : SummarizeRequest Text → Stage → Exit IpcError SummarizeResponse × Stage
summary request w = (ok (record { summary = "Summary of conversation."; token_count = 10 }), w)

-- What a tool does always ends in time here.
abbrev pub in_time :
    Duration → (Stage → Exit ToolError Text × Stage) → Stage → Option (Exit ToolError Text) × Stage
in_time d future w = (some (future w).0, (future w).1)

abbrev pub host : Host Text Stage
host = record {
  to_string = λ v. v;
  schema_entry = λ name description schema. name;
  check = λ schema input. checked [];
  clock = λ w. w.now;
  timeout = in_time;
  timeout_some = λ d future w w' r e i. (
    some-injective _ _ (ap (λ (p : Option (Exit ToolError Text) × Stage). p.0) e) i,
    ap (λ (p : Option (Exit ToolError Text) × Stage). p.1) e i,
  );
}

abbrev pub echo : Tool Text Stage
echo = record {
  name = "mock_echo";
  description = "Echoes";
  input_schema = "{}";
  execute = λ v w. (ok v, w);
}

abbrev pub failing : Tool Text Stage
failing = record {
  name = "failing_tool";
  description = "Fails";
  input_schema = "{}";
  execute = λ v w. (err (execution_failed "Simulated failure"), w);
}

abbrev pub registry : ToolRegistry Text Stage
registry = (register (register (Registry.new CircuitBreaker.default_config) echo).1 failing).1

abbrev pub hashing : Hashing Text
hashing = record { to_string = λ v. some v; finish = digest }
  where
    digest : List String → ℕ
    digest [] = 0
    digest (text ∷ rest) = len text + 100 * digest rest

abbrev pub iteration : Iteration
iteration = record { iter = λ m. m; iter_all = λ m e h. h; iter_only = λ m e h. h }

abbrev pub late :
    Duration → Act (Task Text Stage) (TaskResult Text) → Task Text Stage → Option (Task Text Stage)
late d inner t = of_run (inner t)
  where
    of_run : Run (Task Text Stage) (TaskResult Text) → Option (Task Text Stage)
    of_run none = none
    of_run (some (e, t')) = if ltb d (t'.world.now - t.world.now) then some t' else none

abbrev pub executor : PlanConfig → PlanExecutor Text Stage
executor config = record {
  ipc = record { reason = λ request w. reply w; summarize = summary };
  host = host;
  hashing = hashing;
  iteration = iteration;
  timeout_config = TimeoutConfig.default_config;
  long_term_memory = none;
  episodic_log = none;
  config = config;
  loop_detector_config = LoopDetector.default_config;
  task_timeout = from_secs 4;
  to_string_pretty = λ v. some v;
  message_entry = λ role content token_count. content;
  instant = λ w. w.now;
  select = late;
}

abbrev pub limited_to : ℕ → PlanExecutor Text Stage
limited_to n =
    executor (record { max_iterations = n; stm_token_budget = 8_000; replan = default_replan })

abbrev pub acting : String → String → ReasonResponse Text
acting action input = record {
  thought = "Still working...";
  action = some action;
  action_input = input;
  is_final = false;
  final_answer = none;
}
