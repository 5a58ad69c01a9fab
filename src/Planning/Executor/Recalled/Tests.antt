-- ===== src/Planning/Executor/Recalled/Tests.antt =====
-- A task whose episode is read from a table that is a list of its rows (runtime/src/planning/executor.rs).
use mathlib.Core.Option.{some-injective}
use xola.Base.{ℕ, ◌≡◌, ◌==◌, refl, ap, none, some, Option, String, [], ◌∷◌, Exit, ok, from_secs}
use xola.Reliability.CircuitBreaker
use xola.Reliability.LoopDetector
use xola.Memory.ShortTerm
use xola.Memory.ShortTerm.{push, evict, needs_summarization}
use xola.Base.Text.{len}
use xola.Memory.EpisodicLog.Sample.{Table, no_steps, reads_back, postgres, postgres-IsTable}
use xola.Memory.EpisodicLog.{success}
use xola.Memory.EpisodicLog.Rows.{EpisodeRecord, insert, recent, columns}
use xola.Memory.EpisodicLog.Roundtrip.{record_of}
use xola.Tools.TimeoutConfig
use xola.Tools.Registry
use xola.Tools.Registry.{ToolRegistry, checked}
use xola.Planning.Config.{default_replan}
use xola.Planning.Executor.Task.{TaskResult, PlanExecutor, Task, Run}
use xola.Planning.Executor.Messages.{estimate_tokens, record_episode}
use xola.Planning.Executor.React.{execute, start_task}
use xola.Planning.Executor.Parallel.{with_episodic_log}
use xola.Planning.Executor.Sample.{default_reply, hashing, iteration}
use xola.Planning.Executor.Recalled.{Recalled, episode_of, execute-Recalled}

-- An executor that gets its answer at once.
abbrev answered : PlanExecutor String Table
answered = record {
  ipc = record {
    reason = λ request w. (ok default_reply, w);
    summarize = λ request w. (ok (record { summary = "Nothing."; token_count = 1 }), w);
  };
  host = record {
    to_string = λ v. v;
    schema_entry = λ name description schema. name;
    check = λ schema input. checked [];
    clock = λ w. 0;
    timeout = λ d future w. (some (future w).0, (future w).1);
    timeout_some = λ d future w w' r e i. (
      some-injective _ _ (ap (λ (p : Option (Exit _ String) × Table). p.0) e) i,
      ap (λ (p : Option (Exit _ String) × Table). p.1) e i,
    );
  };
  hashing = hashing;
  iteration = iteration;
  timeout_config = TimeoutConfig.default_config;
  long_term_memory = none;
  episodic_log = none;
  config = record { max_iterations = 2; stm_token_budget = 8_000; replan = default_replan };
  loop_detector_config = LoopDetector.default_config;
  task_timeout = from_secs 4;
  to_string_pretty = λ v. some v;
  message_entry = λ role content token_count. content;
  instant = λ w. 0;
  select = λ d inner t. none;
}

abbrev logging : PlanExecutor String Table
logging = with_episodic_log (λ ep w. (insert no_steps postgres ep w).1) answered

abbrev tools : ToolRegistry String Table
tools = Registry.new CircuitBreaker.default_config

abbrev run : Run (Task String Table) (TaskResult String)
run = execute logging "A goal" tools []

abbrev end_of : Run (Task String Table) (TaskResult String) → Task String Table
end_of none = start_task logging tools []
end_of (some (e, t)) = t

abbrev result : TaskResult String
result = record {
  outcome = success;
  final_answer = some "Default final answer";
  steps = [];
  duration_ms = 0;
  iterations = 1;
  total_replans = 0;
}

run_ok : run ≡ some (ok result, end_of run)
unfolding execute estimate_tokens record_episode Registry.new ShortTerm.new push evict
    needs_summarization len insert columns
run_ok = refl

abbrev remembered : EpisodeRecord String ℕ ℕ
remembered = record_of no_steps 0 1_000 (episode_of "A goal" result)

newest_ok :
    recent no_steps postgres 1 (end_of run).world ≡ (ok (remembered ∷ []), (end_of run).world)
unfolding execute estimate_tokens record_episode Registry.new ShortTerm.new push evict
    needs_summarization len insert columns recent
newest_ok = refl

execute-Recalled_example :
    (v : Table) × ((end_of run).world ≡ (insert no_steps postgres (episode_of "A goal" result) v).1)
    × Recalled no_steps postgres
        (λ w. w)
        (λ c d. c == d)
        (λ i j. i == j)
        (episode_of "A goal" result)
        v
        (end_of run).world
        (remembered ∷ [])
        (insert no_steps postgres (episode_of "A goal" result) v).0
execute-Recalled_example =
    execute-Recalled no_steps postgres (λ w. w) (λ c d. c == d) (λ i j. i == j) answered "A goal"
      tools [] (end_of run).world result (end_of run) 0 (remembered ∷ []) postgres-IsTable
      reads_back run_ok newest_ok
