-- ===== src/Planning/Executor/Parallel.antt =====
-- How an executor is made, and subtasks in parallel (runtime/src/planning/executor.rs).
mod Tests
use xola.Base.{ℕ, none, some, Option, String, List, [], ◌∷◌, map, Exit, ok, err, panic, Duration}
use xola.Reliability.LoopDetector
use xola.Reliability.LoopDetector.{LoopDetectorConfig, Hashing, Iteration}
use xola.Reliability.Timeout
use xola.Reliability.Timeout.{TimeoutConfig}
use xola.Memory.LongTerm.{LongTermMemory}
use xola.Memory.EpisodicLog.{EpisodeInput}
use xola.Tools.TimeoutConfig.{ToolTimeoutConfig}
use xola.Tools.Registry.{ToolRegistry, Host}
use xola.Ipc.{IpcTransport}
use xola.Planning.Config.{PlanConfig}
use xola.Planning.Error.{PlanError, join_error}
use xola.Planning.Executor.Task.{TaskResult, Task, Act, PlanExecutor}

-- The libraries that an executor calls, and the clocks.
pub record Libraries (Value World : Type 0) : Type 0 where
  pub host : Host Value World
  pub hashing : Hashing Value
  pub iteration : Iteration
  pub to_string_pretty : Value → Option String
  pub message_entry : String → String → ℕ → Value
  pub instant : World → Duration
  pub select :
      Duration
      → Act (Task Value World) (TaskResult Value)
      → Task Value World
      → Option (Task Value World)

module _ {Value World : Type 0} where
  abbrev pub new :
      Libraries Value World
      → IpcTransport Value World
      → ToolTimeoutConfig
      → PlanConfig
      → PlanExecutor Value World
  new libraries ipc timeout_config config = record {
    ipc = ipc;
    host = libraries.host;
    hashing = libraries.hashing;
    iteration = libraries.iteration;
    timeout_config = timeout_config;
    long_term_memory = none;
    episodic_log = none;
    config = config;
    loop_detector_config = LoopDetector.default_config;
    task_timeout = Timeout.default_config.task_timeout;
    to_string_pretty = libraries.to_string_pretty;
    message_entry = libraries.message_entry;
    instant = libraries.instant;
    select = libraries.select;
  }

  abbrev pub with_loop_detector_config :
      LoopDetectorConfig → PlanExecutor Value World → PlanExecutor Value World
  with_loop_detector_config config x = record x { loop_detector_config = config }

  -- Of these timeouts, the executor uses that of the task.
  abbrev pub with_timeout_context_config :
      TimeoutConfig → PlanExecutor Value World → PlanExecutor Value World
  with_timeout_context_config config x = record x { task_timeout = config.task_timeout }

  abbrev pub with_long_term_memory :
      LongTermMemory (Unit {0}) → PlanExecutor Value World → PlanExecutor Value World
  with_long_term_memory memory x = record x { long_term_memory = some memory }

  abbrev pub with_episodic_log :
      (EpisodeInput Value → World → World) → PlanExecutor Value World → PlanExecutor Value World
  with_episodic_log log x = record x { episodic_log = some log }

  -- The executor of a branch: that of a new one, with the transport and the limits of its parent.
  abbrev pub branch_executor :
      Libraries Value World → PlanExecutor Value World → PlanExecutor Value World
  branch_executor libraries x = new libraries x.ipc x.timeout_config x.config

-- What a task that was spawned leaves: what it returned, or the text of a `JoinError`.
abbrev pub Joined : Type 0 → Type 0
Joined Value = Exit String (Exit PlanError (TaskResult Value))

-- `tokio::task::JoinSet` on branches that share a registry: what `join_next` gives, in the order in which
-- the branches end.
abbrev pub JoinSet : Type 0 → Type 0 → Type 0
JoinSet Value World =
    List (PlanExecutor Value World × String)
    → ToolRegistry Value World
    → World
    → List (Joined Value) × World

module _ {Value : Type 0} where
  abbrev with_result :
      TaskResult Value
      → Exit PlanError (List (TaskResult Value))
      → Exit PlanError (List (TaskResult Value))
  with_result r (ok rs) = ok (r ∷ rs)
  with_result r (err e) = err e
  with_result r panic = panic

  -- The loop over the joins, which ends at the first error.
  unfoldable pub joined : List (Joined Value) → Exit PlanError (List (TaskResult Value))
  joined [] = ok []
  joined (ok (ok r) ∷ rest) = with_result r (joined rest)
  joined (ok (err e) ∷ rest) = err e
  joined (ok panic ∷ rest) = panic
  joined (err e ∷ rest) = err (join_error e)
  joined (panic ∷ rest) = panic

module _ {Value World : Type 0} where
  unfoldable pub execute_parallel :
      Libraries Value World
      → JoinSet Value World
      → PlanExecutor Value World
      → List String
      → ToolRegistry Value World
      → World
      → Exit PlanError (List (TaskResult Value)) × World
  unfolding joined
  execute_parallel libraries join_set x subtasks registry w =
      let (joins, w') =
        join_set (map (λ subtask. (branch_executor libraries x, subtask)) subtasks) registry w in
      (joined joins, w')
