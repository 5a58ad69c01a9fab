-- ===== src/Planning/Executor/Task.antt =====
-- The state of a running task (runtime/src/planning/executor.rs), and actions on it: an action ends in
-- a value, an error or a panic, and leaves a state, or a loop of the model runs out of fuel.
use xola.Base.{
  ℕ, Bool, true, false, Option, none, some, String, List, Exit, ok, err, panic, Duration,
}
use xola.Reliability.LoopDetector.{LoopDetector, LoopDetectorConfig, Hashing, Iteration}
use xola.Memory.LongTerm.{LongTermMemory}
use xola.Memory.ShortTerm.{ShortTermMemory}
use xola.Memory.EpisodicLog.{Outcome, TaskStep, EpisodeInput}
use xola.Tools.TimeoutConfig.{ToolTimeoutConfig}
use xola.Tools.Registry.{ToolRegistry, Host}
use xola.Ipc.{IpcTransport}
use xola.Planning.Config.{PlanConfig}
use xola.Planning.Error.{PlanError}

pub record TaskResult (Value : Type 0) : Type 0 where
  pub outcome : Outcome
  pub final_answer : Option String
  pub steps : List (TaskStep Value)
  pub duration_ms : ℕ
  pub iterations : ℕ
  pub total_replans : ℕ

pub data StepOutcome (Value : Type 0) : Type 0 where
  observation : Value → StepOutcome Value
  final_answer : String → Option String → StepOutcome Value

pub record Task (Value World : Type 0) : Type 0 where
  pub world : World
  pub registry : ToolRegistry Value World
  pub stm : ShortTermMemory
  pub steps : List (TaskStep Value)
  pub total_replans : ℕ
  pub detector : LoopDetector

abbrev pub Run : Type 0 → Type 0 → Type 0
Run S A = Option (Exit PlanError A × S)

abbrev pub Act : Type 0 → Type 0 → Type 0
Act S A = S → Run S A

-- What the executor is made of, and the libraries that it calls: the rendering of JSON values, the
-- monotonic clock, the insertion of an episode into the log, whose failure is dropped, and the race
-- of a task against its deadline. The pool of a long-term memory is that of the one database, which is a
-- part of the world.
pub record PlanExecutor (Value World : Type 0) : Type 0 where
  pub ipc : IpcTransport Value World
  pub host : Host Value World
  pub hashing : Hashing Value
  pub iteration : Iteration
  pub timeout_config : ToolTimeoutConfig
  pub long_term_memory : Option (LongTermMemory (Unit {0}))
  pub episodic_log : Option (EpisodeInput Value → World → World)
  pub config : PlanConfig
  pub loop_detector_config : LoopDetectorConfig
  pub task_timeout : Duration
  pub to_string_pretty : Value → Option String
  pub message_entry : String → String → ℕ → Value
  pub instant : World → Duration
  -- `tokio::select!`: nothing where the task ends first, and else what it has done until its deadline.
  pub select :
      Duration
      → Act (Task Value World) (TaskResult Value)
      → Task Value World
      → Option (Task Value World)

module _ {S : Type 0} where
  abbrev pub return : {A : Type 0} → A → Act S A
  return a s = some (ok a, s)

  abbrev pub throw : {A : Type 0} → PlanError → Act S A
  throw e s = some (err e, s)

  -- The exit of a part that may panic.
  abbrev pub lift : {A : Type 0} → Exit PlanError A → Act S A
  lift e s = some (e, s)

  abbrev pub or_panic : {A : Type 0} → Option A → Act S A
  or_panic none s = some (panic, s)
  or_panic (some a) s = some (ok a, s)

  abbrev pub gets : {A : Type 0} → (S → A) → Act S A
  gets f s = some (ok (f s), s)

  abbrev pub modify : (S → S) → Act S (Unit {0})
  modify f s = some (ok tt, f s)

  abbrev pub continue : {A B : Type 0} → Run S A → (A → Act S B) → Run S B
  continue none f = none
  continue (some (ok a, s)) f = f a s
  continue (some (err e, s)) f = some (err e, s)
  continue (some (panic, s)) f = some (panic, s)

  infixl 5 ◌>>=◌ ◌>>◌
  abbrev pub ◌>>=◌ : {A B : Type 0} → Act S A → (A → Act S B) → Act S B
  ◌>>=◌ m f s = continue (m s) f

  abbrev pub ◌>>◌ : {A B : Type 0} → Act S A → Act S B → Act S B
  m >> k = m >>= λ _. k

  -- An action that is taken only if a test passes.
  abbrev pub when : Bool → Act S (Unit {0}) → Act S (Unit {0})
  when true m s = m s
  when false m s = some (ok tt, s)
