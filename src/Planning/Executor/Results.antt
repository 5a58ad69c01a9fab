-- ===== src/Planning/Executor/Results.antt =====
-- How a task ends (runtime/src/planning/executor.rs): it ends, and its result, or its error, tells how
-- many iterations and replans there were, within the limits of the configuration.
pub mod InTime
use xola.Base.{◌≡◌, refl, ◌⊎◌, inr, Option, none, some, String, Exit, ok, err, as_millis, as_u64}
use xola.Tools.Registry.{ToolRegistry}
use xola.Planning.Error.{PlanError, timed_out}
use xola.Planning.Executor.Task.{TaskResult, PlanExecutor, Task, Run}
use xola.Planning.Executor.React.{execute_inner, execute, start_task, raced}
use xola.Planning.Executor.Ends.{Ends, Ends-some, Ends-ok, Ends-err, Ends-more}
use xola.Planning.Executor.Iterations.{Returned, Stopped, Over, execute_inner-Over}

module _ {Value World : Type 0} (x : PlanExecutor Value World) where
  -- The deadline came first, in this state.
  abbrev pub Late :
      String → ToolRegistry Value World → World → PlanError → Task Value World → Type 0
  Late goal registry w e t =
      (e ≡ timed_out "task" (as_u64 (as_millis x.task_timeout)))
      × (x.select x.task_timeout (execute_inner x goal (x.instant w)) (start_task x registry w)
          ≡ some t)

  raced-Ends :
      (late : Option (Task Value World)) (m : Run (Task Value World) (TaskResult Value))
      (L : PlanError → Task Value World → Type 0)
      → Over x m
      → ((t : Task Value World)
          → late ≡ some t
          → L (timed_out "task" (as_u64 (as_millis x.task_timeout))) t)
      → Ends (Returned x) (λ e t. Stopped x e t ⊎ L e t) (raced x late m)
  raced-Ends none m L h k = Ends-more (Returned x) (Stopped x) L m h
  raced-Ends (some t) m L h k = inr (k t refl)

  execute-Ends :
      (goal : String) (registry : ToolRegistry Value World) (w : World)
      → Ends
          (Returned x)
          (λ e t. Stopped x e t ⊎ Late goal registry w e t)
          (execute x goal registry w)
  unfolding execute
  execute-Ends goal registry w =
      raced-Ends
        (x.select x.task_timeout (execute_inner x goal (x.instant w)) (start_task x registry w))
        (execute_inner x goal (x.instant w) (start_task x registry w)) (Late goal registry w)
        (execute_inner-Over x goal (x.instant w) (start_task x registry w)) (λ t e. (refl, e))

  -- A task ends: whatever the server, the tools and the log do, and whatever the limits are, the rounds
  -- of replanning suffice.
  pub execute_ends :
      (goal : String) (registry : ToolRegistry Value World) (w : World)
      → (r : Exit PlanError (TaskResult Value) × Task Value World) × (execute x goal registry w
          ≡ some r)
  execute_ends goal registry w =
      Ends-some (Returned x) _ (execute x goal registry w) (execute-Ends goal registry w)

  -- A result is a success. It has one iteration more than successful steps, at most as many iterations
  -- as the configuration allows, and as many replans as failed steps, which are none or less than the
  -- limit of a task; and its steps are all the steps that were taken.
  pub execute-Returned :
      (goal : String) (registry : ToolRegistry Value World) (w : World) (result : TaskResult Value)
      (t : Task Value World)
      → execute x goal registry w ≡ some (ok result, t)
      → Returned x result t
  execute-Returned goal registry w result t =
      Ends-ok (Returned x) _ (execute x goal registry w) result t (execute-Ends goal registry w)

  -- An error means one of three: the deadline of the task came first; or the iterations are used up,
  -- with one successful step each; or there were fewer successful steps, and a loop was detected, or
  -- the limit of replans of a step or of the task was reached exactly, or the last request to the server
  -- got an error, which is the one returned, or got a next step that is not final and names no tool. But
  -- for the deadline, there were as many replans as failed steps.
  pub execute-Stopped :
      (goal : String) (registry : ToolRegistry Value World) (w : World) (e : PlanError)
      (t : Task Value World)
      → execute x goal registry w ≡ some (err e, t)
      → Stopped x e t ⊎ Late goal registry w e t
  execute-Stopped goal registry w e t =
      Ends-err (Returned x) _ (execute x goal registry w) e t (execute-Ends goal registry w)
