-- ===== src/Planning/Executor/Classes.antt =====
-- How the errors of a task are classified (runtime/src/planning/executor.rs, runtime/src/planning/error.rs).
use xola.Base.{ℕ, ◌≡◌, ◌≢◌, refl, ◌⊎◌, inl, inr, not, some, String, err, as_millis, as_u64}
use xola.Tools.Registry.{ToolRegistry}
use xola.Planning.Error.{
  PlanError, ipc, looping, max_replans_per_step, max_replans_per_task, max_iterations_reached, tool,
  parallel_branch_failed, join_error, timed_out, tool_error, category, is_retryable, is_stuck,
}
use xola.Planning.Executor.Task.{PlanExecutor, Task}
use xola.Planning.Executor.React.{execute}
use xola.Planning.Executor.Limits.{Cause}
use xola.Planning.Executor.Results.{execute-Stopped}

-- Stuck, or else worth a retry; and not an error of a tool.
abbrev pub Classified : PlanError → Type 0
Classified e = (is_retryable e ≡ not (is_stuck e)) × (category e ≢ tool_error)

module _ {Value World : Type 0} (x : PlanExecutor Value World) where
  classified :
      (e : PlanError) (t : Task Value World)
      → (e ≡ max_iterations_reached x.config.max_iterations) ⊎ Cause x e t
      → Classified e
  unfolding is_retryable is_stuck
  classified (looping m) t h = (refl, cc)
  classified (max_replans_per_step n a) t h = (refl, cc)
  classified (max_replans_per_task n) t h = (refl, cc)
  classified (ipc e) t h = (refl, cc)
  classified (max_iterations_reached n) t h = (refl, cc)
  classified (tool e) t (inl h) = cc
  classified (tool e) t (inr h) = absurd h
  classified (parallel_branch_failed e) t (inl h) = cc
  classified (parallel_branch_failed e) t (inr h) = absurd h
  classified (join_error e) t (inl h) = cc
  classified (join_error e) t (inr h) = absurd h
  classified (timed_out level ms) t h = (refl, cc)

  late-Classified : (e : PlanError) (ms : ℕ) → e ≡ timed_out "task" ms → Classified e
  unfolding is_retryable is_stuck
  late-Classified e ms q = rw q (refl, cc)

  -- An error of a task is classified as stuck, or else as worth a retry: what fails inside a tool is
  -- dealt with by replanning, so neither an error of a tool nor an internal error comes out.
  pub execute-Classified :
      (goal : String) (registry : ToolRegistry Value World) (w : World) (e : PlanError)
      (t : Task Value World)
      → execute x goal registry w ≡ some (err e, t)
      → Classified e
  execute-Classified goal registry w e t q = elim (execute-Stopped x goal registry w e t q) [
    | inl (f, inl (spent, all)) ↦ classified e t (inl spent)
    | inl (f, inr (cause, few)) ↦ classified e t (inr cause)
    | inr (late, sel) ↦ late-Classified e (as_u64 (as_millis x.task_timeout)) late
  ]
