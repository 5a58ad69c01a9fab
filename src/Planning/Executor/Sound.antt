-- ===== src/Planning/Executor/Sound.antt =====
-- The registry and the loop detector of a task, from its start to its end
-- (runtime/src/planning/executor.rs).
use xola.Base.{ℕ, ◌≤◌, ◌≡◌, refl, ◌∙◌, max, none, some, String, [], Exit, arith, Duration}
use xola.Reliability.LoopDetector.{LoopDetector, is_looping}
use xola.Reliability.LoopDetector.Counts.{count}
use xola.Reliability.LoopDetector.Repeats.{record_call_few, record_call_threshold}
use xola.Tools.TimeoutConfig.{get_timeout}
use xola.Tools.Registry.Invariant.{IsRegistry, execute-IsRegistry}
use xola.Planning.Error.{PlanError}
use xola.Planning.Executor.Task.{TaskResult, PlanExecutor, Task}
use xola.Planning.Executor.Replan.{call_tool}
use xola.Planning.Executor.React.{execute_inner}
use xola.Planning.Executor.Keeps.{Here-keeps, execute_inner_keeps}
use xola.Planning.Executor.Trace.Rules.{Here}

module _ {Value World : Type 0} (x : PlanExecutor Value World) where
  call_tool-IsRegistry :
      (action : String) (input : Value) (t : Task Value World)
      → is_looping x.iteration t.detector ≡ none
      → IsRegistry t.registry
      → IsRegistry (call_tool x action input t).1.registry
  unfolding call_tool
  call_tool-IsRegistry action input t quiet v =
      execute-IsRegistry x.host t.registry action input (get_timeout action x.timeout_config)
        t.world v

  pub Here-IsRegistry :
      (t u : Task Value World) → Here x t u → IsRegistry t.registry → IsRegistry u.registry
  Here-IsRegistry = Here-keeps x (λ r d. IsRegistry r) call_tool-IsRegistry

  -- A task that starts with a well-formed registry leaves one, whatever the server asks for, whatever
  -- the tools do, and whether it ends in a result, in an error or in a panic.
  pub execute_inner-IsRegistry :
      (goal : String) (start : Duration) (t t' : Task Value World)
      (e : Exit PlanError (TaskResult Value))
      → execute_inner x goal start t ≡ some (e, t')
      → IsRegistry t.registry
      → IsRegistry t'.registry
  execute_inner-IsRegistry = execute_inner_keeps x (λ r d. IsRegistry r) call_tool-IsRegistry

  -- The window of a detector with a threshold, and no hash in it more often than that, or once.
  abbrev Few : ℕ → LoopDetector → Type 0
  Few threshold d =
      (d.repeat_threshold ≡ threshold) × ((hash : ℕ) → count hash d.window ≤ max threshold 1)

  -- A task that starts with an empty window makes no call more often than the detector's threshold, or
  -- once if that is 0, among the calls that the window holds at its end, however it ends: the loop is
  -- detected before the tool runs again.
  pub execute_inner_repeats_few :
      (goal : String) (start : Duration) (t t' : Task Value World)
      (e : Exit PlanError (TaskResult Value)) (hash : ℕ)
      → execute_inner x goal start t ≡ some (e, t')
      → t.detector.window ≡ []
      → count hash t'.detector.window ≤ max t.detector.repeat_threshold 1
  unfolding call_tool
  execute_inner_repeats_few goal start t t' e hash q empty =
      (execute_inner_keeps x (λ r d. Few t.detector.repeat_threshold d) calls goal start t t' e q
          (refl, λ h. rw empty (omega arith))).1
        hash
    where
      calls :
          (action : String) (input : Value) (s : Task Value World)
          → is_looping x.iteration s.detector ≡ none
          → Few t.detector.repeat_threshold s.detector
          → Few t.detector.repeat_threshold (call_tool x action input s).1.detector
      calls action input s quiet (same, few) = (
        record_call_threshold x.hashing action input s.detector ∙ same,
        λ h.
            omega
              (arith, record_call_few x.iteration x.hashing action input s.detector h quiet, same),
      )
