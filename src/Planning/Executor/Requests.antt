-- ===== src/Planning/Executor/Requests.antt =====
-- How often a task asks the server for its next step (runtime/src/planning/executor.rs).
use xola.Base.{◌≡◌, ◌≤◌, ◌+◌, arith, some, String, List, ok}
use xola.Tools.Registry.{ToolRegistry}
use xola.Planning.Executor.Task.{TaskResult, PlanExecutor, Task}
use xola.Planning.Executor.React.{execute, start_task}
use xola.Planning.Executor.Trace.{Event, requests}
use xola.Planning.Executor.Trace.Runs.{begun}
use xola.Planning.Executor.Results.{execute-Returned}
use xola.Planning.Executor.Results.InTime.{execute-Finished}
use xola.Planning.Executor.Accounts.{Leads, same_but_world}

module _ {Value World : Type 0} (x : PlanExecutor Value World) where
  -- A task that returns a result went through a trace in which the server was asked for the next step
  -- exactly once for each iteration and for each replan of the result, and so at most as often as the
  -- iterations and the replans that the configuration allows a task, together.
  pub execute_requests :
      (goal : String) (registry : ToolRegistry Value World) (w : World) (result : TaskResult Value)
      (t : Task Value World)
      → execute x goal registry w ≡ some (ok result, t)
      → (es : List (Event Value)) × Leads x (begun x (start_task x registry w)) es t
        × (requests es ≡ result.iterations + result.total_replans)
        × (requests es ≤ x.config.max_iterations + x.config.replan.max_replans_per_task)
  execute_requests goal registry w result t q =
      let (good, taken, allowed, counted, few, same) =
        execute-Returned x goal registry w result t q in
      let (outcome, (u, (es, trace), asked, within, steps, replans, after)) =
        execute-Finished x goal registry w result t q in
      (es, (u, trace, same_but_world x u t _ after), asked, omega (arith, asked, allowed, few))
