-- ===== src/Planning/Executor/Results/InTime.antt =====
-- A task that returns a result did so before its deadline, and on a token budget
-- (runtime/src/planning/executor.rs).
use xola.Base.{◌≡◌, ◌≢◌, Option, none, some, String, ok, Duration}
use xola.Memory.ShortTerm
use xola.Tools.Registry.{ToolRegistry}
use xola.Planning.Executor.Task.{TaskResult, PlanExecutor, Task, Run}
use xola.Planning.Executor.React.{execute_inner, execute, start_task, raced}
use xola.Planning.Executor.Trace.Runs.{begun, Finished, execute_inner-EndsWith}

module _ {Value World : Type 0} (x : PlanExecutor Value World) where
  in_time-ok :
      (late : Option (Task Value World)) (m : Run (Task Value World) (TaskResult Value))
      (result : TaskResult Value) (t : Task Value World)
      → raced x late m ≡ some (ok result, t)
      → m ≡ some (ok result, t)
  in_time-ok none m result t q = q
  in_time-ok (some cancelled) m result t q = cc

  ok_has_budget :
      (goal : String) (start : Duration) (t t' : Task Value World) (result : TaskResult Value)
      → execute_inner x goal start t ≡ some (ok result, t')
      → x.config.stm_token_budget ≢ 0
  unfolding execute_inner ShortTerm.new
  ok_has_budget goal start t t' result q zero_budget = cc (rw zero_budget at q)

  pub execute-Finished :
      (goal : String) (registry : ToolRegistry Value World) (w : World) (result : TaskResult Value)
      (t : Task Value World)
      → execute x goal registry w ≡ some (ok result, t)
      → Finished x goal (begun x (start_task x registry w)) result t
  unfolding execute
  execute-Finished goal registry w result t q =
      let start = start_task x registry w in
      let inner =
        in_time-ok (x.select x.task_timeout (execute_inner x goal (x.instant w)) start)
          (execute_inner x goal (x.instant w) start) result t q in
      execute_inner-EndsWith x goal (x.instant w) start t (ok result)
        (ok_has_budget goal (x.instant w) start t result inner) inner
