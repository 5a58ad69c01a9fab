-- ===== src/Planning/Executor/Deadline.antt =====
-- The registry after a task that may be cut off (runtime/src/planning/executor.rs,
-- runtime/src/tools/registry.rs).
mod Tests
use xola.Base.{◌≡◌, refl, sym, ◌⊎◌, inl, inr, Option, none, some, String, Exit, Duration}
use mathlib.Core.Path.{subst}
use xola.Tools.Registry.{ToolRegistry}
use xola.Tools.Registry.Invariant.{IsRegistry}
use xola.Tools.Registry.Shared.{enter}
use xola.Tools.Registry.Shared.Kept.{enter-IsRegistry}
use xola.Planning.Error.{PlanError}
use xola.Planning.Executor.Task.{TaskResult, PlanExecutor, Task}
use xola.Planning.Executor.React.{execute_inner, execute, start_task, raced}
use xola.Planning.Executor.Trace.Rules.{Here}
use xola.Planning.Executor.Trace.Runs.{begun}
use xola.Planning.Executor.Sound.{Here-IsRegistry, execute_inner-IsRegistry}

module _ {Value World : Type 0} (x : PlanExecutor Value World) where
  -- A registry that a task may leave that is dropped while it waits: for the server, or for a tool, whose
  -- call has then come past the breaker.
  abbrev pub Dropped : Task Value World → ToolRegistry Value World → Type 0
  Dropped t r =
      (u : Task Value World) × Here x (begun x t) u
      × ((r ≡ u.registry)
          ⊎ ((action : String) × (input : Value) × (r
                ≡ (enter x.host u.registry action input u.world).1)))

  -- What is known of a task that its deadline cuts off.
  abbrev pub Drops : String → Duration → Task Value World → Type 0
  Drops goal start t =
      (t' : Task Value World)
      → x.select x.task_timeout (execute_inner x goal start) t ≡ some t'
      → Dropped t t'.registry

  Dropped-IsRegistry :
      (t : Task Value World) (r : ToolRegistry Value World)
      → Dropped t r
      → IsRegistry t.registry
      → IsRegistry r
  Dropped-IsRegistry t r (u, here, inl same) v =
      subst IsRegistry (sym same) (Here-IsRegistry x (begun x t) u here v)
  Dropped-IsRegistry t r (u, here, inr (action, input, same)) v = subst IsRegistry (sym same) (
      enter-IsRegistry x.host u.registry action input u.world
        (Here-IsRegistry x (begun x t) u here v))

  -- However a task ends, in a result, an error or a panic, or because its deadline drops it while it waits
  -- for the server or for a tool, the registry that the next task finds is well formed, if the one that it
  -- found was.
  pub execute_keeps_IsRegistry :
      (goal : String) (registry : ToolRegistry Value World) (w : World) (t : Task Value World)
      (e : Exit PlanError (TaskResult Value))
      → Drops goal (x.instant w) (start_task x registry w)
      → execute x goal registry w ≡ some (e, t)
      → IsRegistry registry
      → IsRegistry t.registry
  unfolding execute
  execute_keeps_IsRegistry goal registry w t e drops q v =
      by_deadline (x.select x.task_timeout (execute_inner x goal (x.instant w)) start) refl q
    where
      start : Task Value World
      start = start_task x registry w

      by_deadline :
          (late : Option (Task Value World))
          → x.select x.task_timeout (execute_inner x goal (x.instant w)) start ≡ late
          → raced x late (execute_inner x goal (x.instant w) start) ≡ some (e, t)
          → IsRegistry t.registry
      by_deadline none at q = execute_inner-IsRegistry x goal (x.instant w) start t e q v
      by_deadline (some cut) at q =
          let same : cut ≡ t = cc in
          subst (λ (u : Task Value World). IsRegistry u.registry) same
            (Dropped-IsRegistry start cut.registry (drops cut at) v)
