-- ===== src/Planning/Executor/Keeps.antt =====
-- What a task keeps of the registry and of the loop detector (runtime/src/planning/executor.rs), if each
-- call of a tool keeps it that is made where no loop is detected.
use xola.Base.{
  ◌≡◌, ◌≢◌, sym, inl, inr, none, some, String, List, Exit, ok, err, panic, Duration, false, arith,
  ◌==◌, ==_iff, Bool-cases,
}
use mathlib.Core.Path.{subst}
use xola.Reliability.LoopDetector.{LoopDetector, is_looping}
use xola.Memory.ShortTerm
use xola.Tools.Error.{ToolError}
use xola.Tools.Registry.{ToolRegistry}
use xola.Planning.Error.{PlanError}
use xola.Planning.Executor.Task.{TaskResult, PlanExecutor, Task}
use xola.Planning.Executor.Replan.{call_tool}
use xola.Planning.Executor.React.{execute_inner}
use xola.Planning.Executor.Trace
use xola.Planning.Executor.Trace.{Event, Step, Trace, Trace-keeps, accounted}
use xola.Planning.Executor.Trace.Rules.{Here}
use xola.Planning.Executor.Trace.Runs.{EndsWith, Recorded, begun, execute_inner-EndsWith}

module _ {Value World : Type 0} (x : PlanExecutor Value World)
    (I : ToolRegistry Value World → LoopDetector → Type 0)
    (call_kept : (action : String) (input : Value) (t : Task Value World)
      → is_looping x.iteration t.detector ≡ none
      → I t.registry t.detector
      → I (call_tool x action input t).1.registry (call_tool x action input t).1.detector) where
  abbrev Holds : Task Value World → Type 0
  Holds t = I t.registry t.detector

  accounted-Holds :
      (action : String) (input : Value) (result : Exit ToolError Value) (t : Task Value World)
      → Holds t
      → Holds (accounted action input result t)
  accounted-Holds action input (ok v) t h = h
  accounted-Holds action input (err e) t h = h
  accounted-Holds action input panic t h = h

  Step-Holds :
      (es : List (Event Value)) (u : Task Value World) (e : Event Value) (v : Task Value World)
      → Step x u e v
      → Holds u
      → Holds v
  Step-Holds es u e v (Trace.pushes role text s) h = h
  Step-Holds es u e v (Trace.asks goal memory_context s) h = h
  Step-Holds es u e v (Trace.summarizes s (ok response) w q) h = h
  Step-Holds es u e v (Trace.summarizes s (err e') w q) h = h
  Step-Holds es u e v (Trace.summarizes s panic w q) h = h
  Step-Holds es u e v (Trace.calls action input s quiet) h =
      accounted-Holds action input (call_tool x action input s).0 (call_tool x action input s).1
        (call_kept action input s quiet h)

  pub Here-keeps : (t u : Task Value World) → Here x t u → Holds t → Holds u
  Here-keeps t u (es, trace) h = Trace-keeps x (λ es. Holds) Step-Holds t es u trace h

  Recorded-Holds :
      (goal : String) (t : Task Value World) (result : TaskResult Value) (t' : Task Value World)
      → Recorded x goal t result t'
      → Holds t
      → Holds t'
  Recorded-Holds goal t result t' r h = subst Holds (sym r.6) (Here-keeps t r.0 r.1 h)

  EndsWith-Holds :
      (goal : String) (t : Task Value World) (e : Exit PlanError (TaskResult Value))
      (t' : Task Value World)
      → EndsWith x goal t e t'
      → Holds t
      → Holds t'
  EndsWith-Holds goal t (ok result) t' (good, r) h = Recorded-Holds goal t result t' r h
  EndsWith-Holds goal t (err e) t' (inl ((here, few), other)) h = Here-keeps t t' here h
  EndsWith-Holds goal t (err e) t' (inr (result, at, bad, all, r)) h =
      Recorded-Holds goal t result t' r h
  EndsWith-Holds goal t panic t' (here, few) h = Here-keeps t t' here h

  no_budget :
      (goal : String) (start : Duration) (t t' : Task Value World)
      (e : Exit PlanError (TaskResult Value))
      → execute_inner x goal start t ≡ some (e, t')
      → x.config.stm_token_budget ≡ 0
      → t ≡ t'
  unfolding execute_inner ShortTerm.new
  no_budget goal start t t' e q zero_budget = cc (rw zero_budget at q)

  pub execute_inner_keeps :
      (goal : String) (start : Duration) (t t' : Task Value World)
      (e : Exit PlanError (TaskResult Value))
      → execute_inner x goal start t ≡ some (e, t')
      → I t.registry t.detector
      → I t'.registry t'.detector
  execute_inner_keeps goal start t t' e q h = elim (Bool-cases (x.config.stm_token_budget == 0)) [
    | inl zero_budget ↦
        subst Holds
          (no_budget goal start t t' e q ((==_iff x.config.stm_token_budget 0).0 zero_budget)) h
    | inr budget ↦
        EndsWith-Holds goal (begun x t) e t'
          (execute_inner-EndsWith x goal start t t' e (some_budget budget) q) h
  ]
    where
      some_budget : (x.config.stm_token_budget == 0) ≡ false → x.config.stm_token_budget ≢ 0
      some_budget b z = ground (arith, b, z)
