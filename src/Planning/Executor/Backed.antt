-- ===== src/Planning/Executor/Backed.antt =====
-- What stands behind the successful steps of a task (runtime/src/planning/executor.rs,
-- runtime/src/tools/registry.rs).
use xola.Base.{
  All, All-append, ◌≡◌, refl, sym, ap, ◌∙◌, true, none, some, String, List, Exit, ok, err, panic,
}
use mathlib.Core.Path.{subst}
use xola.Base.Dict.{get}
use xola.Memory.EpisodicLog.{TaskStep}
use xola.Tools.Error.{ToolError}
use xola.Tools.TimeoutConfig.{get_timeout}
use xola.Tools.Registry.{Tool, Host, ToolRegistry, validate_input, execute_with_timeout}
use xola.Tools.Registry.Outcomes.{Succeeded, execute-ok, execute-ChangesOnly}
use xola.Planning.Executor.Task.{TaskResult, PlanExecutor, Task}
use xola.Planning.Executor.Replan.{call_tool}
use xola.Planning.Executor.React.{execute, start_task}
use xola.Planning.Executor.Trace
use xola.Planning.Executor.Trace.{Event, Step, Trace, Trace-keeps, accounted}
use xola.Planning.Executor.Results.InTime.{execute-Finished}
use xola.Planning.Executor.Trace.Runs.{begun}

validate_input-tools :
    {Value World : Type 0} (host : Host Value World) (r r' : ToolRegistry Value World)
    (name : String) (input : Value)
    → r.tools ≡ r'.tools
    → validate_input host r name input ≡ validate_input host r' name input
unfolding validate_input
validate_input-tools host r r' name input same = rw same refl

module _ {Value World : Type 0} (x : PlanExecutor Value World) (r0 : ToolRegistry Value World) where
  -- A tool of the registry returned this, on an input that its schema allows.
  abbrev pub Ran : String → Value → Value → Type 0
  Ran action input output =
      (tool : Tool Value World) × (w w' : World) × (get action r0.tools ≡ some tool)
      × (validate_input x.host r0 action input ≡ none)
      × (tool.execute input w ≡ (ok output, w'))

  abbrev pub IsBacked : TaskStep Value → Type 0
  IsBacked s = s.success ≡ true → (output : Value) × Ran s.action s.input output

  abbrev Holds : Task Value World → Type 0
  Holds t = (t.registry.tools ≡ r0.tools) × All IsBacked t.steps

  Succeeded-Ran :
      (r r' : ToolRegistry Value World) (action : String) (input output : Value) (w w' : World)
      → r.tools ≡ r0.tools
      → Succeeded x.host r action input w output r' w'
      → Ran action input output
  Succeeded-Ran r r' action input output w w' same
        (b, tool, known, go, valid, found, ran, recorded) =
      (
        tool,
        w,
        w',
        ap (get action) (sym same) ∙ found,
        sym (validate_input-tools x.host r r0 action input same) ∙ valid,
        ran,
      )

  accounted-Holds :
      (action : String) (input : Value) (result : Exit ToolError Value) (t : Task Value World)
      → Holds t
      → ((output : Value) → result ≡ ok output → Ran action input output)
      → Holds (accounted action input result t)
  accounted-Holds action input (ok v) t (same, backed) ran =
      (same, All-append IsBacked t.steps _ backed ((λ e. (v, ran v refl)), tt))
  accounted-Holds action input (err e) t (same, backed) ran =
      (same, All-append IsBacked t.steps _ backed ((λ e. cc), tt))
  accounted-Holds action input panic t h ran = h

  call-Ran :
      (action : String) (input output : Value) (t : Task Value World)
      → t.registry.tools ≡ r0.tools
      → (call_tool x action input t).0 ≡ ok output
      → Ran action input output
  unfolding call_tool
  call-Ran action input output t same e =
      let limit = get_timeout action x.timeout_config in
      let (result, registry, world) =
        execute_with_timeout x.host t.registry action input limit t.world in
      Succeeded-Ran t.registry registry action input output t.world world same (
        execute-ok x.host t.registry registry action input output limit t.world world
          (λ i. (e i, registry, world)))

  call-Holds :
      (action : String) (input : Value) (t : Task Value World)
      → Holds t
      → Holds (call_tool x action input t).1
  unfolding call_tool
  call-Holds action input t (same, backed) = (
    (execute-ChangesOnly x.host t.registry action input (get_timeout action x.timeout_config)
          t.world).0
        ∙ same,
    backed,
  )

  Step-Holds :
      (es : List (Event Value)) (u : Task Value World) (e : Event Value) (v : Task Value World)
      → Step x u e v
      → Holds u
      → Holds v
  Step-Holds es u e v (Trace.pushes role text s) h = h
  Step-Holds es u e v (Trace.asks goal memory_context s) h = h
  Step-Holds es u e v (Trace.summarizes s (ok response) w q) h = h
  Step-Holds es u e v (Trace.summarizes s (err e') w q) h = h
  Step-Holds es u e v (Trace.summarizes s panic w q) h = h
  Step-Holds es u e v (Trace.calls action input s quiet) h =
      accounted-Holds action input (call_tool x action input s).0 (call_tool x action input s).1
        (call-Holds action input s h) (λ output. call-Ran action input output s h.0)

module _ {Value World : Type 0} (x : PlanExecutor Value World) where
  -- If a task returns a result, then behind each of its steps that is recorded as a success there is a
  -- tool that the registry had under the name of the step's action when the task began, an input that the
  -- schema of this tool allows, which is the step's, and a run of this tool on it that returned a value;
  -- and the registry has the same tools as before.
  pub execute-IsBacked :
      (goal : String) (registry : ToolRegistry Value World) (w : World) (result : TaskResult Value)
      (t : Task Value World)
      → execute x goal registry w ≡ some (ok result, t)
      → All (IsBacked x registry) result.steps × (t.registry.tools ≡ registry.tools)
  execute-IsBacked goal registry w result t q =
      let (good, (u, (es, trace), asked, allowed, steps, replans, after)) =
        execute-Finished x goal registry w result t q in
      let (same, backed) =
        Trace-keeps x (λ es. Holds x registry) (Step-Holds x registry)
          (begun x (start_task x registry w)) es u trace (refl, tt) in
      (
        subst (All (IsBacked x registry)) (sym steps) backed,
        ap (λ (v : Task Value World). v.registry.tools) after ∙ same,
      )
