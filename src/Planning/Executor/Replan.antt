-- ===== src/Planning/Executor/Replan.antt =====
-- The execution of one step's tool, with replanning on failure (runtime/src/planning/executor.rs).
use xola.Base.{
  ℕ, zero, suc, Option, none, some, String, List, [], ◌∷◌, ◌++◌, Exit, ok, err, panic, leb,
  if◌then◌else◌,
}
use xola.Base.Text.{◌<>◌}
use xola.Reliability.LoopDetector.{is_looping, record_call}
use xola.Memory.ShortTerm.{user}
use xola.Memory.EpisodicLog.{TaskStep, step_success, step_failure}
use xola.Tools.Error.{ToolError, error_text}
use xola.Tools.TimeoutConfig.{get_timeout}
use xola.Tools.Registry.{execute_with_timeout}
use xola.Ipc.{ReasonResponse, server_error}
use xola.Planning.Error.{ipc, looping, max_replans_per_step, max_replans_per_task}
use xola.Planning.Executor.Task.{
  StepOutcome, observation, final_answer, PlanExecutor, Task, Act, return, throw, ◌>>=◌, ◌>>◌,
}
use xola.Planning.Executor.Messages.{push_message, push_thought, reason, is_empty}

-- response.action.unwrap_or_default()
abbrev pub or_default : Option String → String
or_default none = ""
or_default (some action) = action

module _ {Value World : Type 0} where
  abbrev pub push_step : TaskStep Value → Task Value World → Task Value World
  push_step step t = record t { steps = t.steps ++ step ∷ [] }

module _ {Value World : Type 0} (x : PlanExecutor Value World) where
  -- The next round of the loop: its action, its input and the replans of this step.
  abbrev pub Again : Type 0
  Again = String → Value → ℕ → Act (Task Value World) (StepOutcome Value)

  unfoldable pub no_action : Act (Task Value World) (StepOutcome Value)
  no_action = throw (ipc (server_error 0 "replan returned no action and is_final=false"))

  -- The new plan: an answer, or another action.
  unfoldable pub follow :
      Again → ℕ → ReasonResponse Value → Act (Task Value World) (StepOutcome Value)
  unfolding no_action
  follow again step_replans response t =
      if response.is_final
      then return (final_answer response.thought response.final_answer) t
      else if is_empty (or_default response.action)
      then no_action t
      else again (or_default response.action) response.action_input step_replans t

  -- After a failure within the limits: the error goes to the memory, and the server is asked again.
  unfoldable pub replan :
      Again
      → String
      → List String
      → String
      → ℕ
      → ToolError
      → Act (Task Value World) (StepOutcome Value)
  unfolding push_message push_thought reason follow
  replan again goal memory_context action step_replans tool_error = do
    push_message user (
        "Tool '"
        <> action
        <> "' failed with error: "
        <> error_text tool_error
        <> ". Please try an alternative approach.")
    response ← reason x goal memory_context
    push_thought response.thought
    follow again step_replans response

  -- Both limits, after one failure more. A count that has reached no limit is below one, so it does not
  -- wrap.
  unfoldable pub limited :
      Again
      → String
      → List String
      → String
      → ℕ
      → ToolError
      → Act (Task Value World) (StepOutcome Value)
  unfolding replan
  limited again goal memory_context action step_replans tool_error t =
      if leb x.config.replan.max_replans_per_step step_replans
      then throw (max_replans_per_step step_replans action) t
      else if leb x.config.replan.max_replans_per_task t.total_replans
      then throw (max_replans_per_task t.total_replans) t
      else replan again goal memory_context action step_replans tool_error t

  -- What becomes of the tool's result; `t` has what the call left of the registry and of the world.
  unfoldable pub settle :
      Again
      → String
      → List String
      → String
      → Value
      → ℕ
      → Exit ToolError Value
      → Act (Task Value World) (StepOutcome Value)
  unfolding limited
  settle again goal memory_context action input step_replans (ok result) t =
      return (observation result) (push_step (step_success action input) t)
  settle again goal memory_context action input step_replans (err tool_error) t =
      limited again goal memory_context action (suc step_replans) tool_error
        (record (push_step (step_failure action input (error_text tool_error)) t) {
          total_replans = suc t.total_replans;
        })
  settle again goal memory_context action input step_replans panic t = some (panic, t)

  -- A call of the tool through the registry, recorded with the loop detector.
  unfoldable pub call_tool :
      String → Value → Task Value World → Exit ToolError Value × Task Value World
  call_tool action input t =
      let (result, registry, world) =
        execute_with_timeout x.host t.registry action input (get_timeout action x.timeout_config)
          t.world in
      (
        result,
        record t {
          registry = registry;
          world = world;
          detector = record_call x.hashing action input t.detector;
        },
      )

  unfoldable pub checked_call :
      Again
      → String
      → List String
      → String
      → Value
      → ℕ
      → Option String
      → Act (Task Value World) (StepOutcome Value)
  unfolding settle call_tool
  checked_call again goal memory_context action input step_replans (some loop_msg) t =
      throw (looping loop_msg) t
  checked_call again goal memory_context action input step_replans none t =
      let (result, t') = call_tool action input t in
      settle again goal memory_context action input step_replans result t'

  -- One round: no tool runs where a loop is detected.
  unfoldable pub round :
      Again → String → List String → String → Value → ℕ → Act (Task Value World) (StepOutcome Value)
  unfolding checked_call
  round again goal memory_context action input step_replans t =
      checked_call again goal memory_context action input step_replans
        (is_looping x.iteration t.detector) t

  -- The loop, on fuel: `none` where it does not suffice.
  unfoldable pub rounds :
      ℕ → String → List String → String → Value → ℕ → Act (Task Value World) (StepOutcome Value)
  unfolding round
  rounds zero goal memory_context action input step_replans t = none
  rounds (suc fuel) goal memory_context action input step_replans t =
      round (rounds fuel goal memory_context) goal memory_context action input step_replans t

  unfoldable pub execute_tool_with_replan :
      String → List String → String → Value → Act (Task Value World) (StepOutcome Value)
  unfolding rounds
  execute_tool_with_replan goal memory_context action input =
      rounds (suc x.config.replan.max_replans_per_step) goal memory_context action input 0
