-- ===== src/Planning/Executor/React.antt =====
-- The ReAct loop (runtime/src/planning/executor.rs).
use xola.Base.{
  ℕ, zero, suc, ◌-◌, Option, none, some, String, List, [], ok, err, Duration, as_millis, as_u64,
  if◌then◌else◌,
}
use xola.Reliability.LoopDetector.{from_config}
use xola.Memory.ShortTerm
use xola.Memory.ShortTerm.{ShortTermMemory, user, needs_summarization}
use xola.Memory.EpisodicLog.{Outcome, success, failure}
use xola.Tools.Registry.{ToolRegistry}
use xola.Ipc.{ReasonResponse, server_error}
use xola.Planning.Error.{ipc, max_iterations_reached, timed_out}
use xola.Planning.Executor.Task.{
  TaskResult, StepOutcome, observation, final_answer, PlanExecutor, Task, Run, Act, throw, lift,
  or_panic, when, ◌>>=◌, ◌>>◌,
}
use xola.Planning.Executor.Messages.{
  push_message, push_thought, reason, is_empty, maybe_summarize, record_episode, format_observation,
  query_memory_context,
}
use xola.Planning.Executor.Replan.{or_default, execute_tool_with_replan}

module _ {Value World : Type 0} (x : PlanExecutor Value World) where
  -- start.elapsed().as_millis() as i64, of an elapsed time below 2^63 milliseconds
  abbrev elapsed : Duration → Task Value World → ℕ
  elapsed start t = as_millis (x.instant t.world - start)

  abbrev pub result_of :
      Outcome → Option String → ℕ → Duration → Task Value World → TaskResult Value
  result_of outcome answer iterations start t = record {
    outcome = outcome;
    final_answer = answer;
    steps = t.steps;
    duration_ms = elapsed start t;
    iterations = iterations;
    total_replans = t.total_replans;
  }

  abbrev logged : String → TaskResult Value → Task Value World → Task Value World
  logged goal result t = record t { world = record_episode x goal result t.world }

  -- The answer is returned after the episode is recorded.
  unfoldable pub finish :
      String → Duration → ℕ → Option String → Act (Task Value World) (TaskResult Value)
  unfolding record_episode
  finish goal start iterations answer t =
      let result = result_of success answer iterations start t in
      some (ok result, logged goal result t)

  -- The end of the loop without an answer.
  unfoldable pub exhausted : String → Duration → Act (Task Value World) (TaskResult Value)
  unfolding record_episode
  exhausted goal start t =
      let result = result_of failure none x.config.max_iterations start t in
      some (err (max_iterations_reached x.config.max_iterations), logged goal result t)

  unfoldable pub observe : String → Value → Act (Task Value World) (Unit {0})
  unfolding format_observation push_message
  observe action result t = (or_panic (format_observation x action result) >>= push_message user) t

  -- Step 4; `next` is the rest of the loop.
  unfoldable pub handle :
      Act (Task Value World) (TaskResult Value)
      → String
      → Duration
      → ℕ
      → String
      → StepOutcome Value
      → Act (Task Value World) (TaskResult Value)
  unfolding observe push_thought finish
  handle next goal start iteration action (observation result) t = (observe action result >> next) t
  handle next goal start iteration action (final_answer thought answer) t =
      (push_thought thought >> finish goal start (suc iteration) answer) t

  -- Steps 3 and 4.
  unfoldable pub dispatch :
      Act (Task Value World) (TaskResult Value)
      → String
      → List String
      → Duration
      → ℕ
      → String
      → Value
      → Act (Task Value World) (TaskResult Value)
  unfolding handle execute_tool_with_replan
  dispatch next goal memory_context start iteration action action_input t =
      if is_empty action
      then throw (ipc (server_error 0 "action is empty but is_final is false")) t
      else (execute_tool_with_replan x goal memory_context action action_input
            >>= handle next goal start iteration action)
          t

  -- Steps 2 to 4.
  unfoldable pub decide :
      Act (Task Value World) (TaskResult Value)
      → String
      → List String
      → Duration
      → ℕ
      → ReasonResponse Value
      → Act (Task Value World) (TaskResult Value)
  unfolding dispatch finish
  decide next goal memory_context start iteration response t =
      if response.is_final
      then finish goal start (suc iteration) response.final_answer t
      else dispatch next goal memory_context start iteration (or_default response.action)
          response.action_input t

  unfoldable pub compress : Act (Task Value World) (Unit {0})
  unfolding maybe_summarize
  compress t = when (needs_summarization t.stm) (maybe_summarize x) t

  -- One iteration.
  unfoldable pub iterate :
      Act (Task Value World) (TaskResult Value)
      → String
      → List String
      → Duration
      → ℕ
      → Act (Task Value World) (TaskResult Value)
  unfolding compress reason push_thought decide
  iterate next goal memory_context start iteration = do
    compress
    response ← reason x goal memory_context
    push_thought response.thought
    decide next goal memory_context start iteration response

  -- The iterations from one number on, as many as are left.
  unfoldable pub iterations :
      ℕ → String → List String → Duration → ℕ → Act (Task Value World) (TaskResult Value)
  unfolding iterate exhausted
  iterations zero goal memory_context start iteration t = exhausted goal start t
  iterations (suc left) goal memory_context start iteration t =
      iterate (iterations left goal memory_context start (suc iteration)) goal memory_context start
        iteration t

  abbrev pub begin : ShortTermMemory → Act (Task Value World) (Unit {0})
  begin stm t = some (ok tt, record t { stm = stm; steps = []; total_replans = 0 })

  unfoldable pub execute_inner : String → Duration → Act (Task Value World) (TaskResult Value)
  unfolding push_message query_memory_context iterations
  execute_inner goal start = do
    stm ← lift (ShortTerm.new x.config.stm_token_budget)
    begin stm
    push_message user goal
    iterations x.config.max_iterations goal (query_memory_context x goal) start 0

  -- `steps` and `stm` are not yet those of the task: `execute_inner` sets them.
  abbrev pub start_task : ToolRegistry Value World → World → Task Value World
  start_task registry world = record {
    world = world;
    registry = registry;
    stm = record { messages = []; token_count = 0; max_tokens = x.config.stm_token_budget };
    steps = [];
    total_replans = 0;
    detector = from_config x.loop_detector_config;
  }

  -- What is returned is the result, or the deadline's error.
  abbrev pub raced :
      Option (Task Value World)
      → Run (Task Value World) (TaskResult Value)
      → Run (Task Value World) (TaskResult Value)
  raced none finished = finished
  raced (some cancelled) finished =
      throw (timed_out "task" (as_u64 (as_millis x.task_timeout))) cancelled

  unfoldable pub execute :
      String → ToolRegistry Value World → World → Run (Task Value World) (TaskResult Value)
  unfolding execute_inner from_config
  execute goal registry world =
      let inner = execute_inner goal (x.instant world) in
      raced (x.select x.task_timeout inner (start_task registry world))
        (inner (start_task registry world))
