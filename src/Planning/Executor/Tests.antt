-- ===== src/Planning/Executor/Tests.antt =====
-- The theorems on tasks (runtime/src/planning/executor.rs) at concrete ones.
use xola.Base.{All, ◌+◌, max, ◌≤◌, arith, ◌≡◌, ◌⊎◌, refl, none, some, List, [], ◌∷◌, Exit, ok, err}
use xola.Base.Dict.{get, insert, contains_key}
use xola.Base.Text.{len, slice_to, to_decimal, ◌<>◌}
use xola.Reliability.CircuitBreaker
use xola.Reliability.CircuitBreaker.{
  can_execute, record_success, record_failure, should_attempt_reset,
}
use xola.Reliability.LoopDetector.{
  from_config, is_looping, record_call, count_all, count_one, first_repeated, hash_call,
  loop_message,
}
use xola.Memory.ShortTerm
use xola.Memory.ShortTerm.{push, evict, needs_summarization}
use xola.Memory.EpisodicLog.{success}
use xola.Tools.Error.{error_text}
use xola.Tools.TimeoutConfig.{get_timeout}
use xola.Tools.Registry
use xola.Tools.Registry.{register, execute_with_timeout, validate_input, truncate_text}
use xola.Planning.Error.{PlanError, max_iterations_reached}
use xola.Planning.Executor.Task.{TaskResult, Task, Run}
use xola.Planning.Executor.Messages.{estimate_tokens, record_episode}
use xola.Planning.Executor.React.{execute, execute_inner, start_task}
use xola.Planning.Executor.Limits.{successes, failures}
use xola.Reliability.LoopDetector.Counts.{count}
use xola.Tools.Registry.Invariant.{IsRegistry, new-IsRegistry, register-IsRegistry}
use xola.Planning.Executor.Sound.{execute_inner_repeats_few}
use xola.Planning.Executor.Classes.{Classified, execute-Classified}
use xola.Planning.Executor.Iterations.{Returned, Stopped}
use xola.Planning.Executor.Results.{Late, execute_ends, execute-Returned, execute-Stopped}
use xola.Planning.Executor.Backed.{IsBacked, execute-IsBacked}
use xola.Planning.Executor.Accounts.{Leads, Accounts, AsksFew, execute_inner-Accounts}
use xola.Planning.Executor.Trace.{Event, requests}
use xola.Planning.Executor.Requests.{execute_requests}
use xola.Planning.Executor.Trace.Runs.{begun}
use xola.Planning.Executor.Sample.{Text, Stage, echo, failing, registry, limited_to, acting}

-- The state that a run leaves.
abbrev end_of : Run (Task Text Stage) (TaskResult Text) → Task Text Stage
end_of none = start_task (limited_to 2) registry (record { now = 0; script = [] })
end_of (some (e, t)) = t

abbrev start_stage : Stage
start_stage = record {
  now = 0;
  script = acting "nonexistent_tool" "1" ∷ acting "mock_echo" "22" ∷ [];
}

abbrev run : Run (Task Text Stage) (TaskResult Text)
run = execute (limited_to 2) "A goal" registry start_stage

abbrev run_result : TaskResult Text
run_result = record {
  outcome = success;
  final_answer = some "Default final answer";
  steps = (end_of run).steps;
  duration_ms = 3_000;
  iterations = 2;
  total_replans = 1;
}

run_ok : run ≡ some (ok run_result, end_of run)
unfolding execute estimate_tokens record_episode register Registry.new insert contains_key get
    CircuitBreaker.new ShortTerm.new push evict needs_summarization len successes failures slice_to
    is_looping record_call hash_call count_all count_one first_repeated get_timeout
    execute_with_timeout can_execute record_success record_failure should_attempt_reset
    truncate_text validate_input to_decimal ◌<>◌ loop_message error_text
run_ok = refl

execute_ends_example : (r : Exit PlanError (TaskResult Text) × Task Text Stage) × (run ≡ some r)
execute_ends_example = execute_ends (limited_to 2) "A goal" registry start_stage

execute-Returned_example : Returned (limited_to 2) run_result (end_of run)
execute-Returned_example =
    execute-Returned (limited_to 2) "A goal" registry start_stage run_result (end_of run) run_ok

abbrev run_of_one : Run (Task Text Stage) (TaskResult Text)
run_of_one = execute (limited_to 1) "A goal" registry start_stage

run_err : run_of_one ≡ some (err (max_iterations_reached 1), end_of run_of_one)
unfolding execute estimate_tokens record_episode register Registry.new insert contains_key get
    CircuitBreaker.new ShortTerm.new push evict needs_summarization len successes failures slice_to
    is_looping record_call hash_call count_all count_one first_repeated get_timeout
    execute_with_timeout can_execute record_success record_failure should_attempt_reset
    truncate_text validate_input to_decimal ◌<>◌ loop_message error_text
run_err = refl

execute-Stopped_example :
    Stopped (limited_to 1) (max_iterations_reached 1) (end_of run_of_one)
    ⊎ Late
        (limited_to 1)
        "A goal"
        registry
        start_stage
        (max_iterations_reached 1)
        (end_of run_of_one)
execute-Stopped_example =
    execute-Stopped (limited_to 1) "A goal" registry start_stage (max_iterations_reached 1)
      (end_of run_of_one) run_err

execute-Classified_example : Classified (max_iterations_reached 1)
execute-Classified_example =
    execute-Classified (limited_to 1) "A goal" registry start_stage (max_iterations_reached 1)
      (end_of run_of_one) run_err

abbrev inner_run : Run (Task Text Stage) (TaskResult Text)
inner_run = execute_inner (limited_to 2) "A goal" 0 (start_task (limited_to 2) registry start_stage)

inner_ok : inner_run ≡ some (ok run_result, end_of inner_run)
unfolding execute estimate_tokens record_episode register Registry.new insert contains_key get
    CircuitBreaker.new ShortTerm.new push evict needs_summarization len successes failures slice_to
    is_looping record_call hash_call count_all count_one first_repeated get_timeout
    execute_with_timeout can_execute record_success record_failure should_attempt_reset
    truncate_text validate_input to_decimal ◌<>◌ loop_message error_text
inner_ok = refl

registry-IsRegistry : IsRegistry registry
registry-IsRegistry =
    register-IsRegistry (register (Registry.new CircuitBreaker.default_config) echo).1 failing (
      register-IsRegistry (Registry.new CircuitBreaker.default_config) echo
        (new-IsRegistry CircuitBreaker.default_config (omega arith)))

execute_inner_repeats_few_example : count 216 (end_of inner_run).detector.window ≤ max 3 1
unfolding from_config
execute_inner_repeats_few_example =
    execute_inner_repeats_few (limited_to 2) "A goal" 0
      (start_task (limited_to 2) registry start_stage) (end_of inner_run) (ok run_result) 216
      inner_ok refl

execute-IsBacked_example :
    All (IsBacked (limited_to 2) registry) run_result.steps
    × ((end_of run).registry.tools ≡ registry.tools)
execute-IsBacked_example =
    execute-IsBacked (limited_to 2) "A goal" registry start_stage run_result (end_of run) run_ok

execute_inner-Accounts_example :
    (es : List (Event Text)) × Leads
      (limited_to 2)
      (begun (limited_to 2) (start_task (limited_to 2) registry start_stage))
      es
      (end_of inner_run)
    × Accounts (limited_to 2) es (end_of inner_run)
    × AsksFew (limited_to 2) es (end_of inner_run)
execute_inner-Accounts_example =
    execute_inner-Accounts (limited_to 2) "A goal" 0
      (start_task (limited_to 2) registry start_stage) (end_of inner_run) (ok run_result)
      (omega arith) refl inner_ok

execute_requests_example :
    (es : List (Event Text)) × Leads
      (limited_to 2)
      (begun (limited_to 2) (start_task (limited_to 2) registry start_stage))
      es
      (end_of run)
    × (requests es ≡ 2 + 1)
    × (requests es ≤ 2 + 10)
execute_requests_example =
    execute_requests (limited_to 2) "A goal" registry start_stage run_result (end_of run) run_ok
