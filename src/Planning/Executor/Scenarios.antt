-- ===== src/Planning/Executor/Scenarios.antt =====
-- Scenarios of the tests of runtime/src/planning/executor.rs.
use xola.Base.{ℕ, ◌≡◌, refl, none, some, List, [], ◌∷◌, ok, err, panic}
use xola.Base.Dict.{get, insert, contains_key}
use xola.Base.Text.{len, slice_to, to_decimal, ◌<>◌}
use xola.Reliability.CircuitBreaker
use xola.Reliability.CircuitBreaker.{
  can_execute, record_success, record_failure, should_attempt_reset,
}
use xola.Reliability.LoopDetector.{
  is_looping, record_call, count_all, count_one, first_repeated, hash_call, loop_message,
}
use xola.Memory.ShortTerm
use xola.Memory.ShortTerm.{push, evict, needs_summarization}
use xola.Tools.Error.{error_text}
use xola.Tools.TimeoutConfig.{get_timeout}
use xola.Tools.Registry
use xola.Tools.Registry.{register, execute_with_timeout, validate_input, truncate_text}
use xola.Ipc.{ReasonResponse, server_error}
use xola.Planning.Error.{
  PlanError, ipc, looping, max_replans_per_step, max_iterations_reached, timed_out,
}
use xola.Planning.Executor.Task.{TaskResult, Task, Run}
use xola.Planning.Executor.Messages.{estimate_tokens, record_episode}
use xola.Planning.Executor.React.{execute}
use xola.Planning.Executor.Limits.{successes, failures}
use xola.Planning.Executor.Sample.{Text, Stage, registry, limited_to, acting}

abbrev play : List (ReasonResponse Text) → Run (Task Text Stage) (TaskResult Text)
play script = execute (limited_to 2) "A goal" registry (record { now = 0; script = script })

-- What a test looks at in a run.
data Shown : Type 0 where
  finished : ℕ → ℕ → ℕ → ℕ → Shown
  failed : PlanError → ℕ → ℕ → Shown
  panicked : Shown
  endless : Shown

abbrev shown : Run (Task Text Stage) (TaskResult Text) → Shown
shown none = endless
shown (some (ok r, t)) =
    finished r.iterations r.total_replans (successes r.steps) (failures r.steps)
shown (some (err e, t)) = failed e (successes t.steps) (failures t.steps)
shown (some (panic, t)) = panicked

-- One run for each test of the loop, of replanning and of loops, and for an answer after a failure, for
-- a reply without an action, and for a task that its deadline ends.
abbrev runs : List Shown
runs =
    shown (play [])
    ∷ shown (play (acting "mock_echo" "hello" ∷ []))
    ∷ shown (play (acting "mock_echo" "1" ∷ acting "mock_echo" "22" ∷ []))
    ∷ shown (play (acting "nonexistent_tool" "1" ∷ acting "mock_echo" "22" ∷ []))
    ∷ shown (
        play (
          acting "failing_tool" "1"
          ∷ acting "failing_tool" "22"
          ∷ acting "failing_tool" "333"
          ∷ []))
    ∷ shown (play (acting "nonexistent_tool" "1" ∷ []))
    ∷ shown (play (acting "" "1" ∷ []))
    ∷ shown (
        play (
          acting "failing_tool" "1"
          ∷ acting "failing_tool" "22"
          ∷ acting "mock_echo" "333"
          ∷ acting "failing_tool" "4444"
          ∷ []))
    ∷ shown (
        execute (limited_to 5) "A goal" registry (record {
          now = 0;
          script =
              acting "mock_echo" "1"
              ∷ acting "mock_echo" "1"
              ∷ acting "mock_echo" "1"
              ∷ acting "mock_echo" "1"
              ∷ [];
        }))
    ∷ []

runs_test : runs ≡ (
    finished 1 0 0 0
    ∷ finished 2 0 1 0
    ∷ failed (max_iterations_reached 2) 2 0
    ∷ finished 2 1 1 1
    ∷ failed (max_replans_per_step 3 "failing_tool") 0 3
    ∷ finished 1 1 0 1
    ∷ failed (ipc (server_error 0 "action is empty but is_final is false")) 0 0
    ∷ failed (timed_out "task" 4000) 1 3
    ∷ failed (looping (loop_message 3 109)) 3 0
    ∷ [])
unfolding execute estimate_tokens record_episode register Registry.new insert contains_key get
    CircuitBreaker.new ShortTerm.new push evict needs_summarization len successes failures slice_to
    is_looping record_call hash_call count_all count_one first_repeated get_timeout
    execute_with_timeout can_execute record_success record_failure should_attempt_reset
    truncate_text validate_input to_decimal ◌<>◌ loop_message error_text
runs_test = refl
