-- ===== src/Planning/Executor/Deadline/Tests.antt =====
-- A task that its deadline cuts off (runtime/src/planning/executor.rs), and the theorem at it.
use mathlib.Core.Option.{some-injective}
use xola.Base.{
  ◌≡◌, refl, ap, inl, inr, arith, none, some, Bool-cases, ltb, [], ◌∷◌, Exit, err, from_secs, ◌-◌,
}
use xola.Base.Dict.{get, insert, contains_key}
use xola.Base.Text.{len, slice_to, to_decimal, ◌<>◌}
use xola.Reliability.CircuitBreaker
use xola.Reliability.CircuitBreaker.{
  can_execute, record_success, record_failure, should_attempt_reset,
}
use xola.Reliability.LoopDetector.{
  is_looping, record_call, count_all, count_one, first_repeated, hash_call, loop_message,
}
use xola.Memory.ShortTerm
use xola.Memory.ShortTerm.{push, evict, needs_summarization}
use xola.Tools.Error.{error_text}
use xola.Tools.TimeoutConfig.{get_timeout}
use xola.Tools.Registry
use xola.Tools.Registry.{register, execute_with_timeout, validate_input, truncate_text}
use xola.Tools.Registry.Invariant.{IsRegistry, new-IsRegistry, register-IsRegistry}
use xola.Planning.Error.{PlanError, timed_out}
use xola.Planning.Executor.Task.{TaskResult, Task, Run}
use xola.Planning.Executor.Messages.{estimate_tokens, record_episode}
use xola.Planning.Executor.React.{execute, execute_inner, start_task}
use xola.Planning.Executor.Trace.Runs.{begun, execute_inner-EndsWith}
use xola.Planning.Executor.Accounts.{EndsWith-Leads}
use xola.Planning.Executor.Deadline.{Drops, execute_keeps_IsRegistry}
use xola.Planning.Executor.Sample.{Text, Stage, echo, failing, registry, limited_to, acting, late}

abbrev stage : Stage
stage = record {
  now = 0;
  script =
      acting "failing_tool" "1"
      ∷ acting "failing_tool" "22"
      ∷ acting "mock_echo" "333"
      ∷ acting "failing_tool" "4444"
      ∷ [];
}

abbrev start : Task Text Stage
start = start_task (limited_to 2) registry stage

abbrev end_of : Run (Task Text Stage) (TaskResult Text) → Task Text Stage
end_of none = start
end_of (some (e, t)) = t

abbrev run : Run (Task Text Stage) (TaskResult Text)
run = execute (limited_to 2) "A goal" registry stage

run_late : run ≡ some (err (timed_out "task" 4_000), end_of run)
unfolding execute estimate_tokens record_episode register Registry.new insert contains_key get
    CircuitBreaker.new ShortTerm.new push evict needs_summarization len slice_to is_looping
    record_call hash_call count_all count_one first_repeated get_timeout execute_with_timeout
    can_execute record_success record_failure should_attempt_reset truncate_text validate_input
    to_decimal ◌<>◌ loop_message error_text
run_late = refl

-- The tasks of the tests are cut off at their ends.
ended :
    (m : Run (Task Text Stage) (TaskResult Text)) (t : Task Text Stage) (t' : Task Text Stage)
    → late (from_secs 4) (λ u. m) t ≡ some t'
    → (e : Exit PlanError (TaskResult Text)) × (m ≡ some (e, t'))
ended none t t' q = cc
ended (some (e, u)) t t' q = elim (Bool-cases (ltb (from_secs 4) (u.world.now - t.world.now))) [
  | inl over ↦
      let same : u ≡ t' = some-injective _ _ (rw over at q) in (e, ap (λ v. some (e, v)) same)
  | inr early ↦ cc (rw early at q)
]

drops : Drops (limited_to 2) "A goal" 0 start
drops t' q =
    let (e, ran) = ended (execute_inner (limited_to 2) "A goal" 0 start) start t' q in
    let (es, (u, trace, same), few) =
      EndsWith-Leads (limited_to 2) "A goal" (begun (limited_to 2) start) e t'
        (execute_inner-EndsWith (limited_to 2) "A goal" 0 start t' e (omega arith) ran) in
    (u, (es, trace), inl (ap (λ (v : Task Text Stage). v.registry) same))

registry-IsRegistry : IsRegistry registry
registry-IsRegistry =
    register-IsRegistry (register (Registry.new CircuitBreaker.default_config) echo).1 failing (
      register-IsRegistry (Registry.new CircuitBreaker.default_config) echo
        (new-IsRegistry CircuitBreaker.default_config (omega arith)))

execute_keeps_IsRegistry_example : IsRegistry (end_of run).registry
execute_keeps_IsRegistry_example =
    execute_keeps_IsRegistry (limited_to 2) "A goal" registry stage (end_of run)
      (err (timed_out "task" 4_000)) drops run_late registry-IsRegistry
