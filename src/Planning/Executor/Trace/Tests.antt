-- ===== src/Planning/Executor/Trace/Tests.antt =====
-- The theorems on traces at a concrete one (runtime/src/planning/executor.rs).
use xola.Base.{refl, List, [], ◌∷◌}
use xola.Reliability.LoopDetector.{from_config, is_looping, count_all, first_repeated}
use xola.Memory.ShortTerm.{user, push}
use xola.Planning.Executor.Task.{Task}
use xola.Planning.Executor.Messages.{message}
use xola.Planning.Executor.Replan.{call_tool}
use xola.Planning.Executor.React.{start_task}
use xola.Planning.Executor.Sample.{Text, Stage, registry, limited_to}
use xola.Planning.Executor.Trace.{
  Event, pushed, called, pushes, calls, Trace, starts, goes_on, accounted,
}
use xola.Planning.Executor.Trace.Runs.{begun}

abbrev beginning : Task Text Stage
beginning =
    begun (limited_to 2) (start_task (limited_to 2) registry (record { now = 0; script = [] }))

abbrev told : Task Text Stage
told = record beginning { stm = push (message user "A goal") beginning.stm }

abbrev echo_call : Task Text Stage
echo_call =
    accounted "mock_echo" "hello" (call_tool (limited_to 2) "mock_echo" "hello" told).0
      (call_tool (limited_to 2) "mock_echo" "hello" told).1

abbrev events : List (Event Text)
events =
    called "mock_echo" "hello" (call_tool (limited_to 2) "mock_echo" "hello" told).0
    ∷ pushed (message user "A goal")
    ∷ []

trace : Trace (limited_to 2) beginning events echo_call
unfolding is_looping from_config first_repeated count_all
trace =
    goes_on (goes_on starts (pushes user "A goal" beginning)) (calls "mock_echo" "hello" told refl)
