-- ===== src/Tools/Registry/Shared/Tests.antt =====
-- Calls that overlap, on a concrete registry (runtime/src/tools/registry.rs).
use mathlib.Core.Option.{some-injective}
use xola.Base.{ℕ, ◌≡◌, refl, none, List, [], ◌∷◌, Exit, ok, err, arith}
use xola.Base.Dict.{get, insert, contains_key}
use xola.Base.Text.{len, slice_to}
use xola.Reliability.CircuitBreaker
use xola.Reliability.CircuitBreaker.{
  CircuitBreaker, can_execute, record_success, record_failure, should_attempt_reset,
}
use xola.Reliability.CircuitBreaker.Calls.{attempt, failure, run}
use xola.Tools.Error.{ToolError, execution_failed}
use xola.Tools.Registry.{ToolRegistry, new, register, truncate_text, validate_input}
use xola.Tools.Registry.Invariant.{IsRegistry, register-IsRegistry, new-IsRegistry}
use mathlib.Core.Option
use xola.Tools.Registry.Sample.{Text, host, config, echo, failing, registry}
use xola.Tools.Registry.Shared.{awaits, enter, leave}
use xola.Tools.Registry.Shared.System.{System, Move, enters, leaves, drops, moves}
use xola.Tools.Registry.Shared.Breakers.{history, moves-history}

abbrev idle : System Text ℕ
idle = record { registry = registry; calls = λ i. none }

abbrev failed : Exit ToolError Text
failed = err (execution_failed "Simulated failure")

-- Two callers of the tool that fails, and one of the other, who is dropped; then a fourth caller, whose call
-- is refused.
abbrev overlapping : List (Move Text ℕ)
overlapping =
    enters 0 "failing_tool" "hello" 10
    ∷ enters 1 "mock_echo" "hello" 11
    ∷ enters 2 "failing_tool" "hello" 12
    ∷ leaves 2 failed 13
    ∷ drops 1
    ∷ leaves 0 failed 15
    ∷ enters 3 "failing_tool" "hello" 16
    ∷ leaves 3 (ok "hello") 17
    ∷ []

-- The call that was refused has no outcome.
seen :
    history host "failing_tool" idle overlapping
    ≡ attempt 10 ∷ attempt 12 ∷ failure 13 ∷ failure 15 ∷ attempt 16 ∷ []
unfolding history enter leave register new insert contains_key get CircuitBreaker.new can_execute
    record_success record_failure should_attempt_reset truncate_text len slice_to validate_input
seen = refl

moves-history_example :
    get "failing_tool" (moves host idle overlapping).registry.circuit_breakers
    ≡ Option.map
        (λ b. run b (history host "failing_tool" idle overlapping))
        (get "failing_tool" registry.circuit_breakers)
moves-history_example = moves-history host "failing_tool" idle overlapping

registry-IsRegistry : IsRegistry registry
registry-IsRegistry =
    register-IsRegistry (register (new config) echo).1 failing
      (register-IsRegistry (new config) echo (new-IsRegistry config (omega arith)))

-- A breaker that is half open lets two calls through at once.
abbrev half_open_registry : ToolRegistry Text ℕ
half_open_registry = record registry {
  circuit_breakers =
      ("failing_tool", record { state = 2; failure_count = 2; last_failure = 0; config = config })
      ∷ [];
}

two_probes :
    ((enter host half_open_registry "failing_tool" "hello" 20).0 ≡ awaits failing)
    × ((enter host
          (enter host half_open_registry "failing_tool" "hello" 20).1
          "failing_tool"
          "hello"
          21).0
        ≡ awaits failing)
unfolding enter register new insert contains_key get CircuitBreaker.new can_execute
    should_attempt_reset truncate_text len slice_to validate_input
two_probes = (refl, refl)
