-- ===== src/Tools/Registry/Tests.antt =====
-- Tests of runtime/src/tools/registry.rs, and the theorems at a concrete registry.
use xola.Base.{ℕ, ◌<◌, ◌≡◌, ◌↔◌, refl, none, List, [], ◌∷◌, Exit, ok, arith, from_millis}
use xola.Base.Dict.{get, insert, contains_key}
use xola.Base.Text.{len, slice_to}
use xola.Reliability.CircuitBreaker
use xola.Reliability.CircuitBreaker.{
  CircuitBreaker, can_execute, record_success, record_failure, should_attempt_reset,
}
use xola.Tools.Error.{ToolError}
use xola.Tools.Registry.{
  ToolRegistry, new, register, list_names, execute_with_timeout, truncate_text, validate_input,
}
use xola.Tools.Registry.Truncation.{SplitsChar, truncate_text-panics_iff}
use xola.Tools.Registry.Invariant.{
  IsRegistry, new-IsRegistry, Use, registers, executes, use_all, use_all-IsRegistry,
}
use xola.Tools.Registry.Outcomes.{Succeeded, execute-ok}
use xola.Tools.Registry.Sample.{Text, host, config, echo, failing, registry, second}

-- test_duplicate_registration_fails
duplicate_registration_fails : (register registry echo).1 ≡ registry
unfolding register new contains_key insert CircuitBreaker.new
duplicate_registration_fails = refl

names : list_names registry ≡ "mock_echo" ∷ "failing_tool" ∷ []
unfolding list_names register new contains_key insert
names = refl

-- A tool's result comes back, and its breaker counts no failure.
echoes : (execute_with_timeout host registry "mock_echo" "hello" second 0).0 ≡ ok "hello"
unfolding execute_with_timeout register new insert contains_key get CircuitBreaker.new can_execute
    record_success should_attempt_reset truncate_text len slice_to validate_input
echoes = refl

abbrev echo_call : Exit ToolError Text × ToolRegistry Text ℕ × ℕ
echo_call = execute_with_timeout host registry "mock_echo" "hello" second 0

echoed : echo_call ≡ (ok "hello", echo_call.1, from_millis 5)
unfolding execute_with_timeout register new insert contains_key get CircuitBreaker.new can_execute
    record_success should_attempt_reset truncate_text len slice_to validate_input
echoed = refl

execute-ok_example :
    Succeeded host registry "mock_echo" "hello" 0 "hello" echo_call.1 (from_millis 5)
execute-ok_example =
    execute-ok host registry echo_call.1 "mock_echo" "hello" "hello" second 0 (from_millis 5) echoed

truncate_text-panics_iff_example :
    (truncate_text "café" 4 ≡ none) ↔ ((4 < len "café") × SplitsChar "café" 4)
truncate_text-panics_iff_example = truncate_text-panics_iff "café" 4

splits : truncate_text "café" 4 ≡ none
unfolding truncate_text len slice_to
splits = refl

-- A breaker that two failures have opened at 14 ms, and the registry with it.
abbrev tripped : CircuitBreaker
tripped = record { state = 1; failure_count = 2; last_failure = 14; config = config }

abbrev tripped_registry : ToolRegistry Text ℕ
tripped_registry = record {
  tools = ("failing_tool", failing) ∷ [];
  circuit_breakers = ("failing_tool", tripped) ∷ [];
  circuit_breaker_config = config;
}

two_failures_trip :
    (execute_with_timeout host
      (execute_with_timeout host
        (register (new config) failing).1
        "failing_tool"
        "hello"
        second
        0).1
      "failing_tool"
      "hello"
      second
      (from_millis 7)).1
    ≡ tripped_registry
unfolding execute_with_timeout register new insert contains_key get CircuitBreaker.new can_execute
    record_failure should_attempt_reset truncate_text len slice_to validate_input
two_failures_trip = refl

abbrev fresh : CircuitBreaker
fresh = record { state = 0; failure_count = 0; last_failure = 0; config = config }

abbrev fresh_registry : ToolRegistry Text ℕ
fresh_registry = record tripped_registry { circuit_breakers = ("failing_tool", fresh) ∷ [] }

abbrev uses : List (Use Text ℕ)
uses =
    registers echo
    ∷ registers failing
    ∷ registers echo
    ∷ executes "failing_tool" "hello" second
    ∷ []

use_all-IsRegistry_example : IsRegistry (use_all host (new config, 0) uses).0
use_all-IsRegistry_example =
    use_all-IsRegistry host (new config) 0 uses (new-IsRegistry config (omega arith))
