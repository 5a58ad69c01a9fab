-- ===== src/Reliability/CircuitBreaker/Calls.antt =====
-- The calls that a client makes on a breaker (runtime/src/reliability/circuit_breaker.rs), in any
-- order, and the run of a sequence of them.
use xola.Base.{Bool, true, List, [], ◌∷◌, Duration}
use xola.Reliability.CircuitBreaker.{CircuitBreaker, can_execute, record_success, record_failure}

pub data Call : Type 0 where
  attempt : Duration → Call
  success : Call
  failure : Duration → Call

unfoldable pub step : CircuitBreaker → Call → CircuitBreaker
step b (attempt now) = (can_execute now b).0
step b success = record_success b
step b (failure now) = record_failure now b

-- What a call answers; `record_success` and `record_failure` answer nothing.
unfoldable pub answer : CircuitBreaker → Call → Bool
answer b (attempt now) = (can_execute now b).1
answer b success = true
answer b (failure now) = true

unfoldable pub run : CircuitBreaker → List Call → CircuitBreaker
run b [] = b
run b (c ∷ cs) = run (step b c) cs

unfoldable pub answers : CircuitBreaker → List Call → List Bool
answers b [] = []
answers b (c ∷ cs) = answer b c ∷ answers (step b c) cs
