-- ===== src/Reliability/CircuitBreaker/Invariant.antt =====
-- What holds of a breaker between two calls (runtime/src/reliability/circuit_breaker.rs).
use xola.Base.{◌≤◌, ◌<◌, ◌≡◌, ◌≢◌, List, [], ◌∷◌, arith, word_count}
use xola.Reliability.CircuitBreaker.{
  CircuitBreakerConfig, CircuitBreaker, closed, from_u8, new, can_execute, should_attempt_reset,
  record_success, record_failure,
}
use xola.Reliability.CircuitBreaker.Calls.{Call, attempt, success, failure, step, run}

-- A threshold that a `usize` holds and that is not zero.
pub record IsValidConfig (c : CircuitBreakerConfig) : Type 0 where
  pub positive : 0 < c.failure_threshold
  pub fits : c.failure_threshold < word_count

pub record IsValid (b : CircuitBreaker) : Type 0 where
  pub positive : 0 < b.config.failure_threshold
  pub fits : b.config.failure_threshold < word_count
  pub state_known : b.state ≤ 2
  pub counting : from_u8 b.state ≡ closed → b.failure_count < b.config.failure_threshold
  pub tripped : from_u8 b.state ≢ closed → b.failure_count ≡ b.config.failure_threshold

pub new-IsValid : {c : CircuitBreakerConfig} → IsValidConfig c → IsValid (new c)
unfolding new
new-IsValid v = ground arith

pub step-IsValid : (b : CircuitBreaker) (c : Call) → IsValid b → IsValid (step b c)
unfolding step can_execute should_attempt_reset record_success record_failure
step-IsValid b (attempt now) v = ground arith
step-IsValid b success v = ground arith
step-IsValid b (failure now) v = ground arith

-- Whatever calls a client makes on a valid breaker, in any order and at any times, the state byte
-- stays one of the three of `State`, a closed breaker has counted fewer failures than the threshold,
-- and one that is not closed has counted exactly the threshold.
pub run-IsValid : (b : CircuitBreaker) (cs : List Call) → IsValid b → IsValid (run b cs)
unfolding run
run-IsValid b [] v = v
run-IsValid b (c ∷ cs) v = run-IsValid (step b c) cs (step-IsValid b c v)
