-- ===== src/Reliability/CircuitBreaker/Threads/Alone.antt =====
-- A call that no other thread disturbs (runtime/src/reliability/circuit_breaker.rs).
use xola.Base.{ℕ, zero, suc, ◌≡◌, arith}
use xola.Reliability.CircuitBreaker.{
  CircuitBreaker, can_execute, should_attempt_reset, record_success, record_failure,
}
use xola.Reliability.CircuitBreaker.Calls.{Call, attempt, success, failure, step, answer}
use xola.Reliability.CircuitBreaker.Threads.{Pc, entered, done, advance}

unfoldable pub advance_all : ℕ → CircuitBreaker × Pc → CircuitBreaker × Pc
unfolding advance
advance_all zero (b, p) = (b, p)
advance_all (suc n) (b, p) = advance_all n (advance b p)

-- A thread that makes a call with no other between its accesses has returned after four of them, with
-- the answer and the breaker of the call as one step.
pub advance_all-call :
    (b : CircuitBreaker) (c : Call) → advance_all 4 (b, entered c) ≡ (step b c, done (answer b c))
unfolding advance_all step answer can_execute should_attempt_reset record_success record_failure
advance_all-call b (attempt now) = ground arith
advance_all-call b success = ground arith
advance_all-call b (failure now) = ground arith
