-- ===== src/Reliability/CircuitBreaker/Tests.antt =====
-- The unit tests of runtime/src/reliability/circuit_breaker.rs, and the theorems at concrete breakers.
use xola.Base.{ℕ, ◌≡◌, refl, true, false, List, [], ◌∷◌, arith, Duration, from_millis, leb}
use xola.Reliability.CircuitBreaker.{
  CircuitBreakerConfig, CircuitBreaker, closed, opened, from_u8, new, can_execute,
  should_attempt_reset, record_success, record_failure, current_state,
}
use xola.Reliability.CircuitBreaker.Calls.{
  Call, attempt, success, failure, step, answer, run, answers,
}
use xola.Reliability.CircuitBreaker.Invariant.{IsValid, new-IsValid}
use xola.Reliability.CircuitBreaker.Phases.{view}
use xola.Reliability.CircuitBreaker.Drawn.{drawn_next_all, drawn_allows_all, one_by_one, run-drawn}
use xola.Reliability.CircuitBreaker.Recovery.{
  best_streak, left_closed, left_closed_iff_streak, probe_decides, failure_restarts_cooldown,
}

abbrev quick : CircuitBreakerConfig
quick = record { failure_threshold = 2; recovery_timeout = from_millis 100 }

abbrev at_ms : ℕ → Duration
at_ms = from_millis

-- test_success_resets_failure_count
success_resets_failure_count :
    (run (new quick) (failure (at_ms 1) ∷ success ∷ [])).failure_count ≡ 0
unfolding run step new record_success record_failure
success_resets_failure_count = refl

-- test_opens_after_threshold, test_open_circuit_rejects_calls and test_half_open_probe_after_timeout
abbrev two_failures : List Call
two_failures = failure (at_ms 1_000) ∷ failure (at_ms 1_010) ∷ []

abbrev tripped_breaker : CircuitBreaker
tripped_breaker = record { state = 1; failure_count = 2; last_failure = 1_010; config = quick }

two_failures_trip : run (new quick) two_failures ≡ tripped_breaker
unfolding run step new record_failure
two_failures_trip = refl

opened_name : current_state tripped_breaker ≡ "Open"
unfolding current_state
opened_name = refl

probe_after_timeout :
    answers tripped_breaker (attempt (at_ms 1_020) ∷ attempt (at_ms 1_160) ∷ []) ≡ false ∷ true ∷ []
unfolding answers answer step can_execute should_attempt_reset
probe_after_timeout = refl

quick-IsValid : IsValid (new quick)
unfolding new
quick-IsValid = new-IsValid {c = quick} (omega arith)

tripped-IsValid : IsValid tripped_breaker
tripped-IsValid = ground arith

abbrev probed : List Call
probed = attempt (at_ms 1_020) ∷ attempt (at_ms 1_200) ∷ success ∷ []

run-drawn_example :
    (view (run tripped_breaker probed) ≡ drawn_next_all 2 100 (view tripped_breaker) probed)
    × (answers tripped_breaker probed ≡ drawn_allows_all 2 100 (view tripped_breaker) probed)
unfolding one_by_one view
run-drawn_example = run-drawn quick tripped_breaker probed tripped-IsValid refl refl

left_closed_iff_streak_example :
    left_closed (new quick) two_failures ≡ leb 2 (best_streak 0 two_failures)
unfolding new
left_closed_iff_streak_example = left_closed_iff_streak (new quick) two_failures quick-IsValid refl

probe_decides_example :
    ((can_execute (at_ms 1_110) tripped_breaker).1 ≡ true)
    × (from_u8 (run tripped_breaker (attempt (at_ms 1_110) ∷ success ∷ [])).state ≡ closed)
    × ((run tripped_breaker (attempt (at_ms 1_110) ∷ success ∷ [])).failure_count ≡ 0)
    × (from_u8 (run tripped_breaker (attempt (at_ms 1_110) ∷ failure (at_ms 1_120) ∷ [])).state
        ≡ opened)
    × ((run tripped_breaker (attempt (at_ms 1_110) ∷ failure (at_ms 1_120) ∷ [])).last_failure
        ≡ 1_120)
probe_decides_example = probe_decides tripped_breaker (at_ms 1_110) (at_ms 1_120) refl (omega arith)

failure_restarts_cooldown_example :
    answers tripped_breaker (failure (at_ms 1_100) ∷ attempt (at_ms 1_150) ∷ []) ≡ true ∷ false ∷ []
failure_restarts_cooldown_example =
    failure_restarts_cooldown tripped_breaker (at_ms 1_100) (at_ms 1_150) refl (omega arith)
      (omega arith)
