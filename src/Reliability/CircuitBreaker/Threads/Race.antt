-- ===== src/Reliability/CircuitBreaker/Threads/Race.antt =====
-- Two outcomes that two threads record at once on a breaker that is half open
-- (runtime/src/reliability/circuit_breaker.rs).
use xola.Base.{◌≡◌, ◌≢◌, List, [], ◌∷◌, arith, Duration}
use xola.Reliability.CircuitBreaker.{
  CircuitBreaker, closed, half_open, from_u8, record_success, record_failure,
}
use xola.Reliability.CircuitBreaker.Calls.{success, failure, step, run}
use xola.Reliability.CircuitBreaker.Threads.{start, Event, turn, begin, after}

-- Thread 0 loads the state, thread 1 records its failure, and thread 0 goes on.
abbrev pub overtaken : Duration → List Event
overtaken now =
    begin 0 success
    ∷ turn 0
    ∷ begin 1 (failure now)
    ∷ turn 1
    ∷ turn 1
    ∷ turn 1
    ∷ turn 0
    ∷ turn 0
    ∷ []

-- A failure that is recorded while a success is being recorded may be lost: the breaker ends closed and
-- with no failure counted, as after neither order of the two calls, since with the success first a
-- failure is counted, and with the failure first the breaker is not closed.
pub lost_failure :
    (b : CircuitBreaker) (now : Duration)
    → from_u8 b.state ≡ half_open
    → let b' = (after (start b) (overtaken now)).breaker in
      (from_u8 b'.state ≡ closed)
      × (b'.failure_count ≡ 0)
      × ((run b (success ∷ failure now ∷ [])).failure_count ≢ 0)
      × (from_u8 (run b (failure now ∷ success ∷ [])).state ≢ closed)
unfolding after run step record_success record_failure
lost_failure b now h = ground arith
