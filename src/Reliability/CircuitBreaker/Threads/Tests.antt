-- ===== src/Reliability/CircuitBreaker/Threads/Tests.antt =====
-- The theorems on threads at concrete breakers (runtime/src/reliability/circuit_breaker.rs).
use xola.Base.{ℕ, ◌≤◌, ◌<◌, ◌≡◌, ◌≢◌, ◌⊎◌, refl, true, [], ◌∷◌, arith, from_secs}
use xola.Reliability.CircuitBreaker.{CircuitBreaker, closed, from_u8}
use xola.Reliability.CircuitBreaker.Calls.{attempt, success, failure, run}
use xola.Reliability.CircuitBreaker.Invariant.{IsValid}
use xola.Reliability.CircuitBreaker.Threads.{start, after, is_free}
use xola.Reliability.CircuitBreaker.Threads.InTurn.{whole, in_turn, Follows, in_turn-Follows}
use xola.Reliability.CircuitBreaker.Threads.Quiet.{quiet_below}
use xola.Reliability.CircuitBreaker.Threads.Race.{overtaken, lost_failure}

abbrev half_opened : CircuitBreaker
half_opened = record {
  state = 2;
  failure_count = 3;
  last_failure = 1_000;
  config = record { failure_threshold = 3; recovery_timeout = from_secs 1 };
}

half_opened-IsValid : IsValid half_opened
half_opened-IsValid = ground arith

in_turn-Follows_example : Follows half_opened ((0, success) ∷ (1, failure 0) ∷ []) 0 (attempt 5) (
    after
      (start half_opened)
      (in_turn ((0, success) ∷ (1, failure 0) ∷ []) (whole 0 (attempt 5) [])))
in_turn-Follows_example =
    in_turn-Follows half_opened ((0, success) ∷ (1, failure 0) ∷ []) 0 (attempt 5)

quiet : (i : ℕ) → is_free ((after (start half_opened) (overtaken 0)).pc i) ≡ true
unfolding after
quiet i = ground arith

quiet_below_example :
    let b' = (after (start half_opened) (overtaken 0)).breaker in
    (b'.state ≤ 2)
    × ((from_u8 b'.state ≢ closed) ⊎ (b'.failure_count < b'.config.failure_threshold))
quiet_below_example = quiet_below half_opened (overtaken 0) half_opened-IsValid quiet

lost_failure_example :
    let b' = (after (start half_opened) (overtaken 0)).breaker in
    (from_u8 b'.state ≡ closed)
    × (b'.failure_count ≡ 0)
    × ((run half_opened (success ∷ failure 0 ∷ [])).failure_count ≢ 0)
    × (from_u8 (run half_opened (failure 0 ∷ success ∷ [])).state ≢ closed)
lost_failure_example = lost_failure half_opened 0 refl
