-- ===== src/Reliability/CircuitBreaker/Phases.antt =====
-- The phases of a breaker, its states with what each remembers
-- (runtime/src/reliability/circuit_breaker.rs).
use xola.Base.{
  ℕ, suc, ◌-◌, ◌≡◌, refl, ◌∙◌, ap, Bool, true, List, [], ◌∷◌, arith, Duration, as_millis, as_u64,
  leb, if◌then◌else◌,
}
use xola.Reliability.CircuitBreaker.{
  CircuitBreakerConfig, CircuitBreaker, State, closed, opened, half_open, from_u8, clock_millis,
  can_execute, should_attempt_reset, record_success, record_failure,
}
use xola.Reliability.CircuitBreaker.Calls.{
  Call, attempt, success, failure, step, answer, run, answers,
}
use xola.Reliability.CircuitBreaker.Invariant.{IsValid, step-IsValid}

-- Closed after so many consecutive failures, open since a time in milliseconds, or probing.
pub data Phase : Type 0 where
  counting : ℕ → Phase
  tripped : ℕ → Phase
  probing : Phase

-- Whether the cooldown of `timeout` milliseconds that began at `since` is over.
abbrev pub is_over : ℕ → ℕ → Duration → Bool
is_over timeout since now = leb timeout (clock_millis now - since)

module _ (threshold timeout : ℕ) where
  unfoldable pub next : Phase → Call → Phase
  next (counting n) (attempt now) = counting n
  next (counting n) success = counting 0
  next (counting n) (failure now) =
      if leb threshold (suc n) then tripped (clock_millis now) else counting (suc n)
  next (tripped since) (attempt now) = if is_over timeout since now then probing else tripped since
  next (tripped since) success = tripped since
  next (tripped since) (failure now) = tripped (clock_millis now)
  next probing (attempt now) = probing
  next probing success = counting 0
  next probing (failure now) = tripped (clock_millis now)

  unfoldable pub allows : Phase → Call → Bool
  allows (tripped since) (attempt now) = is_over timeout since now
  allows _ c = true

  unfoldable pub next_all : Phase → List Call → Phase
  next_all p [] = p
  next_all p (c ∷ cs) = next_all (next p c) cs

  unfoldable pub allows_all : Phase → List Call → List Bool
  allows_all p [] = []
  allows_all p (c ∷ cs) = allows p c ∷ allows_all (next p c) cs

view_in : State → CircuitBreaker → Phase
view_in closed b = counting b.failure_count
view_in opened b = tripped b.last_failure
view_in half_open b = probing

-- What a breaker remembers, as a phase.
unfoldable pub view : CircuitBreaker → Phase
unfolding view_in
view b = view_in (from_u8 b.state) b

abbrev pub timeout_of : CircuitBreakerConfig → ℕ
timeout_of c = as_u64 (as_millis c.recovery_timeout)

pub config-step : (b : CircuitBreaker) (c : Call) → (step b c).config ≡ b.config
unfolding step can_execute should_attempt_reset record_success record_failure
config-step b (attempt now) = ground arith
config-step b success = ground arith
config-step b (failure now) = ground arith

pub view-step :
    (b : CircuitBreaker) (c : Call)
    → IsValid b
    → view (step b c) ≡ next b.config.failure_threshold (timeout_of b.config) (view b) c
unfolding view next step can_execute should_attempt_reset record_success record_failure
view-step b (attempt now) v = ground arith
view-step b success v = ground arith
view-step b (failure now) v = ground arith

pub answer-view :
    (b : CircuitBreaker) (c : Call)
    → answer b c ≡ allows b.config.failure_threshold (timeout_of b.config) (view b) c
unfolding view allows answer can_execute should_attempt_reset
answer-view b (attempt now) = ground arith
answer-view b success = ground arith
answer-view b (failure now) = ground arith

-- On any calls, in any order and at any times, the phases of a valid breaker and its answers follow from the
-- phase that it starts in, the threshold and the timeout. The documented machine differs where calls
-- overlap: here a failure in the open state starts the cooldown again, and the half-open state lets every
-- attempt through.
pub run-view :
    (c : CircuitBreakerConfig) (b : CircuitBreaker) (cs : List Call)
    → IsValid b
    → b.config ≡ c
    → (view (run b cs) ≡ next_all c.failure_threshold (timeout_of c) (view b) cs)
      × (answers b cs ≡ allows_all c.failure_threshold (timeout_of c) (view b) cs)
unfolding run next_all answers allows_all
run-view c b [] v e = (refl, refl)
run-view c b (x ∷ cs) v e =
    let (states, replies) = run-view c (step b x) cs (step-IsValid b x v) (config-step b x ∙ e) in
    let moved : view (step b x) ≡ next c.failure_threshold (timeout_of c) (view b) x =
      rw (← e) (view-step b x v) in
    let said : answer b x ≡ allows c.failure_threshold (timeout_of c) (view b) x =
      rw (← e) (answer-view b x) in
    (rw (← moved) states, rw (← moved, ← said) (ap (λ r. answer b x ∷ r) replies))

abbrev pub state_of : Phase → State
state_of (counting n) = closed
state_of (tripped since) = opened
state_of probing = half_open

pub state-view : (b : CircuitBreaker) → from_u8 b.state ≡ state_of (view b)
unfolding view
state-view b = ground arith
