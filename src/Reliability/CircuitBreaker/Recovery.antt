-- ===== src/Reliability/CircuitBreaker/Recovery.antt =====
-- When a breaker opens, what it rejects while it is open, and how it recovers
-- (runtime/src/reliability/circuit_breaker.rs).
use Prim.Native.Nat.{max}
use xola.Base.{
  ℕ, suc, ◌+◌, ◌-◌, ◌≤◌, ◌<◌, ◌≡◌, refl, ap, Bool, true, false, ◌||◌, ◌⊎◌, inl, inr, List, [], ◌∷◌,
  map, arith, Duration, All, length, replicate, leb,
}
use xola.Reliability.CircuitBreaker.{
  CircuitBreakerConfig, CircuitBreaker, State, closed, opened, half_open, from_u8, clock_millis,
  can_execute, should_attempt_reset, record_success, record_failure,
}
use xola.Reliability.CircuitBreaker.Calls.{
  Call, attempt, success, failure, step, answer, run, answers,
}
use xola.Reliability.CircuitBreaker.Invariant.{IsValid, step-IsValid}
use xola.Reliability.CircuitBreaker.Phases.{timeout_of}

-- The failures in a row after a call, and the most there were in a row at any time.
abbrev pub bump : ℕ → Call → ℕ
bump n (attempt now) = n
bump n success = 0
bump n (failure now) = suc n

abbrev pub best_streak : ℕ → List Call → ℕ
best_streak n [] = n
best_streak n (c ∷ cs) = max n (best_streak (bump n c) cs)

abbrev is_closed : State → Bool
is_closed closed = true
is_closed _ = false

abbrev leaves : State → Bool
leaves closed = false
leaves _ = true

-- Whether the breaker was out of the closed state at some time of the run.
abbrev pub left_closed : CircuitBreaker → List Call → Bool
left_closed b [] = leaves (from_u8 b.state)
left_closed b (c ∷ cs) = leaves (from_u8 b.state) || left_closed (step b c) cs

left_closed_of_leaves :
    (b : CircuitBreaker) (cs : List Call)
    → leaves (from_u8 b.state) ≡ true
    → left_closed b cs ≡ true
left_closed_of_leaves b [] h = h
left_closed_of_leaves b (c ∷ cs) h = ground arith

le-best_streak : (n : ℕ) (cs : List Call) → n ≤ best_streak n cs
le-best_streak n [] = omega arith
le-best_streak n (c ∷ cs) = omega arith

step-counting :
    (b : CircuitBreaker) (c : Call)
    → IsValid b
    → from_u8 b.state ≡ closed
    → ((from_u8 (step b c).state ≡ closed)
        × ((step b c).failure_count ≡ bump b.failure_count c)
        × ((step b c).config ≡ b.config))
      ⊎ ((from_u8 (step b c).state ≡ opened)
          × (b.config.failure_threshold ≤ bump b.failure_count c))
unfolding step can_execute should_attempt_reset record_success record_failure
step-counting b (attempt now) v h = ground arith
step-counting b success v h = ground arith
step-counting b (failure now) v h = ground arith

-- A valid closed breaker leaves the closed state in the course of a run exactly when, counting those
-- that it has seen already, as many failures as the threshold come with no success between them.
pub left_closed_iff_streak :
    (b : CircuitBreaker) (cs : List Call)
    → IsValid b
    → from_u8 b.state ≡ closed
    → left_closed b cs ≡ leb b.config.failure_threshold (best_streak b.failure_count cs)
left_closed_iff_streak b [] v h = ground (arith, v.counting h)
left_closed_iff_streak b (c ∷ cs) v h = elim (step-counting b c v h) [
  | inl (still, counted, kept) ↦ ground (
    arith,
    v.counting h,
    left_closed_iff_streak (step b c) cs (step-IsValid b c v) still,
    ap (λ n. best_streak n cs) counted,
    ap (λ (g : CircuitBreakerConfig). g.failure_threshold) kept,
  )
  | inr (left, reached) ↦ ground (
    arith,
    left_closed_of_leaves (step b c) cs (ap leaves left),
    le-best_streak (bump b.failure_count c) cs,
  )
]

-- The cooldown that began at the last failure is not over at this time.
abbrev pub CoolsDown : CircuitBreaker → Duration → Type 0
CoolsDown b now = clock_millis now - b.last_failure < timeout_of b.config

-- While the cooldown of an open breaker lasts, every attempt is rejected and changes nothing, however
-- many there are.
cooldown_rejects :
    (b : CircuitBreaker) (times : List Duration)
    → from_u8 b.state ≡ opened
    → All (CoolsDown b) times
    → (answers b (map attempt times) ≡ replicate (length times) false)
      × (run b (map attempt times) ≡ b)
unfolding answers answer run step can_execute should_attempt_reset
cooldown_rejects b [] h w = (refl, refl)
cooldown_rejects b (now ∷ times) h w =
    let (rejected, same) = cooldown_rejects b times h w.1 in ground arith

-- A breaker that is half open admits every attempt, not one probe alone, until an outcome is recorded.
half_open_admits_all :
    (b : CircuitBreaker) (times : List Duration)
    → from_u8 b.state ≡ half_open
    → (answers b (map attempt times) ≡ replicate (length times) true)
      × (run b (map attempt times) ≡ b)
unfolding answers answer run step can_execute
half_open_admits_all b [] h = (refl, refl)
half_open_admits_all b (now ∷ times) h =
    let (admitted, same) = half_open_admits_all b times h in ground arith

-- An attempt once the cooldown of an open breaker is over is admitted; then a success closes the
-- breaker with no failure counted, and a failure opens it again, with a cooldown that begins at the
-- time of that failure.
pub probe_decides :
    (b : CircuitBreaker) (now later : Duration)
    → from_u8 b.state ≡ opened
    → timeout_of b.config ≤ clock_millis now - b.last_failure
    → ((can_execute now b).1 ≡ true)
      × (from_u8 (run b (attempt now ∷ success ∷ [])).state ≡ closed)
      × ((run b (attempt now ∷ success ∷ [])).failure_count ≡ 0)
      × (from_u8 (run b (attempt now ∷ failure later ∷ [])).state ≡ opened)
      × ((run b (attempt now ∷ failure later ∷ [])).last_failure ≡ clock_millis later)
unfolding run step can_execute should_attempt_reset record_success record_failure
probe_decides b now later h over = ground arith

-- A failure that is recorded while the breaker is open leaves it open and begins the cooldown anew:
-- any attempt less than the timeout after that failure is rejected.
pub failure_restarts_cooldown :
    (b : CircuitBreaker) (now later : Duration)
    → from_u8 b.state ≡ opened
    → clock_millis later < clock_millis now + timeout_of b.config
    → clock_millis now ≤ clock_millis later
    → answers b (failure now ∷ attempt later ∷ []) ≡ true ∷ false ∷ []
unfolding answers answer step can_execute should_attempt_reset record_failure
failure_restarts_cooldown b now later h early order = ground arith
