-- ===== src/Reliability/CircuitBreaker.antt =====
-- The circuit breaker of a tool (runtime/src/reliability/circuit_breaker.rs). The atomics are fields
-- of a record, a method returns the new record, and the system clock is an argument: the time since
-- the Unix epoch.
pub mod Calls
pub mod Invariant
pub mod Phases
pub mod Drawn
pub mod Recovery
pub mod Threads
mod Tests
use xola.Base.{
  ℕ, ◌-◌, Bool, true, false, String, Duration, from_secs, as_millis, as_u64, add_usize, leb, ◌==◌,
  if◌then◌else◌,
}

pub record CircuitBreakerConfig : Type 0 where
  pub failure_threshold : ℕ
  pub recovery_timeout : Duration

-- CircuitBreakerConfig::default
abbrev pub default_config : CircuitBreakerConfig
default_config = record { failure_threshold = 5; recovery_timeout = from_secs 30 }

pub data State : Type 0 where
  closed opened half_open : State

-- The discriminants of `State`, as `state as u8`.
abbrev pub to_u8 : State → ℕ
to_u8 closed = 0
to_u8 opened = 1
to_u8 half_open = 2

-- State::from(value)
abbrev pub from_u8 : ℕ → State
from_u8 value =
    if value == 0
    then closed
    else if value == 1
    then opened
    else if value == 2
    then half_open
    else closed

pub record CircuitBreaker : Type 0 where
  pub state : ℕ
  pub failure_count : ℕ
  pub last_failure : ℕ
  pub config : CircuitBreakerConfig

unfoldable pub new : CircuitBreakerConfig → CircuitBreaker
new config = record { state = to_u8 closed; failure_count = 0; last_failure = 0; config = config }

-- now.duration_since(UNIX_EPOCH).as_millis() as u64
abbrev pub clock_millis : Duration → ℕ
clock_millis now = as_u64 (as_millis now)

unfoldable pub should_attempt_reset : Duration → CircuitBreaker → Bool
should_attempt_reset now b =
    let elapsed = clock_millis now - b.last_failure in
    leb (as_u64 (as_millis b.config.recovery_timeout)) elapsed

can_execute_in : State → Duration → CircuitBreaker → CircuitBreaker × Bool
can_execute_in closed now b = (b, true)
can_execute_in half_open now b = (b, true)
can_execute_in opened now b =
    if should_attempt_reset now b then (record b { state = to_u8 half_open }, true) else (b, false)

unfoldable pub can_execute : Duration → CircuitBreaker → CircuitBreaker × Bool
unfolding can_execute_in
can_execute now b = can_execute_in (from_u8 b.state) now b

record_success_in : State → CircuitBreaker → CircuitBreaker
record_success_in closed b = record b { failure_count = 0 }
record_success_in half_open b = record b { state = to_u8 closed; failure_count = 0 }
record_success_in opened b = b

unfoldable pub record_success : CircuitBreaker → CircuitBreaker
unfolding record_success_in
record_success b = record_success_in (from_u8 b.state) b

-- `fetch_add` wraps, and so does the `+ 1` on the value that it returns.
record_failure_in : State → CircuitBreaker → CircuitBreaker
record_failure_in closed b =
    let new_count = add_usize b.failure_count 1 in
    let counted = record b { failure_count = new_count } in
    if leb b.config.failure_threshold new_count
    then record counted { state = to_u8 opened }
    else counted
record_failure_in half_open b = record b { state = to_u8 opened }
record_failure_in opened b = b

unfoldable pub record_failure : Duration → CircuitBreaker → CircuitBreaker
unfolding record_failure_in
record_failure now b =
    let stamped = record b { last_failure = clock_millis now } in
    record_failure_in (from_u8 stamped.state) stamped

-- The names by which tests observe the state.
state_name : State → String
state_name closed = "Closed"
state_name opened = "Open"
state_name half_open = "HalfOpen"

unfoldable pub current_state : CircuitBreaker → String
unfolding state_name
current_state b = state_name (from_u8 b.state)
