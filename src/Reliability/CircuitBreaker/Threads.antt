-- ===== src/Reliability/CircuitBreaker/Threads.antt =====
-- Threads that share a breaker (runtime/src/reliability/circuit_breaker.rs): each access of an atomic is
-- one step, and steps of different threads come in any order. That each access takes effect at once and
-- for all threads is stronger than the orderings that the code asks for.
pub mod Alone
pub mod Quiet
pub mod InTurn
pub mod Race
mod Tests
use xola.Base.{ℕ, Bool, true, false, List, [], ◌∷◌, Duration, add_usize, leb, ◌==◌, if◌then◌else◌}
use xola.Reliability.CircuitBreaker.{
  CircuitBreaker, State, closed, opened, half_open, to_u8, from_u8, clock_millis,
  should_attempt_reset,
}
use xola.Reliability.CircuitBreaker.Calls.{Call, attempt, success, failure}

-- Where a thread stands: before which access, or after the return.
pub data Pc : Type 0 where
  idle : Pc
  entered : Call → Pc
  cooling : Duration → Pc
  probing : Pc
  closing : Pc
  clearing : Pc
  stamped : Pc
  counting : Pc
  opening : Pc
  done : Bool → Pc

-- The match on the state that `can_execute` has loaded.
abbrev attempt_in : State → Duration → Pc
attempt_in closed now = done true
attempt_in half_open now = done true
attempt_in opened now = cooling now

-- The match in `record_success`.
abbrev success_in : State → Pc
success_in closed = clearing
success_in half_open = closing
success_in opened = done true

-- The match in `record_failure`.
abbrev failure_in : State → Pc
failure_in closed = counting
failure_in half_open = opening
failure_in opened = done true

-- One access: the atomics after it, and where the thread stands then.
unfoldable pub advance : CircuitBreaker → Pc → CircuitBreaker × Pc
unfolding should_attempt_reset
advance b idle = (b, idle)
advance b (entered (attempt now)) = (b, attempt_in (from_u8 b.state) now)
advance b (entered success) = (b, success_in (from_u8 b.state))
advance b (entered (failure now)) = (record b { last_failure = clock_millis now }, stamped)
advance b (cooling now) = (b, if should_attempt_reset now b then probing else done false)
advance b probing = (record b { state = to_u8 half_open }, done true)
advance b closing = (record b { state = to_u8 closed }, clearing)
advance b clearing = (record b { failure_count = 0 }, done true)
advance b stamped = (b, failure_in (from_u8 b.state))
advance b counting =
    let new_count = add_usize b.failure_count 1 in
    (
      record b { failure_count = new_count },
      if leb b.config.failure_threshold new_count then opening else done true,
    )
advance b opening = (record b { state = to_u8 opened }, done true)
advance b (done answer) = (b, done answer)

pub record System : Type 0 where
  pub breaker : CircuitBreaker
  pub pc : ℕ → Pc

abbrev pub start : CircuitBreaker → System
start b = record { breaker = b; pc = λ i. idle }

abbrev pub update : ℕ → Pc → (ℕ → Pc) → ℕ → Pc
update i p pc j = if i == j then p else pc j

-- A thread between two calls.
abbrev pub is_free : Pc → Bool
is_free idle = true
is_free (done answer) = true
is_free _ = false

-- A thread makes its next access, or makes a call.
pub data Event : Type 0 where
  turn : ℕ → Event
  begin : ℕ → Call → Event

-- A thread that is inside a call begins none.
unfoldable pub perform : System → Event → System
unfolding advance
perform s (turn i) =
    let (b, p) = advance s.breaker (s.pc i) in record { breaker = b; pc = update i p s.pc }
perform s (begin i c) = if is_free (s.pc i) then record s { pc = update i (entered c) s.pc } else s

unfoldable pub after : System → List Event → System
unfolding perform
after s [] = s
after s (e ∷ es) = after (perform s e) es
