-- ===== src/Reliability/CircuitBreaker/Threads/Quiet.antt =====
-- What holds of a breaker that threads share, when none of them is inside a call
-- (runtime/src/reliability/circuit_breaker.rs).
use xola.Base.{
  ℕ, ◌≤◌, ◌<◌, ◌≡◌, ◌≢◌, refl, ap, ◌∙◌, ==_iff, Bool, true, false, List, [], ◌∷◌, arith, ◌==◌,
  Bool-cases, ◌⊎◌, inl, inr,
}
use xola.Reliability.CircuitBreaker.{
  CircuitBreaker, CircuitBreakerConfig, closed, from_u8, should_attempt_reset,
}
use xola.Reliability.CircuitBreaker.Calls.{attempt, success, failure}
use xola.Reliability.CircuitBreaker.Invariant.{IsValid}
use xola.Reliability.CircuitBreaker.Threads.{
  Pc, idle, entered, cooling, probing, closing, clearing, stamped, counting, opening, done, advance,
  System, start, update, is_free, Event, turn, begin, perform, after,
}

-- About to open the breaker, or to reset its count.
abbrev settling : Pc → Bool
settling opening = true
settling clearing = true
settling _ = false

abbrev IsBelow : CircuitBreaker → Type 0
IsBelow b = b.failure_count < b.config.failure_threshold

-- What an access makes of a closed breaker.
advance_cases :
    (b : CircuitBreaker) (p : Pc)
    → 0 < b.config.failure_threshold
    → from_u8 (advance b p).0.state ≡ closed
    → IsBelow (advance b p).0
      ⊎ ((settling (advance b p).1 ≡ true)
          ⊎ ((from_u8 b.state ≡ closed)
              × ((advance b p).0.failure_count ≡ b.failure_count)
              × (settling p ≡ false)))
unfolding advance should_attempt_reset
advance_cases b idle pos h = ground arith
advance_cases b (entered (attempt now)) pos h = ground arith
advance_cases b (entered success) pos h = ground arith
advance_cases b (entered (failure now)) pos h = ground arith
advance_cases b (cooling now) pos h = ground arith
advance_cases b probing pos h = ground arith
advance_cases b closing pos h = ground arith
advance_cases b clearing pos h = ground arith
advance_cases b stamped pos h = ground arith
advance_cases b counting pos h = ground arith
advance_cases b opening pos h = ground arith
advance_cases b (done answer) pos h = ground arith

config-advance : (b : CircuitBreaker) (p : Pc) → (advance b p).0.config ≡ b.config
unfolding advance
config-advance b idle = refl
config-advance b (entered (attempt now)) = refl
config-advance b (entered success) = refl
config-advance b (entered (failure now)) = refl
config-advance b (cooling now) = refl
config-advance b probing = refl
config-advance b closing = refl
config-advance b clearing = refl
config-advance b stamped = refl
config-advance b counting = refl
config-advance b opening = refl
config-advance b (done answer) = refl

state-advance : (b : CircuitBreaker) (p : Pc) → b.state ≤ 2 → (advance b p).0.state ≤ 2
unfolding advance
state-advance b idle h = h
state-advance b (entered (attempt now)) h = h
state-advance b (entered success) h = h
state-advance b (entered (failure now)) h = h
state-advance b (cooling now) h = h
state-advance b probing h = omega arith
state-advance b closing h = omega arith
state-advance b clearing h = h
state-advance b stamped h = h
state-advance b counting h = h
state-advance b opening h = omega arith
state-advance b (done answer) h = h

-- A closed breaker that has counted up to its threshold has a thread that will settle that.
record Inv (s : System) : Type 0 where
  positive : 0 < s.breaker.config.failure_threshold
  state_known : s.breaker.state ≤ 2
  backed :
      from_u8 s.breaker.state ≡ closed → IsBelow s.breaker ⊎ ((i : ℕ) × (settling (s.pc i) ≡ true))

update_own : (i : ℕ) (p : Pc) (pc : ℕ → Pc) → update i p pc i ≡ p
update_own i p pc = rw ((==_iff i i).1 refl) refl

update_other : (i j : ℕ) (p : Pc) (pc : ℕ → Pc) → pc i ≢ pc j → update i p pc j ≡ pc j
update_other i j p pc h = elim (Bool-cases (i == j)) [
  | inl e ↦ absurd (h (ap pc ((==_iff i j).0 e)))
  | inr e ↦ rw e refl
]

differ : (p q : Pc) → settling p ≡ false → settling q ≡ true → p ≢ q
differ p q h k e = cc

perform-Inv : (s : System) (e : Event) → Inv s → Inv (perform s e)
unfolding perform
perform-Inv s (turn i) v = record {
  positive = omega (
    arith,
    v.positive,
    ap (λ (c : CircuitBreakerConfig). c.failure_threshold) (config-advance s.breaker (s.pc i)),
  );
  state_known = state-advance s.breaker (s.pc i) v.state_known;
  backed = λ h. elim (advance_cases s.breaker (s.pc i) v.positive h) [
    | inl below ↦ inl below
    | inr (inl own) ↦ inr (i, ap settling (update_own i (advance s.breaker (s.pc i)).1 s.pc) ∙ own)
    | inr (inr (was, same, calm)) ↦ elim (v.backed was) [
      | inl below ↦ inl (
          omega (
            arith,
            same,
            ap (λ (c : CircuitBreakerConfig). c.failure_threshold)
                (config-advance s.breaker (s.pc i)),
          ))
      | inr (j, held) ↦ inr (
        j,
        ap settling (
              update_other i j (advance s.breaker (s.pc i)).1 s.pc
                (differ (s.pc i) (s.pc j) calm held))
            ∙ held,
      )
    ]
  ];
}
perform-Inv s (begin i c) v = elim (Bool-cases (is_free (s.pc i))) [
  | inl free ↦ rw free (record {
    positive = v.positive;
    state_known = v.state_known;
    backed = λ h. elim (v.backed h) [
      | inl below ↦ inl below
      | inr (j, held) ↦ inr (
        j,
        ap settling (
              update_other i j (entered c) s.pc
                (differ (s.pc i) (s.pc j) (calm_of (s.pc i) free) held))
            ∙ held,
      )
    ];
  })
  | inr busy ↦ rw busy v
]
  where
    calm_of : (p : Pc) → is_free p ≡ true → settling p ≡ false
    calm_of p h = ground arith

after-Inv : (s : System) (es : List Event) → Inv s → Inv (after s es)
unfolding after
after-Inv s [] v = v
after-Inv s (e ∷ es) v = after-Inv (perform s e) es (perform-Inv s e v)

start-Inv : (b : CircuitBreaker) → IsValid b → Inv (start b)
start-Inv b v = record {
  positive = v.positive;
  state_known = v.state_known;
  backed = λ h. inl (v.counting h);
}

settles :
    (s : System)
    → Inv s
    → ((i : ℕ) → is_free (s.pc i) ≡ true)
    → (from_u8 s.breaker.state ≢ closed) ⊎ IsBelow s.breaker
settles s v quiet = elim (closed_or_not s.breaker) [
  | inl h ↦ elim (v.backed h) [
    | inl below ↦ inr below
    | inr (i, held) ↦ absurd (busy (s.pc i) (quiet i) held)
  ]
  | inr h ↦ inl h
]
  where
    closed_or_not : (b : CircuitBreaker) → (from_u8 b.state ≡ closed) ⊎ (from_u8 b.state ≢ closed)
    closed_or_not b = ground arith

    busy : (p : Pc) → is_free p ≡ true → settling p ≡ true → ⊥
    busy p e q = ground arith

-- From a valid breaker, however the accesses of any number of threads interleave: once none is inside a
-- call, the state byte is one of the three, and the breaker is not closed or has counted fewer failures
-- than its threshold.
pub quiet_below :
    (b : CircuitBreaker) (es : List Event)
    → IsValid b
    → ((i : ℕ) → is_free ((after (start b) es).pc i) ≡ true)
    → let b' = (after (start b) es).breaker in
      (b'.state ≤ 2)
      × ((from_u8 b'.state ≢ closed) ⊎ (b'.failure_count < b'.config.failure_threshold))
quiet_below b es v quiet =
    let inv = after-Inv (start b) es (start-Inv b v) in
    (inv.state_known, settles (after (start b) es) inv quiet)
