-- ===== src/Reliability/CircuitBreaker/Drawn.antt =====
-- The state machine that the documentation of the breaker draws and comments
-- (runtime/src/reliability/circuit_breaker.rs), and the breaker as an implementation of it.
use xola.Base.{
  ℕ, suc, ◌≡◌, refl, ap, ◌∙◌, Bool, true, false, Bool-cases, inl, inr, List, [], ◌∷◌, leb,
  if◌then◌else◌,
}
use xola.Reliability.CircuitBreaker.{CircuitBreakerConfig, CircuitBreaker, clock_millis}
use xola.Reliability.CircuitBreaker.Calls.{Call, attempt, success, failure, run, answers}
use xola.Reliability.CircuitBreaker.Invariant.{IsValid}
use xola.Reliability.CircuitBreaker.Phases.{
  Phase, counting, tripped, probing, is_over, next, allows, next_all, allows_all, view, timeout_of,
  run-view,
}

module _ (threshold timeout : ℕ) where
  -- A failure in the open state does nothing.
  unfoldable pub drawn_next : Phase → Call → Phase
  drawn_next (counting n) (attempt now) = counting n
  drawn_next (counting n) success = counting 0
  drawn_next (counting n) (failure now) =
      if leb threshold (suc n) then tripped (clock_millis now) else counting (suc n)
  drawn_next (tripped since) (attempt now) =
      if is_over timeout since now then probing else tripped since
  drawn_next (tripped since) success = tripped since
  drawn_next (tripped since) (failure now) = tripped since
  drawn_next probing (attempt now) = probing
  drawn_next probing success = counting 0
  drawn_next probing (failure now) = tripped (clock_millis now)

  -- The attempt that ends the cooldown is the one probe: another is not allowed before its outcome.
  unfoldable pub drawn_allows : Phase → Call → Bool
  drawn_allows (counting n) c = true
  drawn_allows (tripped since) (attempt now) = is_over timeout since now
  drawn_allows (tripped since) success = true
  drawn_allows (tripped since) (failure now) = true
  drawn_allows probing (attempt now) = false
  drawn_allows probing success = true
  drawn_allows probing (failure now) = true

  unfoldable pub drawn_next_all : Phase → List Call → Phase
  drawn_next_all p [] = p
  drawn_next_all p (c ∷ cs) = drawn_next_all (drawn_next p c) cs

  unfoldable pub drawn_allows_all : Phase → List Call → List Bool
  drawn_allows_all p [] = []
  drawn_allows_all p (c ∷ cs) = drawn_allows p c ∷ drawn_allows_all (drawn_next p c) cs

  -- A call that overlaps with others: an outcome that comes late, or an attempt beside the probe.
  abbrev pub overlaps : Phase → Call → Bool
  overlaps (counting n) c = false
  overlaps (tripped since) (attempt now) = false
  overlaps (tripped since) success = false
  overlaps (tripped since) (failure now) = true
  overlaps probing (attempt now) = true
  overlaps probing success = false
  overlaps probing (failure now) = false

  unfoldable pub one_by_one : Phase → List Call → Bool
  unfolding drawn_next
  one_by_one p [] = true
  one_by_one p (c ∷ cs) =
      let rest = one_by_one (drawn_next p c) cs in if overlaps p c then false else rest

  next-drawn :
      (p : Phase) (c : Call) → overlaps p c ≡ false → next threshold timeout p c ≡ drawn_next p c
  unfolding next drawn_next
  next-drawn (counting n) (attempt now) h = refl
  next-drawn (counting n) success h = refl
  next-drawn (counting n) (failure now) h = refl
  next-drawn (tripped since) (attempt now) h = refl
  next-drawn (tripped since) success h = refl
  next-drawn (tripped since) (failure now) h = cc
  next-drawn probing (attempt now) h = cc
  next-drawn probing success h = refl
  next-drawn probing (failure now) h = refl

  allows-drawn :
      (p : Phase) (c : Call)
      → overlaps p c ≡ false
      → allows threshold timeout p c ≡ drawn_allows p c
  unfolding allows drawn_allows
  allows-drawn (counting n) c h = refl
  allows-drawn (tripped since) (attempt now) h = refl
  allows-drawn (tripped since) success h = refl
  allows-drawn (tripped since) (failure now) h = refl
  allows-drawn probing (attempt now) h = cc
  allows-drawn probing success h = refl
  allows-drawn probing (failure now) h = refl

  all-drawn :
      (p : Phase) (cs : List Call)
      → one_by_one p cs ≡ true
      → (next_all threshold timeout p cs ≡ drawn_next_all p cs)
        × (allows_all threshold timeout p cs ≡ drawn_allows_all p cs)
  unfolding next_all allows_all drawn_next_all drawn_allows_all one_by_one
  all-drawn p [] h = (refl, refl)
  all-drawn p (c ∷ cs) h = elim (Bool-cases (overlaps p c)) [
    | inl e ↦ cc (rw e at h)
    | inr e ↦
        let (states, replies) = all-drawn (drawn_next p c) cs (rw e at h) in
        (
          rw (next-drawn p c e) states,
          rw (next-drawn p c e, allows-drawn p c e) (ap (λ r. drawn_allows p c ∷ r) replies),
        )
  ]

-- On calls that come one by one, at any times (no failure is recorded while the breaker is open, and no
-- attempt is made between the probe and its outcome), a valid breaker goes through the states of the
-- documented machine and gives the answers that it gives, for the threshold and the timeout of its
-- configuration.
pub run-drawn :
    (c : CircuitBreakerConfig) (b : CircuitBreaker) (cs : List Call)
    → IsValid b
    → b.config ≡ c
    → one_by_one c.failure_threshold (timeout_of c) (view b) cs ≡ true
    → (view (run b cs) ≡ drawn_next_all c.failure_threshold (timeout_of c) (view b) cs)
      × (answers b cs ≡ drawn_allows_all c.failure_threshold (timeout_of c) (view b) cs)
run-drawn c b cs v e h =
    let (states, replies) = run-view c b cs v e in
    let (same, alike) = all-drawn c.failure_threshold (timeout_of c) (view b) cs h in
    (states ∙ same, replies ∙ alike)
