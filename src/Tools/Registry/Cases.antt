-- ===== src/Tools/Registry/Cases.antt =====
-- The ways through an execution (runtime/src/tools/registry.rs), as a rule for proofs about it.
use xola.Base.{
  ◌≡◌, refl, inl, inr, true, false, Option, none, some, String, Exit, err, panic, Duration,
  Option-cases, Bool-cases,
}
use xola.Base.Dict.{get}
use xola.Reliability.CircuitBreaker.{CircuitBreaker, can_execute}
use xola.Tools.Error.{ToolError, not_found, circuit_open}
use xola.Tools.Registry.{
  Tool, Host, ToolRegistry, set_breaker, Called, finish, invoke, validated, guarded,
  execute_with_timeout, timed, truncate_text, validate_input,
}

module _ {ℓ} {Value World : Type 0} (host : Host Value World) (P : Called host → Type ℓ)
    (r : ToolRegistry Value World) (name : String) (input : Value) (limit : Duration)
    (w : World) where
  abbrev pub after_attempt : CircuitBreaker → ToolRegistry Value World
  after_attempt b = set_breaker name (can_execute (host.clock w) b).0 r

  module _ (unknown : get name r.circuit_breakers ≡ none → P (err (not_found name), r, w))
      (rejected : (b : CircuitBreaker)
        → get name r.circuit_breakers ≡ some b
        → (can_execute (host.clock w) b).1 ≡ false
        → P (err (circuit_open name), after_attempt b, w))
      (refused : (b : CircuitBreaker) (e : ToolError)
        → get name r.circuit_breakers ≡ some b
        → (can_execute (host.clock w) b).1 ≡ true
        → P (err e, after_attempt b, w))
      (ran : (b : CircuitBreaker) (tool : Tool Value World)
          (returned : Option (Exit ToolError Value)) (w' : World)
        → get name r.circuit_breakers ≡ some b
        → (can_execute (host.clock w) b).1 ≡ true
        → validate_input host r name input ≡ none
        → get name r.tools ≡ some tool
        → host.timeout limit (tool.execute input) w ≡ (returned, w')
        → P (
            finish host
              (after_attempt b)
              name
              (can_execute (host.clock w) b).0
              (timed host limit returned)
              w')) where
    allowed-cases :
        (b : CircuitBreaker)
        → get name r.circuit_breakers ≡ some b
        → (can_execute (host.clock w) b).1 ≡ true
        → P (
            validated host
              (after_attempt b)
              name
              (can_execute (host.clock w) b).0
              input
              limit
              (validate_input host r name input)
              w)
    unfolding validated invoke
    allowed-cases b known go = elim (Option-cases (validate_input host r name input)) [
      | inl valid ↦ elim (Option-cases (get name r.tools)) [
        | inl missing ↦ rw (valid, missing) (refused b (not_found name) known go)
        | inr (tool, found) ↦
            let (returned, w') = host.timeout limit (tool.execute input) w in
            rw (valid, found) (ran b tool returned w' known go valid found refl)
      ]
      | inr (e, bad) ↦ rw bad (refused b e known go)
    ]

    guarded-cases : P (guarded host r name (get name r.circuit_breakers) input limit w)
    unfolding guarded
    guarded-cases = elim (Option-cases (get name r.circuit_breakers)) [
      | inl none_known ↦ rw none_known (unknown none_known)
      | inr (b, known) ↦ elim (Bool-cases (can_execute (host.clock w) b).1) [
        | inl go ↦ rw (known, go) (allowed-cases b known go)
        | inr stop ↦ rw (known, stop) (rejected b known stop)
      ]
    ]

    pub execute-cases :
        (truncate_text (host.to_string input) 500 ≡ none → P (panic, r, w))
        → P (execute_with_timeout host r name input limit w)
    unfolding execute_with_timeout
    execute-cases unreadable = elim (Option-cases (truncate_text (host.to_string input) 500)) [
      | inl e ↦ rw e (unreadable e)
      | inr (shown, e) ↦ rw e guarded-cases
    ]
