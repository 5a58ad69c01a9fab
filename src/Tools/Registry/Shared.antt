-- ===== src/Tools/Registry/Shared.antt =====
-- Calls of several tasks on one registry (runtime/src/tools/registry.rs). A call waits only while its tool
-- runs: what comes before is one step here, and what comes after is another, and the steps of different
-- calls come in any order.
pub mod System
pub mod Breakers
pub mod Kept
mod Tests
use xola.Base.{
  ◌≡◌, refl, inl, inr, Option-cases, Bool-cases, Option, none, some, String, Exit, err, panic,
  Duration, if◌then◌else◌,
}
use xola.Base.Dict.{get, get-insert_self}
use xola.Reliability.CircuitBreaker.{CircuitBreaker, can_execute}
use xola.Tools.Error.{ToolError, not_found, circuit_open}
use xola.Tools.Registry.{
  Tool, Host, ToolRegistry, set_breaker, Called, finish, invoke, validated, guarded,
  execute_with_timeout, timed, truncate_text, validate_input,
}

-- Where a call stands after its first part.
pub data Entered (Value World : Type 0) : Type 0 where
  returned : Exit ToolError Value → Entered Value World
  awaits : Tool Value World → Entered Value World

module _ {Value World : Type 0} (host : Host Value World) where
  abbrev admitted : Option (Tool Value World) → String → Entered Value World
  admitted none name = returned (err (not_found name))
  admitted (some tool) name = awaits tool

  abbrev checked_input : Option ToolError → ToolRegistry Value World → String → Entered Value World
  checked_input (some e) r name = returned (err e)
  checked_input none r name = admitted (get name r.tools) name

  abbrev past_breaker :
      Option CircuitBreaker
      → ToolRegistry Value World
      → String
      → Value
      → World
      → Entered Value World × ToolRegistry Value World
  past_breaker none r name input w = (returned (err (not_found name)), r)
  past_breaker (some b) r name input w =
      let (b', allowed) = can_execute (host.clock w) b in
      let r' = set_breaker name b' r in
      (
        if allowed
            then checked_input (validate_input host r' name input) r' name
            else returned (err (circuit_open name)),
        r',
      )

  abbrev entered :
      Option String
      → ToolRegistry Value World
      → String
      → Value
      → World
      → Entered Value World × ToolRegistry Value World
  entered none r name input w = (returned panic, r)
  entered (some shown) r name input w = past_breaker (get name r.circuit_breakers) r name input w

  -- Before the tool runs.
  unfoldable pub enter :
      ToolRegistry Value World
      → String
      → Value
      → World
      → Entered Value World × ToolRegistry Value World
  unfolding validate_input truncate_text
  enter r name input w = entered (truncate_text (host.to_string input) 500) r name input w

  abbrev left :
      Option CircuitBreaker
      → ToolRegistry Value World
      → String
      → Exit ToolError Value
      → World
      → Called host
  left none r name result w = (result, r, w)
  left (some b) r name result w = finish host r name b result w

  -- After the tool has run, or its time is over. The breaker is the one that the call began with, as it is
  -- then; a registry that has a breaker under a name keeps it.
  unfoldable pub leave :
      ToolRegistry Value World → String → Exit ToolError Value → World → Called host
  unfolding finish
  leave r name result w = left (get name r.circuit_breakers) r name result w

  -- A call whose parts no other call comes between.
  abbrev pub through :
      String
      → Value
      → Duration
      → World
      → Entered Value World × ToolRegistry Value World
      → Called host
  through name input limit w (returned e, r) = (e, r, w)
  through name input limit w (awaits tool, r) =
      let (result, w') = host.timeout limit (tool.execute input) w in
      leave r name (timed host limit result) w'

  run-leave :
      (r : ToolRegistry Value World) (name : String) (b : CircuitBreaker) (input : Value)
      (limit : Duration) (w : World) (found : Option (Tool Value World))
      → through name input limit w (admitted found name, set_breaker name b r)
        ≡ invoke host (set_breaker name b r) name b input limit found w
  unfolding leave invoke
  run-leave r name b input limit w none = refl
  run-leave r name b input limit w (some tool) = rw (get-insert_self name b r.circuit_breakers) refl

  input-leave :
      (r : ToolRegistry Value World) (name : String) (b : CircuitBreaker) (input : Value)
      (limit : Duration) (w : World) (checked : Option ToolError)
      → through name input limit w
          (checked_input checked (set_breaker name b r) name, set_breaker name b r)
        ≡ validated host (set_breaker name b r) name b input limit checked w
  unfolding validated
  input-leave r name b input limit w none = run-leave r name b input limit w (get name r.tools)
  input-leave r name b input limit w (some e) = refl

  breaker-leave :
      (r : ToolRegistry Value World) (name : String) (input : Value) (limit : Duration) (w : World)
      (known : Option CircuitBreaker)
      → through name input limit w (past_breaker known r name input w)
        ≡ guarded host r name known input limit w
  unfolding guarded
  breaker-leave r name input limit w none = refl
  breaker-leave r name input limit w (some b) = elim (Bool-cases (can_execute (host.clock w) b).1) [
    | inl go ↦
        let r' = set_breaker name (can_execute (host.clock w) b).0 r in
        rw go (
          input-leave r name (can_execute (host.clock w) b).0 input limit w
            (validate_input host r' name input))
    | inr stop ↦ rw stop refl
  ]

  -- A call that no other call interrupts is an execution: its two parts, with the tool's run between them.
  enter-leave :
      (r : ToolRegistry Value World) (name : String) (input : Value) (limit : Duration) (w : World)
      → through name input limit w (enter r name input w)
        ≡ execute_with_timeout host r name input limit w
  unfolding enter execute_with_timeout
  enter-leave r name input limit w =
      elim (Option-cases (truncate_text (host.to_string input) 500)) [
        | inl e ↦ rw e refl
        | inr (shown, e) ↦ rw e (breaker-leave r name input limit w (get name r.circuit_breakers))
      ]
