-- ===== src/Tools/Registry.antt =====
-- The registry of tools and their execution under a timeout and a circuit breaker
-- (runtime/src/tools/registry.rs, with the validator of runtime/src/tools/validator.rs). A `HashMap`
-- is an association list. JSON values, the JSON Schema validator, the state of the outside world, its
-- clock and the timer of the async runtime are parameters.
mod Tests
pub mod Truncation
pub mod Outcomes
pub mod Cases
pub mod Invariant
pub mod Shared
pub mod Sample
use xola.Base.{
  ℕ, ◌≡◌, Option, none, some, String, List, [], ◌∷◌, Exit, ok, err, panic, Duration, as_millis,
  as_u64, ltb, if◌then◌else◌,
}
use xola.Base.Dict.{Dict, get, insert, contains_key, keys}
use xola.Base.Text.{to_decimal, ◌<>◌, len, slice_to}
use xola.Reliability.CircuitBreaker
use xola.Reliability.CircuitBreaker.{
  CircuitBreaker, CircuitBreakerConfig, can_execute, record_success, record_failure,
}
use xola.Tools.Error.{ToolError, invalid_input, not_found, circuit_open, timed_out}

pub data RegistryError : Type 0 where
  duplicate_name : String → RegistryError

-- What `jsonschema` finds of a schema and an input: a schema that is none, or the errors of the input.
pub data SchemaCheck : Type 0 where
  bad_schema : String → SchemaCheck
  checked : List String → SchemaCheck

-- The `Tool` trait. An execution may change the world, and it ends in a value or in an error.
pub record Tool (Value World : Type 0) : Type 0 where
  pub name : String
  pub description : String
  pub input_schema : Value
  pub execute : Value → World → Exit ToolError Value × World

-- The libraries that the registry calls, and the clock.
pub record Host (Value World : Type 0) : Type 0 where
  pub to_string : Value → String
  pub schema_entry : String → String → Value → Value
  pub check : Value → Value → SchemaCheck
  pub clock : World → Duration
  -- `tokio::time::timeout`: what the future returned, or nothing where its time was over.
  pub timeout :
      Duration
      → (World → Exit ToolError Value × World)
      → World
      → Option (Exit ToolError Value) × World
  -- A future that returned in time returned what it computes.
  pub timeout_some :
      (d : Duration) (future : World → Exit ToolError Value × World) (w w' : World)
      (r : Exit ToolError Value)
      → timeout d future w ≡ (some r, w')
      → future w ≡ (r, w')

shortened : ℕ → Option String → Option String
shortened total none = none
shortened total (some front) =
    some (front <> "... [truncated, " <> to_decimal total <> " bytes total]")

-- `truncate_json` on the text of a value; `none` where it panics.
unfoldable pub truncate_text : String → ℕ → Option String
unfolding shortened
truncate_text serialized max_chars =
    if ltb max_chars (len serialized)
    then shortened (len serialized) (slice_to max_chars serialized)
    else some serialized

abbrev pub join : String → List String → String
join sep [] = ""
join sep (s ∷ []) = s
join sep (s ∷ t ∷ rest) = s <> sep <> join sep (t ∷ rest)

-- The result of `InputValidator::validate`: nothing, or the error.
unfoldable pub validate : SchemaCheck → Option ToolError
validate (bad_schema e) = some (invalid_input ("Invalid schema definition: " <> e))
validate (checked []) = none
validate (checked (e ∷ errors)) =
    some (invalid_input ("Input validation failed: " <> join ", " (e ∷ errors)))

pub record ToolRegistry (Value World : Type 0) : Type 0 where
  pub tools : Dict (Tool Value World)
  pub circuit_breakers : Dict CircuitBreaker
  pub circuit_breaker_config : CircuitBreakerConfig

module _ {Value World : Type 0} where
  unfoldable pub new : CircuitBreakerConfig → ToolRegistry Value World
  new config = record { tools = []; circuit_breakers = []; circuit_breaker_config = config }

  -- A tool under its name, with a new breaker; a name that is taken changes nothing.
  unfoldable pub register :
      ToolRegistry Value World
      → Tool Value World
      → Exit RegistryError (Unit {0}) × ToolRegistry Value World
  register r tool =
      if contains_key tool.name r.tools then (err (duplicate_name tool.name), r) else (
        ok tt,
        record r {
          tools = insert tool.name tool r.tools;
          circuit_breakers =
              insert tool.name (CircuitBreaker.new r.circuit_breaker_config) r.circuit_breakers;
        },
      )

  unfoldable pub list_names : ToolRegistry Value World → List String
  list_names r = keys r.tools

  abbrev pub set_breaker :
      String → CircuitBreaker → ToolRegistry Value World → ToolRegistry Value World
  set_breaker name b r = record r { circuit_breakers = insert name b r.circuit_breakers }

module _ {Value World : Type 0} (host : Host Value World) where
  abbrev schemas_of : Dict (Tool Value World) → List Value
  schemas_of [] = []
  schemas_of ((name, tool) ∷ rest) =
      host.schema_entry tool.name tool.description tool.input_schema ∷ schemas_of rest

  unfoldable pub list_schemas : ToolRegistry Value World → List Value
  list_schemas r = schemas_of r.tools

  validate_with : Option (Tool Value World) → String → Value → Option ToolError
  validate_with none tool_name input = some (not_found tool_name)
  validate_with (some tool) tool_name input = validate (host.check tool.input_schema input)

  unfoldable pub validate_input : ToolRegistry Value World → String → Value → Option ToolError
  unfolding validate_with validate
  validate_input r tool_name input = validate_with (get tool_name r.tools) tool_name input

  -- The end of a call, the registry and the world after it.
  abbrev pub Called : Type 0
  Called = Exit ToolError Value × ToolRegistry Value World × World

  abbrev pub timed : Duration → Option (Exit ToolError Value) → Exit ToolError Value
  timed limit none = err (timed_out (as_u64 (as_millis limit)))
  timed limit (some result) = result

  unfoldable pub logged : Value → Option String → Exit ToolError Value
  logged output none = panic
  logged output (some shown) = ok output

  -- Step 4: the outcome is recorded with the breaker, and a result is rendered for the log.
  unfoldable pub finish :
      ToolRegistry Value World → String → CircuitBreaker → Exit ToolError Value → World → Called
  unfolding logged
  finish r name b (ok output) w = (
    logged output (truncate_text (host.to_string output) 500),
    set_breaker name (record_success b) r,
    w,
  )
  finish r name b (err e) w = (err e, set_breaker name (record_failure (host.clock w) b) r, w)
  finish r name b panic w = (panic, r, w)

  -- Steps 2 and 3.
  unfoldable pub invoke :
      ToolRegistry Value World
      → String
      → CircuitBreaker
      → Value
      → Duration
      → Option (Tool Value World)
      → World
      → Called
  unfolding finish
  invoke r name b input limit none w = (err (not_found name), r, w)
  invoke r name b input limit (some tool) w =
      let (returned, w') = host.timeout limit (tool.execute input) w in
      finish r name b (timed limit returned) w'

  -- Step 1.
  unfoldable pub validated :
      ToolRegistry Value World
      → String
      → CircuitBreaker
      → Value
      → Duration
      → Option ToolError
      → World
      → Called
  unfolding invoke
  validated r name b input limit (some e) w = (err e, r, w)
  validated r name b input limit none w = invoke r name b input limit (get name r.tools) w

  -- Step 0.
  unfoldable pub guarded :
      ToolRegistry Value World → String → Option CircuitBreaker → Value → Duration → World → Called
  unfolding validated validate_input
  guarded r name none input limit w = (err (not_found name), r, w)
  guarded r name (some b) input limit w =
      let (b', allowed) = can_execute (host.clock w) b in
      let r' = set_breaker name b' r in
      if allowed
      then validated r' name b' input limit (validate_input r' name input) w
      else (err (circuit_open name), r', w)

  unfoldable pub displayed :
      ToolRegistry Value World → String → Value → Duration → World → Option String → Called
  unfolding guarded
  displayed r name input limit w none = (panic, r, w)
  displayed r name input limit w (some input_display) =
      guarded r name (get name r.circuit_breakers) input limit w

  unfoldable pub execute_with_timeout :
      ToolRegistry Value World → String → Value → Duration → World → Called
  unfolding displayed truncate_text
  execute_with_timeout r tool_name input limit w =
      displayed r tool_name input limit w (truncate_text (host.to_string input) 500)
