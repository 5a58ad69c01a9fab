-- ===== src/StartUp.antt =====
-- The registry that the runtime starts with, and what `main` tries on it (runtime/src/main.rs).
pub mod Ready
pub mod Agent
mod Tests
use xola.Base.{Option, none, some, String, [], ◌∷◌, Exit, ok, err, panic, Duration}
use xola.Reliability.CircuitBreaker
use xola.Tools.Effects.{Json}
use xola.Tools.Registry
use xola.Tools.Registry.{
  Tool, Host, ToolRegistry, RegistryError, register, validate_input, execute_with_timeout,
}
use xola.Tools.Error.{ToolError}
use xola.Tools.TimeoutConfig
use xola.Tools.TimeoutConfig.{get_timeout}
use xola.Base.Dict.{get}
use xola.Base.Http.{Http}
use xola.Tools.Mock.{mock_tool}
use xola.Tools.UrlFetch.{url_fetch_tool}
use xola.Tools.WebSearch.{web_search_tool}
use xola.Tools.CodeExec.{Docker, code_exec_tool}

module _ {Value World : Type 0} where
  -- result.expect(..)
  abbrev pub expect :
      Exit RegistryError (Unit {0}) × ToolRegistry Value World
      → Exit RegistryError (ToolRegistry Value World)
  expect (ok done, r) = ok r
  expect (err e, r) = panic
  expect (panic, r) = panic

  abbrev pub then_register :
      Exit RegistryError (ToolRegistry Value World)
      → Tool Value World
      → Exit RegistryError (ToolRegistry Value World)
  then_register (ok r) tool = expect (register r tool)
  then_register (err e) tool = err e
  then_register panic tool = panic

-- What `main` prints of its trial.
pub record Report (Value : Type 0) : Type 0 where
  pub on_valid : Option ToolError
  pub on_invalid : Option ToolError
  pub execution : Exit ToolError Value

module _ {Value : Type 0} (json : Json Value) where
  abbrev pub valid_input : Value
  valid_input = json.object (("message", json.string "Registry working!") ∷ [])

  abbrev pub invalid_input : Value
  invalid_input = json.object (("wrong_field", json.string "oops") ∷ [])

module _ {Value World : Type 0} (json : Json Value) (host : Host Value World) where
  -- The two validations and the execution that `main` reports.
  unfoldable pub trial : ToolRegistry Value World → World → Report Value × World
  trial registry w =
      let (result, registry', w') =
        execute_with_timeout host registry "mock_echo" (valid_input json)
          (get_timeout "mock_echo" TimeoutConfig.default_config) w in
      (
        record {
          on_valid = validate_input host registry "mock_echo" (valid_input json);
          on_invalid = validate_input host registry "mock_echo" (invalid_input json);
          execution = result;
        },
        w',
      )

module _ {Value World : Type 0} (json : Json Value) (http : Http Value World)
    (env_var : String → World → Option String) (clock : World → Duration)
    (docker : Docker Value World) where
  unfoldable pub start_up : Exit RegistryError (ToolRegistry Value World)
  start_up =
      then_register
        (then_register
          (then_register
            (then_register (ok (Registry.new CircuitBreaker.default_config)) (mock_tool json clock))
            (url_fetch_tool json http))
          (web_search_tool json http env_var))
        (code_exec_tool json docker)

  module _ (host : Host Value World) where
    -- registry.get("mock_echo").expect(..)
    abbrev after_lookup :
        ToolRegistry Value World
        → Option (Tool Value World)
        → World
        → Exit RegistryError (Report Value × World)
    after_lookup registry none w = panic
    after_lookup registry (some tool) w = ok (trial json host registry w)

    abbrev after_start :
        Exit RegistryError (ToolRegistry Value World)
        → World
        → Exit RegistryError (Report Value × World)
    after_start (ok registry) w = after_lookup registry (get "mock_echo" registry.tools) w
    after_start (err e) w = err e
    after_start panic w = panic

    unfoldable pub main : World → Exit RegistryError (Report Value × World)
    unfolding start_up trial
    main w = after_start start_up w
