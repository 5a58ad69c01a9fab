-- ===== src/StartUp/Ready.antt =====
-- The registry after the start (runtime/src/main.rs).
use xola.Base.{◌≡◌, refl, Option, some, String, ok, Duration, arith}
use xola.Base.Dict.{get, insert, contains_key}
use xola.Reliability.CircuitBreaker
use xola.Tools.Effects.{Json}
use xola.Tools.Registry
use xola.Tools.Registry.{ToolRegistry, register}
use xola.Tools.Registry.Invariant.{IsRegistry, register-IsRegistry, new-IsRegistry}
use xola.Base.Http.{Http}
use xola.Tools.Mock.{mock_tool}
use xola.Tools.UrlFetch.{url_fetch_tool}
use xola.Tools.WebSearch.{web_search_tool}
use xola.Tools.CodeExec.{Docker, code_exec_tool}
use xola.StartUp.{start_up}

module _ {Value World : Type 0} (json : Json Value) (http : Http Value World)
    (env_var : String → World → Option String) (clock : World → Duration)
    (docker : Docker Value World) where
  abbrev pub registered : ToolRegistry Value World
  registered =
      (register
        (register
          (register (register (Registry.new CircuitBreaker.default_config) (mock_tool json clock)).1
            (url_fetch_tool json http)).1
          (web_search_tool json http env_var)).1
        (code_exec_tool json docker)).1

  registered-IsRegistry : IsRegistry registered
  registered-IsRegistry = register-IsRegistry _ (code_exec_tool json docker) (
      register-IsRegistry _ (web_search_tool json http env_var) (
        register-IsRegistry _ (url_fetch_tool json http) (
          register-IsRegistry _ (mock_tool json clock)
            (new-IsRegistry CircuitBreaker.default_config (omega arith)))))

  -- The runtime starts without a panic: none of the four registrations fails, and the registry that comes
  -- out is well formed and has each of the four tools under its name.
  start_up_ready :
      (r : ToolRegistry Value World) × (start_up json http env_var clock docker ≡ ok r)
      × IsRegistry r
      × (get "mock_echo" r.tools ≡ some (mock_tool json clock))
      × (get "url_fetch" r.tools ≡ some (url_fetch_tool json http))
      × (get "web_search" r.tools ≡ some (web_search_tool json http env_var))
      × (get "code_exec" r.tools ≡ some (code_exec_tool json docker))
  unfolding start_up register get insert contains_key Registry.new
  start_up_ready = (registered, refl, registered-IsRegistry, refl, refl, refl, refl)
