-- ===== src/StartUp/Tests.antt =====
-- Tests of runtime/src/main.rs at concrete hosts. The world is the time in nanoseconds.
use xola.Base.{ℕ, ◌≡◌, refl, Option, none, some, String, [], ◌∷◌, ok, err, Duration, from_secs, pos}
use xola.Base.Dict.{get, insert, contains_key}
use xola.Base.Text.{len}
use xola.Reliability.CircuitBreaker
use xola.Reliability.CircuitBreaker.{can_execute}
use xola.Tools.TimeoutConfig
use xola.Tools.TimeoutConfig.{get_timeout}
use xola.Tools.Registry
use xola.Tools.Registry.{
  Host, SchemaCheck, checked, ToolRegistry, list_names, execute_with_timeout, register,
}
use xola.Tools.SampleJson.{Sample, sample_json}
use xola.Tools.SampleDaemon.{in_time, in_time-some, daemon}
use xola.Base.Http.{Http}
use xola.Tools.Mock.{mock_execute}
use xola.StartUp.Ready.{registered}

abbrev offline : Http Sample ℕ
offline = record {
  get = λ url w. (err "offline", w);
  post = λ url headers body w. (err "offline", w);
}

abbrev no_variable : String → ℕ → Option String
no_variable name w = none

abbrev clock : ℕ → Duration
clock w = w

-- The schema of the echo tool, on an object.
abbrev has_message : Option Sample → SchemaCheck
has_message none = checked ("\"message\" is a required property" ∷ [])
has_message (some v) = checked []

abbrev host : Host Sample ℕ
host = record {
  to_string = λ v. "{}";
  schema_entry = λ name description schema. schema;
  check = λ schema input. has_message (sample_json.get_field "message" input);
  clock = clock;
  timeout = in_time;
  timeout_some = in_time-some;
}

abbrev started : ToolRegistry Sample ℕ
started = registered sample_json offline no_variable clock (daemon (pos 0))

abbrev registry_working : Sample
registry_working = sample_json.object (("message", sample_json.string "Registry working!") ∷ [])

names : list_names started ≡ "mock_echo" ∷ "url_fetch" ∷ "web_search" ∷ "code_exec" ∷ []
unfolding list_names register Registry.new insert contains_key
names = refl

-- The call that `main` makes.
echoes :
    (execute_with_timeout host started "mock_echo" registry_working
      (get_timeout "mock_echo" TimeoutConfig.default_config)
      (from_secs 12)).0
    ≡ ok (
        sample_json.object (
          ("echoed", sample_json.string "Registry working!")
          ∷ ("timestamp", sample_json.number (pos 12))
          ∷ []))
unfolding register Registry.new insert contains_key get execute_with_timeout can_execute len
    CircuitBreaker.new mock_execute
echoes = refl
