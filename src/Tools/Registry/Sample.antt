-- ===== src/Tools/Registry/Sample.antt =====
-- A concrete registry for the tests of runtime/src/tools/registry.rs. A value is a text, a schema allows
-- the text that equals it, and the world is the time in nanoseconds.
use text.Mathlib.Text.{◌==◌}
use mathlib.Core.Option.{some-injective}
use xola.Base.{
  ℕ, ◌+◌, ◌-◌, ◌≡◌, ap, inl, inr, Option, none, some, String, [], ◌∷◌, Exit, ok, err, Duration,
  from_millis, ltb, if◌then◌else◌, Bool-cases,
}
use xola.Reliability.CircuitBreaker.{CircuitBreakerConfig}
use xola.Tools.Error.{ToolError, execution_failed}
use xola.Tools.Registry.{Tool, Host, SchemaCheck, checked, ToolRegistry, new, register}

abbrev pub Text : Type 0
Text = String

abbrev pub allow : Text → Text → SchemaCheck
allow schema input = if schema == input then checked [] else checked ("not the text" ∷ [])

abbrev pub on_time : Duration → (ℕ → Exit ToolError Text × ℕ) → ℕ → Option (Exit ToolError Text) × ℕ
on_time d future w =
    if ltb d ((future w).1 - w) then (none, w + d) else (some (future w).0, (future w).1)

pub on_time-some :
    (d : Duration) (future : ℕ → Exit ToolError Text × ℕ) (w w' : ℕ) (r : Exit ToolError Text)
    → on_time d future w ≡ (some r, w')
    → future w ≡ (r, w')
on_time-some d future w w' r e = elim (Bool-cases (ltb d ((future w).1 - w))) [
  | inl late ↦ cc (rw late at e)
  | inr early ↦
      let q = rw early at e in
      λ i. (
        some-injective _ _ (ap (λ (p : Option (Exit ToolError Text) × ℕ). p.0) q) i,
        (ap (λ (p : Option (Exit ToolError Text) × ℕ). p.1) q i),
      )
]

abbrev pub host : Host Text ℕ
host = record {
  to_string = λ v. v;
  schema_entry = λ name description schema. name;
  check = allow;
  clock = λ w. w;
  timeout = on_time;
  timeout_some = on_time-some;
}

abbrev pub config : CircuitBreakerConfig
config = record { failure_threshold = 2; recovery_timeout = from_millis 100 }

abbrev pub echo : Tool Text ℕ
echo = record {
  name = "mock_echo";
  description = "Echoes";
  input_schema = "hello";
  execute = λ v w. (ok v, w + from_millis 5);
}

abbrev pub failing : Tool Text ℕ
failing = record {
  name = "failing_tool";
  description = "Fails";
  input_schema = "hello";
  execute = λ v w. (err (execution_failed "Simulated failure"), w + from_millis 7);
}

abbrev pub registry : ToolRegistry Text ℕ
registry = (register (register (new config) echo).1 failing).1

abbrev pub second : Duration
second = from_millis 1_000
