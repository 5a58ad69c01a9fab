-- ===== src/Tools/Mock.antt =====
-- The tool that echoes a message (runtime/src/tools/mock.rs).
use xola.Base.{ℕ, ◌/◌, String, [], ◌∷◌, Duration, pos}
use xola.Tools.Error.{ToolError, invalid_input}
use xola.Tools.Effects.{Json, str_field, Act, return, ok_or, ◌>>=◌}
use xola.Tools.Registry.{Tool}

-- d.as_secs()
abbrev pub as_secs : Duration → ℕ
as_secs d = d / 1_000_000_000

module _ {Value World : Type 0} (json : Json Value) (clock : World → Duration) where
  abbrev pub mock_schema : Value
  mock_schema = json.object (
      ("type", json.string "object")
      ∷ (
        "properties",
        json.object (
            (
              "message",
              json.object (
                  ("type", json.string "string")
                  ∷ ("description", json.string "The message to echo back")
                  ∷ []),
            )
            ∷ []),
      )
      ∷ ("required", json.array (json.string "message" ∷ []))
      ∷ [])

  abbrev pub echoed : String → World → Value
  echoed message w =
      json.object (
        ("echoed", json.string message) ∷ ("timestamp", json.number (pos (as_secs (clock w)))) ∷ [])

  -- MockTool::execute
  unfoldable pub mock_execute : Value → Act World ToolError Value
  mock_execute input = do
    message ←
        ok_or (invalid_input "missing or invalid 'message' field") (str_field json "message" input)
    λ w. return (echoed message w) w

  abbrev pub mock_tool : Tool Value World
  mock_tool = record {
    name = "mock_echo";
    description = "A mock tool that echoes back the input message";
    input_schema = mock_schema;
    execute = mock_execute;
  }
