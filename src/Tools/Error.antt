-- ===== src/Tools/Error.antt =====
-- The errors of tools (runtime/src/tools/mod.rs) and their texts.
use xola.Base.{ℕ, String}
use xola.Base.Text.{to_decimal, ◌<>◌}

-- A `serde_json::Error` is represented by its text.
pub data ToolError : Type 0 where
  invalid_input : String → ToolError
  execution_failed : String → ToolError
  timed_out : ℕ → ToolError
  json_error : String → ToolError
  not_found : String → ToolError
  circuit_open : String → ToolError

-- error.to_string()
unfoldable pub error_text : ToolError → String
error_text (invalid_input s) = "Invalid input: " <> s
error_text (execution_failed s) = "Execution failed: " <> s
error_text (timed_out timeout_ms) = "Timeout after " <> to_decimal timeout_ms <> "ms"
error_text (json_error s) = "JSON error: " <> s
error_text (not_found name) = "Tool '" <> name <> "' not found in registry"
error_text (circuit_open name) =
    "Circuit breaker is open for tool '" <> name <> "' - tool temporarily unavailable"
