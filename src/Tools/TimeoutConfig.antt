-- ===== src/Tools/TimeoutConfig.antt =====
-- Timeouts for each tool (runtime/src/tools/timeout_config.rs).
mod Tests
use text.Mathlib.Text.{◌==◌}
use xola.Base.{
  ℕ, ◌<◌, ◌≡◌, word_count, refl, String, Option, none, some, [], Duration, from_millis,
  if◌then◌else◌, arith,
}
use xola.Base.Text.{to_decimal}
use xola.Base.Text.Parsing.{parse_u64, parse_u64-to_decimal}
use xola.Base.Dict.{Dict, get, insert, get-insert}

pub record ToolTimeoutConfig : Type 0 where
  pub default_timeout_ms : ℕ
  pub per_tool_timeout_ms : Dict ℕ

-- ToolTimeoutConfig::default
abbrev pub default_config : ToolTimeoutConfig
default_config = record { default_timeout_ms = 60_000; per_tool_timeout_ms = [] }

unfoldable pub set_timeout : String → ℕ → ToolTimeoutConfig → ToolTimeoutConfig
set_timeout tool_name timeout_ms c = record c {
  per_tool_timeout_ms = insert tool_name timeout_ms c.per_tool_timeout_ms;
}

abbrev unwrap_or : Option ℕ → ℕ → ℕ
unwrap_or none d = d
unwrap_or (some ms) d = ms

-- s.and_then(|s| s.parse().ok())
abbrev parsed : Option String → Option ℕ
parsed none = none
parsed (some s) = parse_u64 s

-- ToolTimeoutConfig::from_env, on the value of XOLA_TOOL_TIMEOUT_MS
unfoldable pub from_env : Option String → ToolTimeoutConfig
from_env variable = record {
  default_timeout_ms = unwrap_or (parsed variable) 60_000;
  per_tool_timeout_ms = [];
}

unfoldable pub get_timeout : String → ToolTimeoutConfig → Duration
get_timeout tool_name c =
    from_millis (unwrap_or (get tool_name c.per_tool_timeout_ms) c.default_timeout_ms)

-- A timeout that is set for one tool is the one that this tool gets, and changes no other tool's.
get_timeout-set_timeout :
    (c : ToolTimeoutConfig) (tool other : String) (timeout_ms : ℕ)
    → get_timeout other (set_timeout tool timeout_ms c)
      ≡ (if tool == other then from_millis timeout_ms else get_timeout other c)
unfolding get_timeout set_timeout
get_timeout-set_timeout c tool other timeout_ms =
    ground (arith, get-insert tool other timeout_ms c.per_tool_timeout_ms)

-- A default of 64 bits that is written in the environment is the one that every tool gets.
get_timeout-from_env :
    (timeout_ms : ℕ) (tool : String)
    → timeout_ms < word_count
    → get_timeout tool (from_env (some (to_decimal timeout_ms))) ≡ from_millis timeout_ms
unfolding get_timeout from_env get
get_timeout-from_env timeout_ms tool fits = rw (parse_u64-to_decimal timeout_ms fits) refl
