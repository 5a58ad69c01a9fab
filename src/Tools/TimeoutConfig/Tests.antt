-- ===== src/Tools/TimeoutConfig/Tests.antt =====
-- Tests of runtime/src/tools/timeout_config.rs, and the theorem at a concrete configuration.
use xola.Base.Text.Parsing.{parse_u64}
use xola.Base.{none, some, [], ◌≡◌, refl, from_secs}
use xola.Base.Dict.{get, insert}
use xola.Tools.TimeoutConfig.{ToolTimeoutConfig, default_config, set_timeout, from_env, get_timeout}

abbrev code_exec_fast : ToolTimeoutConfig
code_exec_fast = set_timeout "code_exec" 30_000 default_config

default_timeout : get_timeout "any_tool" default_config ≡ from_secs 60
unfolding get_timeout get
default_timeout = refl

per_tool_override : get_timeout "code_exec" code_exec_fast ≡ from_secs 30
unfolding get_timeout set_timeout get insert
per_tool_override = refl

no_variable : from_env none ≡ default_config
unfolding from_env
no_variable = refl

not_a_number : from_env (some "60s") ≡ default_config
unfolding from_env parse_u64
not_a_number = refl

too_large : from_env (some "18446744073709551616") ≡ default_config
unfolding from_env parse_u64
too_large = refl

with_plus :
    from_env (some "+5000") ≡ record { default_timeout_ms = 5_000; per_tool_timeout_ms = [] }
unfolding from_env parse_u64
with_plus = refl
