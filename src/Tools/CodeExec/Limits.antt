-- ===== src/Tools/CodeExec/Limits.antt =====
-- The bounds on the time of a run (runtime/src/tools/code_exec.rs).
use xola.Base.{ℕ, ◌≤◌, ◌<◌, ◌≡◌, some, ℤ, pos, negsuc, clamp, arith, from_secs}
use xola.Base.Dict.{get}
use xola.Tools.Effects.{Json, i64_field, unwrap_or}
use xola.Tools.TimeoutConfig
use xola.Tools.TimeoutConfig.{get_timeout}
use xola.Tools.CodeExec.{timeout_seconds}

clamp-le : (lo hi : ℕ) (z : ℤ) → lo ≤ hi → (lo ≤ clamp lo hi z) × (clamp lo hi z ≤ hi)
unfolding clamp
clamp-le lo hi (pos n) h = ground arith
clamp-le lo hi (negsuc n) h = omega arith

clamp_within : (lo hi n : ℕ) → lo ≤ n → n ≤ hi → clamp lo hi (pos n) ≡ n
unfolding clamp
clamp_within lo hi n h k = ground arith

-- Whatever the input asks for, a run has at least one second and at most thirty, and less than the
-- registry gives a tool by default, so that the tool's own timer ends it and the container is removed.
timeout_seconds_bounds :
    {Value : Type 0} (json : Json Value) (input : Value)
    → (1 ≤ timeout_seconds json input)
      × (timeout_seconds json input ≤ 30)
      × (from_secs (timeout_seconds json input)
          < get_timeout "code_exec" TimeoutConfig.default_config)
unfolding timeout_seconds get_timeout get
timeout_seconds_bounds json input =
    let (low, high) =
      clamp-le 1 30 (unwrap_or (i64_field json "timeout_seconds" input) (pos 10)) (omega arith) in
    (low, high, omega arith)

-- A number of seconds that is within the bounds is taken as it is.
pub timeout_seconds_asked :
    {Value : Type 0} (json : Json Value) (input : Value) (n : ℕ)
    → i64_field json "timeout_seconds" input ≡ some (pos n)
    → 1 ≤ n
    → n ≤ 30
    → timeout_seconds json input ≡ n
unfolding timeout_seconds
timeout_seconds_asked json input n e h k = rw e (clamp_within 1 30 n h k)
