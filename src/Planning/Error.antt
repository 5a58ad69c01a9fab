-- ===== src/Planning/Error.antt =====
-- The errors of a plan and their classification (runtime/src/planning/error.rs).
use xola.Base.{ℕ, Bool, true, false, String}
use xola.Ipc.{IpcError}
use xola.Tools.Error.{ToolError}

pub data FailureCategory : Type 0 where
  timeout parse_error tool_error loop resource_exhaustion ipc_failure internal_error :
      FailureCategory

-- A `JoinError` of the async runtime is represented by its text.
pub data PlanError : Type 0 where
  max_iterations_reached : ℕ → PlanError
  max_replans_per_step : ℕ → String → PlanError
  max_replans_per_task : ℕ → PlanError
  ipc : IpcError → PlanError
  tool : ToolError → PlanError
  parallel_branch_failed : String → PlanError
  join_error : String → PlanError
  looping : String → PlanError
  timed_out : String → ℕ → PlanError

unfoldable pub category : PlanError → FailureCategory
category (timed_out level duration_ms) = timeout
category (looping message) = loop
category (tool e) = tool_error
category (ipc e) = ipc_failure
category (max_iterations_reached n) = resource_exhaustion
category (max_replans_per_step n action) = resource_exhaustion
category (max_replans_per_task n) = resource_exhaustion
category (join_error e) = internal_error
category (parallel_branch_failed e) = internal_error

retryable : FailureCategory → Bool
retryable timeout = true
retryable tool_error = true
retryable ipc_failure = true
retryable _ = false

unfoldable pub is_retryable : PlanError → Bool
unfolding category retryable
is_retryable e = retryable (category e)

stuck : FailureCategory → Bool
stuck loop = true
stuck resource_exhaustion = true
stuck _ = false

unfoldable pub is_stuck : PlanError → Bool
unfolding category stuck
is_stuck e = stuck (category e)
