-- ===== src/Memory/EpisodicLog.antt =====
-- The records of finished tasks (runtime/src/memory/episodic_log.rs). The database is a parameter of Rows.
pub mod Search
pub mod Rows
pub mod Roundtrip
pub mod Matching
pub mod Table
pub mod Log
pub mod Sample
mod Tests
use xola.Base.{ℕ, Bool, true, false, Option, none, some, String, List}

pub data Outcome : Type 0 where
  success failure : Outcome

-- outcome.as_str()
abbrev pub as_str : Outcome → String
as_str success = "success"
as_str failure = "failure"

pub record TaskStep (Value : Type 0) : Type 0 where
  pub action : String
  pub input : Value
  pub success : Bool
  pub error : Option String

-- TaskStep::success and TaskStep::failure
abbrev pub step_success : {Value : Type 0} → String → Value → TaskStep Value
step_success action input = record { action = action; input = input; success = true; error = none }

abbrev pub step_failure : {Value : Type 0} → String → Value → String → TaskStep Value
step_failure action input error = record {
  action = action;
  input = input;
  success = false;
  error = some error;
}

pub record EpisodeInput (Value : Type 0) : Type 0 where
  pub task_goal : String
  pub steps : List (TaskStep Value)
  pub outcome : Outcome
  pub error : Option String
  pub duration_ms : ℕ
