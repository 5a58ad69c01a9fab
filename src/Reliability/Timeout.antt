-- ===== src/Reliability/Timeout.antt =====
-- The timeouts of a task, its steps and its calls of tools (runtime/src/reliability/timeout.rs).
-- Cancellation tokens, which are another package's, are a parameter.
mod Tests
use xola.Base.{◌≡◌, Bool, true, Duration, from_secs}

pub record TimeoutConfig : Type 0 where
  pub tool_timeout : Duration
  pub step_timeout : Duration
  pub task_timeout : Duration

-- TimeoutConfig::default
abbrev pub default_config : TimeoutConfig
default_config = record {
  tool_timeout = from_secs 30;
  step_timeout = from_secs 60;
  task_timeout = from_secs 300;
}

-- `tokio_util::sync::CancellationToken`, as documented: a token that is cancelled stays so, and is so for
-- each of its children, those that are made later included.
pub record Tokens (Token World : Type 0) : Type 0 where
  pub new : World → Token × World
  pub child_token : Token → World → Token × World
  pub cancel : Token → World → World
  pub is_cancelled : Token → World → Bool
  pub cancel_cancels : (t : Token) (w : World) → is_cancelled t (cancel t w) ≡ true
  pub child_follows :
      (t : Token) (w v : World)
      → is_cancelled t v ≡ true
      → is_cancelled (child_token t w).0 v ≡ true

pub record TimeoutContext (Token : Type 0) : Type 0 where
  pub task_token : Token
  pub config : TimeoutConfig

module _ {Token World : Type 0} (tokens : Tokens Token World) where
  abbrev pub new_task : TimeoutConfig → World → TimeoutContext Token × World
  new_task config w =
      let (task_token, w') = tokens.new w in
      (record { task_token = task_token; config = config }, w')

  unfoldable pub new_step_token : TimeoutContext Token → World → Token × World
  new_step_token context = tokens.child_token context.task_token

  unfoldable pub new_tool_token : TimeoutContext Token → Token → World → Token × World
  new_tool_token context step_token = tokens.child_token step_token

  unfoldable pub cancel_task : TimeoutContext Token → World → World
  cancel_task context = tokens.cancel context.task_token

  -- The cancellation of a task reaches the steps of the task and the calls of tools in them, whenever
  -- their tokens were made.
  pub cancel_task-cascades :
      (context : TimeoutContext Token) (u v w : World)
      → let step_token = (new_step_token context u).0 in
        (tokens.is_cancelled step_token (cancel_task context w) ≡ true)
        × (tokens.is_cancelled (new_tool_token context step_token v).0 (cancel_task context w)
            ≡ true)
  unfolding new_step_token new_tool_token cancel_task
  cancel_task-cascades context u v w =
      let stepped =
        tokens.child_follows context.task_token u (tokens.cancel context.task_token w)
          (tokens.cancel_cancels context.task_token w) in
      (
        stepped,
        tokens.child_follows (tokens.child_token context.task_token u).0 v
            (tokens.cancel context.task_token w) stepped,
      )
