-- ===== src/Ipc.antt =====
-- What the runtime and the language model's server exchange (runtime/src/ipc).
pub mod Client
use xola.Base.{ℕ, Bool, Option, String, List, Exit}

-- A `reqwest::Error` is represented by its text.
pub data IpcError : Type 0 where
  transport : String → IpcError
  server_error : ℕ → String → IpcError
  deserialisation : String → IpcError

pub record IpcMessage : Type 0 where
  pub role : String
  pub content : String

pub record ReasonRequest (Value : Type 0) : Type 0 where
  pub messages : List IpcMessage
  pub tool_schemas : List Value
  pub memory_context : List String
  pub task_goal : String

pub record ReasonResponse (Value : Type 0) : Type 0 where
  pub thought : String
  pub action : Option String
  pub action_input : Value
  pub is_final : Bool
  pub final_answer : Option String

pub record EmbedRequest : Type 0 where
  pub text : String
  pub model : Option String

pub record EmbedResponse (Float : Type 0) : Type 0 where
  pub vector : List Float
  pub token_count : ℕ

pub record SummarizeRequest (Value : Type 0) : Type 0 where
  pub messages : List Value
  pub model : Option String
  pub max_summary_tokens : Option ℕ

pub record SummarizeResponse : Type 0 where
  pub summary : String
  pub token_count : ℕ

-- The `IpcTransport` trait, without `embed`, which the executor does not call.
pub record IpcTransport (Value World : Type 0) : Type 0 where
  pub reason : ReasonRequest Value → World → Exit IpcError (ReasonResponse Value) × World
  pub summarize : SummarizeRequest Value → World → Exit IpcError SummarizeResponse × World
