-- ===== src/Planning/Executor/Messages.antt =====
-- What the executor puts into the short-term memory and sends to the language model's server
-- (runtime/src/planning/executor.rs).
use xola.Base.{
  ℕ, max, ◌/◌, Bool, not, Option, none, some, String, List, [], map, Exit, ok, err, panic, ltb,
  if◌then◌else◌,
}
use xola.Base.Text.{to_decimal, ◌<>◌, len, slice_to}
use xola.Memory.ShortTerm.{
  Message, ShortTermMemory, Role, system, assistant, role_name, push, replace_with_summary,
}
use xola.Memory.EpisodicLog.{Outcome, success, failure, EpisodeInput}
use xola.Tools.Registry.{ToolRegistry, list_schemas}
use xola.Ipc.{
  IpcError, IpcMessage, ReasonRequest, ReasonResponse, SummarizeRequest, SummarizeResponse,
}
use xola.Planning.Error.{PlanError, ipc}
use xola.Planning.Executor.Task.{TaskResult, PlanExecutor, Task, Act, ◌>>=◌}

unfoldable pub estimate_tokens : String → ℕ
estimate_tokens text = max (len text / 4) 1

-- Message::new(role, text, estimate_tokens(text))
abbrev pub message : Role → String → Message
message role text = record { role = role; content = text; token_count = estimate_tokens text }

abbrev cut : String → Option String → Option String
cut text none = none
cut text (some front) =
    some (front <> "... [truncated, " <> to_decimal (len text) <> " chars total]")

-- The pretty text of a value, or its plain text.
abbrev or_else : Option String → String → String
or_else none plain = plain
or_else (some pretty) plain = pretty

truncated : String → Option String
truncated text = if ltb 4000 (len text) then cut text (slice_to 4000 text) else some text

observed : String → Option String → Option String
observed action none = none
observed action (some text) = some ("[Observation from " <> action <> "]:\n" <> text)

abbrev to_ipc_message : Message → IpcMessage
to_ipc_message m = record { role = role_name m.role; content = m.content }

abbrev pub is_empty : String → Bool
is_empty text = not (ltb 0 (len text))

-- result.outcome == Outcome::Failure
abbrev pub error_of : Outcome → Option String
error_of success = none
error_of failure = some "task did not complete successfully"

-- `?` on the result of a call of the server.
abbrev pub received : {A : Type 0} → Exit IpcError A → Exit PlanError A
received (ok a) = ok a
received (err e) = err (ipc e)
received panic = panic

abbrev pub summary_message : SummarizeResponse → Message
summary_message response = record {
  role = system;
  content = response.summary;
  token_count = response.token_count;
}

module _ {Value World : Type 0} where
  unfoldable pub push_message : Role → String → Act (Task Value World) (Unit {0})
  push_message role text t = some (ok tt, record t { stm = push (message role text) t.stm })

  -- A thought that is not empty is kept.
  unfoldable pub push_thought : String → Act (Task Value World) (Unit {0})
  unfolding push_message
  push_thought thought t =
      if is_empty thought then some (ok tt, t) else push_message assistant thought t

  -- A call of the server.
  unfoldable pub ask : {A : Type 0} → (World → Exit IpcError A × World) → Act (Task Value World) A
  ask call t = let (answer, w) = call t.world in some (received answer, record t { world = w })

  -- The summary takes the place of all messages.
  unfoldable pub replace_all : SummarizeResponse → Act (Task Value World) (Unit {0})
  replace_all response t =
      some (ok tt, record t { stm = replace_with_summary (summary_message response) t.stm })

module _ {Value World : Type 0} (x : PlanExecutor Value World) where
  -- `none` where it panics.
  unfoldable pub format_observation : String → Value → Option String
  unfolding truncated observed
  format_observation action result =
      observed action (truncated (or_else (x.to_string_pretty result) (x.host.to_string result)))

  -- Long-term memory is not consulted yet.
  unfoldable pub query_memory_context : String → List String
  query_memory_context goal = []

  unfoldable pub build_reason_request :
      ShortTermMemory → ToolRegistry Value World → String → List String → ReasonRequest Value
  build_reason_request stm registry goal memory_context = record {
    messages = map to_ipc_message stm.messages;
    tool_schemas = list_schemas x.host registry;
    memory_context = memory_context;
    task_goal = goal;
  }

  unfoldable pub reason : String → List String → Act (Task Value World) (ReasonResponse Value)
  unfolding ask build_reason_request
  reason goal memory_context t =
      ask (x.ipc.reason (build_reason_request t.stm t.registry goal memory_context)) t

  unfoldable pub summarize_request : ShortTermMemory → SummarizeRequest Value
  summarize_request stm = record {
    messages = map (λ m. x.message_entry (role_name m.role) m.content m.token_count) stm.messages;
    model = none;
    max_summary_tokens = none;
  }

  unfoldable pub maybe_summarize : Act (Task Value World) (Unit {0})
  unfolding ask summarize_request replace_all
  maybe_summarize t = (ask (x.ipc.summarize (summarize_request t.stm)) >>= replace_all) t

  abbrev recorded : Option (EpisodeInput Value → World → World) → EpisodeInput Value → World → World
  recorded none episode w = w
  recorded (some insert) episode w = insert episode w

  unfoldable pub record_episode : String → TaskResult Value → World → World
  record_episode goal result w =
      recorded x.episodic_log
        (record {
          task_goal = goal;
          steps = result.steps;
          outcome = result.outcome;
          error = error_of result.outcome;
          duration_ms = result.duration_ms;
        })
        w
