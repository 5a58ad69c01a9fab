-- ===== src/Planning/Executor/Trace.antt =====
-- What a task does, one thing after another (runtime/src/planning/executor.rs): the changes of its state
-- as a relation, each with the event that causes it, and the traces of such changes.
pub mod Rules
pub mod Replan
pub mod Runs
pub mod Calls
mod Tests
use xola.Base.{ℕ, suc, ◌≡◌, none, String, List, [], ◌∷◌, Exit, ok, err, panic}
use xola.Reliability.LoopDetector.{is_looping}
use xola.Memory.ShortTerm.{Message, Role, push, replace_with_summary}
use xola.Memory.EpisodicLog.{step_success, step_failure}
use xola.Tools.Error.{ToolError, error_text}
use xola.Ipc.{IpcError, ReasonResponse, SummarizeResponse}
use xola.Planning.Executor.Task.{PlanExecutor, Task}
use xola.Planning.Executor.Messages.{
  message, build_reason_request, summarize_request, summary_message,
}
use xola.Planning.Executor.Replan.{call_tool, push_step}

pub data Event (Value : Type 0) : Type 0 where
  pushed : Message → Event Value
  asked : Exit IpcError (ReasonResponse Value) → Event Value
  summarized : Exit IpcError SummarizeResponse → Event Value
  called : String → Value → Exit ToolError Value → Event Value

-- The requests for a next step that the server was sent.
abbrev pub requests : {Value : Type 0} → List (Event Value) → ℕ
requests [] = 0
requests (asked answer ∷ es) = suc (requests es)
requests (pushed m ∷ es) = requests es
requests (summarized answer ∷ es) = requests es
requests (called action input result ∷ es) = requests es

module _ {Value World : Type 0} where
  -- The memory after an answer to `/summarize`: it only changes where there is a summary.
  abbrev pub compressed :
      Exit IpcError SummarizeResponse → World → Task Value World → Task Value World
  compressed (ok response) w t = record t {
    world = w;
    stm = replace_with_summary (summary_message response) t.stm;
  }
  compressed (err e) w t = record t { world = w }
  compressed panic w t = record t { world = w }

  -- The step that is recorded of a call, and the count of the replans.
  abbrev pub accounted : String → Value → Exit ToolError Value → Task Value World → Task Value World
  accounted action input (ok v) t = push_step (step_success action input) t
  accounted action input (err e) t =
      record (push_step (step_failure action input (error_text e)) t) {
        total_replans = suc t.total_replans;
      }
  accounted action input panic t = t

  -- A call of a tool is made only where no loop is detected.
  pub data Step (x : PlanExecutor Value World)
      : Task Value World → Event Value → Task Value World → Type 0 where
    pushes :
        (role : Role) (text : String) (t : Task Value World)
        → Step x t (pushed (message role text)) (record t { stm = push (message role text) t.stm })
    asks :
        (goal : String) (memory_context : List String) (t : Task Value World)
        → Step x t
            (asked
              (x.ipc.reason
                (build_reason_request x t.stm t.registry goal memory_context)
                t.world).0)
            (record t {
              world =
                  (x.ipc.reason
                    (build_reason_request x t.stm t.registry goal memory_context)
                    t.world).1;
            })
    summarizes :
        (t : Task Value World) (answer : Exit IpcError SummarizeResponse) (w : World)
        → x.ipc.summarize (summarize_request x t.stm) t.world ≡ (answer, w)
        → Step x t (summarized answer) (compressed answer w t)
    calls :
        (action : String) (input : Value) (t : Task Value World)
        → is_looping x.iteration t.detector ≡ none
        → Step x t
            (called action input (call_tool x action input t).0)
            (accounted action input (call_tool x action input t).0 (call_tool x action input t).1)

  -- The events of a trace, the last first.
  pub data Trace (x : PlanExecutor Value World) (t : Task Value World)
      : List (Event Value) → Task Value World → Type 0 where
    starts : Trace x t [] t
    goes_on :
        {es : List (Event Value)} {u v : Task Value World} {e : Event Value}
        → Trace x t es u
        → Step x u e v
        → Trace x t (e ∷ es) v

  -- What each step keeps, a trace keeps.
  pub Trace-keeps :
      (x : PlanExecutor Value World) (I : List (Event Value) → Task Value World → Type 0)
      → ((es : List (Event Value)) (u : Task Value World) (e : Event Value) (v : Task Value World)
          → Step x u e v
          → I es u
          → I (e ∷ es) v)
      → (t : Task Value World) (es : List (Event Value)) (u : Task Value World) → Trace x t es u
      → I [] t
      → I es u
  Trace-keeps x I keep t es u starts h = h
  Trace-keeps x I keep t es v (goes_on {es = before} {u = u} {e = e} trace step) h =
      keep before u e v step (Trace-keeps x I keep t before u trace h)
