-- ===== src/StartUp/Agent.antt =====
-- A task on the registry that the runtime starts with, over the HTTP client (runtime/src/main.rs,
-- runtime/src/planning/executor.rs, runtime/src/ipc/client.rs).
mod Tests
use xola.Base.{
  All, ◌≡◌, refl, sym, ap, ◌∙◌, ◌⊎◌, inl, inr, true, Option, some, String, List, [], ◌∷◌, ok,
  Duration,
}
use xola.Base.Dict.{get, get-insert-some, insert, contains_key}
use xola.Base.Http.{Http}
use xola.Memory.EpisodicLog.{TaskStep}
use xola.Tools.Error.{ToolError}
use xola.Tools.Effects.{Json, Act}
use xola.Tools.TimeoutConfig.{ToolTimeoutConfig}
use xola.Tools.Registry
use xola.Tools.Registry.{Tool, ToolRegistry, register}
use xola.Tools.Mock.{mock_tool, mock_execute}
use xola.Tools.UrlFetch.{url_fetch_tool, url_fetch_execute}
use xola.Tools.WebSearch.{web_search_tool, web_search_execute}
use xola.Tools.CodeExec.{Docker, code_exec_tool, code_exec_execute}
use xola.Ipc.Client.{Wire, ipc_client}
use xola.Planning.Config.{PlanConfig}
use xola.Planning.Executor.Task.{TaskResult, PlanExecutor, Task}
use xola.Planning.Executor.React.{execute}
use xola.Planning.Executor.Parallel
use xola.Planning.Executor.Parallel.{Libraries}
use xola.Planning.Executor.Backed.{IsBacked, execute-IsBacked}
use xola.StartUp.{start_up}
use xola.StartUp.Ready.{registered}

module _ {Value World : Type 0} (json : Json Value) (http : Http Value World)
    (env_var : String → World → Option String) (clock : World → Duration)
    (docker : Docker Value World) where
  -- What the tool of this name does is this.
  abbrev pub Does : String → Act World ToolError Value → String → Value → Type 0
  Does name run action input =
      (action ≡ name) × (output : Value) × (w w' : World) × (run w ≡ (ok output, w'))

  -- The step was a run of one of the four tools, which returned a value.
  abbrev pub IsRun : TaskStep Value → Type 0
  IsRun s =
      Does "mock_echo" (mock_execute json clock s.input) s.action s.input
      ⊎ Does "url_fetch" (url_fetch_execute json http s.input) s.action s.input
      ⊎ Does "web_search" (web_search_execute json http env_var s.input) s.action s.input
      ⊎ Does "code_exec" (code_exec_execute json docker s.input) s.action s.input

  registered-tools :
      (registered json http env_var clock docker).tools
      ≡ insert "code_exec" (code_exec_tool json docker) (
          insert "web_search" (web_search_tool json http env_var) (
            insert "url_fetch"
              (url_fetch_tool json http)
              (insert "mock_echo" (mock_tool json clock) [])))
  unfolding register Registry.new insert contains_key
  registered-tools = refl

  named :
      (name action : String) (tool found : Tool Value World) (input output : Value) (w w' : World)
      → (name ≡ action) × (tool ≡ found)
      → found.execute input w ≡ (ok output, w')
      → Does name (tool.execute input) action input
  named name action tool found input output w w' (same, it) ran =
      (sym same, output, w, w', ap (λ (t : Tool Value World). t.execute input w) it ∙ ran)

  none_else :
      (action : String) (found : Tool Value World) {P : Type 0} → get action [] ≡ some found → P
  unfolding get
  none_else action found e = cc

  found-IsRun :
      (s : TaskStep Value) (found : Tool Value World) (output : Value) (w w' : World)
      → get s.action (registered json http env_var clock docker).tools ≡ some found
      → found.execute s.input w ≡ (ok output, w')
      → IsRun s
  found-IsRun s found output w w' e ran =
      elim (get-insert-some "code_exec" s.action code found _ (rw registered-tools at e)) [
        | inl it ↦
            inr (inr (inr (named "code_exec" s.action code found s.input output w w' it ran)))
        | inr e1 ↦ elim (get-insert-some "web_search" s.action search found _ e1) [
          | inl it ↦
              inr (inr (inl (named "web_search" s.action search found s.input output w w' it ran)))
          | inr e2 ↦ elim (get-insert-some "url_fetch" s.action fetch found _ e2) [
            | inl it ↦ inr (inl (named "url_fetch" s.action fetch found s.input output w w' it ran))
            | inr e3 ↦ elim (get-insert-some "mock_echo" s.action echo found [] e3) [
              | inl it ↦ inl (named "mock_echo" s.action echo found s.input output w w' it ran)
              | inr e4 ↦ none_else s.action found e4
            ]
          ]
        ]
      ]
    where
      code : Tool Value World
      code = code_exec_tool json docker

      search : Tool Value World
      search = web_search_tool json http env_var

      fetch : Tool Value World
      fetch = url_fetch_tool json http

      echo : Tool Value World
      echo = mock_tool json clock

  starts_registered :
      (r : ToolRegistry Value World)
      → start_up json http env_var clock docker ≡ ok r
      → registered json http env_var clock docker ≡ r
  unfolding start_up register get insert contains_key Registry.new
  starts_registered r e = cc

  module _ {Float : Type 0} (libraries : Libraries Value World) (wire : Wire Value Float)
      (base_url : String) (timeout_config : ToolTimeoutConfig) (config : PlanConfig) where
    -- The executor over the HTTP client.
    abbrev pub agent : PlanExecutor Value World
    agent = Parallel.new libraries (ipc_client http wire base_url) timeout_config config

    backed-IsRun :
        (steps : List (TaskStep Value))
        → All (IsBacked agent (registered json http env_var clock docker)) steps
        → All (λ s. s.success ≡ true → IsRun s) steps
    backed-IsRun [] h = tt
    backed-IsRun (s ∷ steps) (backed, h) = (
      λ e.
          let (output, (tool, w, w', found, valid, ran)) = backed e in
          found-IsRun s tool output w w' found ran,
      backed-IsRun steps h,
    )

    -- If a task on the registry that the runtime starts with returns a result, then each of its steps that
    -- is recorded as a success names one of the four tools of the runtime, and this tool, run on the
    -- input of the step, returned a value.
    pub agent-IsRun :
        (goal : String) (r : ToolRegistry Value World) (w : World) (result : TaskResult Value)
        (t : Task Value World)
        → start_up json http env_var clock docker ≡ ok r
        → execute agent goal r w ≡ some (ok result, t)
        → All (λ s. s.success ≡ true → IsRun s) result.steps
    agent-IsRun goal r w result t started q =
        backed-IsRun result.steps
          (execute-IsBacked agent goal (registered json http env_var clock docker) w result t
            (rw (sym (starts_registered r started)) at q)).0
