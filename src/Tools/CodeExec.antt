-- ===== src/Tools/CodeExec.antt =====
-- The tool that runs code in a container (runtime/src/tools/code_exec.rs). The Docker daemon, the timer
-- and the source of unique names are parameters.
pub mod Runs
pub mod Cleanup
pub mod Dropped
pub mod Limits
pub mod Sample
mod Tests
use text.Mathlib.Text.{◌==◌}
use xola.Base.{
  ℕ, ◌*◌, ◌≡◌, Bool, true, Option, none, some, String, List, [], ◌∷◌, Exit, ok, err, panic, ℤ, pos,
  negsuc, clamp, is_pos, Duration, from_secs, if◌then◌else◌,
}
use xola.Base.Text.{◌<>◌, to_decimal}
use xola.Tools.Error.{ToolError, invalid_input, execution_failed}
use xola.Tools.Effects.{Json, str_field, i64_field, unwrap_or, Act, ok_or, map_err, ◌>>=◌, ◌>>◌}
use xola.Tools.Registry.{Tool}

abbrev pub max_timeout_seconds : ℕ
max_timeout_seconds = 30

abbrev pub default_timeout_seconds : ℕ
default_timeout_seconds = 10

abbrev pub memory_limit_bytes : ℕ
memory_limit_bytes = 128 * 1024 * 1024

-- EXIT_CODE_UNKNOWN is -1.
abbrev pub exit_code_unknown : ℤ
exit_code_unknown = negsuc 0

abbrev pub exit_code_oom_killed : ℕ
exit_code_oom_killed = 137

-- What `execute` sets of the container, its host configuration included.
pub record ContainerBody : Type 0 where
  pub image : String
  pub cmd : List String
  pub network_disabled : Bool
  pub memory : ℕ
  pub readonly_rootfs : Bool
  pub network_mode : String
  pub pids_limit : ℕ
  pub attach_stdout : Bool
  pub attach_stderr : Bool

-- A message of the log stream, its bytes read as UTF-8.
pub data LogOutput : Type 0 where
  std_out : String → LogOutput
  std_err : String → LogOutput
  other_stream : LogOutput
  stream_error : String → LogOutput

-- `bollard::Docker`, with `tokio::time::timeout` and `Uuid::new_v4`. An error is represented by its
-- text; the exit code that an inspection finds is the one in its state, if it has both.
pub record Docker (Value World : Type 0) : Type 0 where
  pub connect : World → Exit String (Unit {0}) × World
  pub create_container : String → ContainerBody → World → Exit String String × World
  pub start_container : String → World → Exit String (Unit {0}) × World
  pub logs : String → World → List LogOutput × World
  pub inspect_container : String → World → Exit String (Option ℤ) × World
  pub remove_container : String → World → Exit String (Unit {0}) × World
  pub new_v4 : World → String × World
  pub timeout :
      Duration
      → (World → Exit ToolError Value × World)
      → World
      → Option (Exit ToolError Value) × World
  -- A future that returned in time returned what it computes.
  pub timeout_some :
      (d : Duration) (future : World → Exit ToolError Value × World) (w w' : World)
      (r : Exit ToolError Value)
      → timeout d future w ≡ (some r, w')
      → future w ≡ (r, w')

unfoldable pub image_for_language : String → Exit ToolError String
image_for_language language =
    if language == "python"
    then ok "python:3.12-alpine"
    else if language == "javascript"
    then ok "node:22-alpine"
    else if language == "bash"
    then ok "alpine:3.21"
    else err (
        execution_failed
          ("Unsupported language '" <> language <> "'. Supported: python, javascript, bash"))

unfoldable pub cmd_for_language : String → String → List String
cmd_for_language language code =
    if language == "python"
    then "python3" ∷ "-c" ∷ code ∷ []
    else if language == "javascript"
    then "node" ∷ "-e" ∷ code ∷ []
    else "sh" ∷ "-c" ∷ code ∷ []

-- The container that runs some code, with its constraints.
abbrev pub container_body : String → List String → ContainerBody
container_body image cmd = record {
  image = image;
  cmd = cmd;
  network_disabled = true;
  memory = memory_limit_bytes;
  readonly_rootfs = true;
  network_mode = "none";
  pids_limit = 64;
  attach_stdout = true;
  attach_stderr = true;
}

-- The loop over the log stream, on the two buffers.
unfoldable pub collect : List LogOutput → String → String → String × String
collect [] stdout_buf stderr_buf = (stdout_buf, stderr_buf)
collect (std_out message ∷ rest) stdout_buf stderr_buf =
    collect rest (stdout_buf <> message) stderr_buf
collect (std_err message ∷ rest) stdout_buf stderr_buf =
    collect rest stdout_buf (stderr_buf <> message)
collect (other_stream ∷ rest) stdout_buf stderr_buf = collect rest stdout_buf stderr_buf
collect (stream_error e ∷ rest) stdout_buf stderr_buf = collect rest stdout_buf stderr_buf

module _ {Value : Type 0} (json : Json Value) where
  unfoldable pub timeout_seconds : Value → ℕ
  unfolding clamp
  timeout_seconds input =
      clamp 1 max_timeout_seconds
        (unwrap_or (i64_field json "timeout_seconds" input) (pos default_timeout_seconds))

  abbrev pub ran : String → String → ℤ → Value
  ran stdout_buf stderr_buf exit_code = json.object (
      ("stdout", json.string stdout_buf)
      ∷ ("stderr", json.string stderr_buf)
      ∷ ("exit_code", json.number exit_code)
      ∷ [])

  -- The end of `run_container_inner`, on the two buffers and the exit code.
  unfoldable pub judged : String × String → ℤ → Exit ToolError Value
  unfolding is_pos
  judged (stdout_buf, stderr_buf) exit_code =
      if is_pos exit_code_oom_killed exit_code
      then err (execution_failed "Code execution exceeded 128 MB memory limit (OOM kill)")
      else ok (ran stdout_buf stderr_buf exit_code)

module _ {Value World : Type 0} (json : Json Value) (docker : Docker Value World) where
  unfoldable pub run_container_inner : String → Act World ToolError Value
  unfolding judged collect
  run_container_inner container_id = do
    map_err (λ e. execution_failed ("Failed to start container: " <> e))
        (docker.start_container container_id)
    messages ← λ w. let (messages, w') = docker.logs container_id w in (ok messages, w')
    exit_code ←
        map_err (λ e. execution_failed ("Failed to inspect container: " <> e))
          (docker.inspect_container container_id)
    λ w. (judged json (collect messages "" "") (unwrap_or exit_code exit_code_unknown), w)

  abbrev pub limited : ℕ → Option (Exit ToolError Value) → Exit ToolError Value
  limited seconds none =
      err
        (execution_failed ("Container execution exceeded timeout of " <> to_decimal seconds <> "s"))
  limited seconds (some result) = result

  unfoldable pub run_container : String → ℕ → Act World ToolError Value
  unfolding run_container_inner
  run_container container_id seconds w =
      let (result, w') = docker.timeout (from_secs seconds) (run_container_inner container_id) w in
      (limited seconds result, w')

  -- The removal, whose failure is logged. A panic would skip it.
  unfoldable pub cleaned : String → Exit ToolError Value × World → Exit ToolError Value × World
  cleaned container_id (ok output, w) = (ok output, (docker.remove_container container_id w).1)
  cleaned container_id (err e, w) = (err e, (docker.remove_container container_id w).1)
  cleaned container_id (panic, w) = (panic, w)

  -- Steps 3 to 5.
  unfoldable pub run_in_container : String → List String → ℕ → Act World ToolError Value
  unfolding run_container cleaned
  run_in_container image cmd seconds = do
    map_err (λ e. execution_failed ("Failed to connect to Docker daemon: " <> e)) docker.connect
    id ← λ w. let (id, w') = docker.new_v4 w in (ok id, w')
    container_id ←
        map_err (λ e. execution_failed ("Failed to create container: " <> e))
          (docker.create_container ("xola-code-exec-" <> id) (container_body image cmd))
    λ w. cleaned container_id (run_container container_id seconds w)

  -- CodeExecTool::execute
  unfoldable pub code_exec_execute : Value → Act World ToolError Value
  unfolding image_for_language cmd_for_language timeout_seconds run_in_container
  code_exec_execute input = do
    language ←
        ok_or (invalid_input "missing or invalid 'language' field")
          (str_field json "language" input)
    code ← ok_or (invalid_input "missing or invalid 'code' field") (str_field json "code" input)
    image ← λ w. (image_for_language language, w)
    run_in_container image (cmd_for_language language code) (timeout_seconds json input)

  abbrev language_schema : Value
  language_schema = json.object (
      ("type", json.string "string")
      ∷ ("description", json.string "Programming language to use")
      ∷ (
        "enum",
        json.array (json.string "python" ∷ json.string "javascript" ∷ json.string "bash" ∷ []),
      )
      ∷ [])

  abbrev timeout_schema : Value
  timeout_schema = json.object (
      ("type", json.string "integer")
      ∷ ("description", json.string "Execution timeout in seconds (1-30, default 10)")
      ∷ ("minimum", json.number (pos 1))
      ∷ ("maximum", json.number (pos max_timeout_seconds))
      ∷ ("default", json.number (pos default_timeout_seconds))
      ∷ [])

  abbrev pub code_exec_schema : Value
  code_exec_schema = json.object (
      ("type", json.string "object")
      ∷ (
        "properties",
        json.object (
            ("language", language_schema)
            ∷ (
              "code",
              json.object (
                  ("type", json.string "string")
                  ∷ ("description", json.string "Source code snippet to execute")
                  ∷ []),
            )
            ∷ ("timeout_seconds", timeout_schema)
            ∷ []),
      )
      ∷ ("required", json.array (json.string "language" ∷ json.string "code" ∷ []))
      ∷ [])

  abbrev pub code_exec_tool : Tool Value World
  code_exec_tool = record {
    name = "code_exec";
    description =
        "Executes code in a sandboxed Docker container and returns stdout, stderr, and exit code";
    input_schema = code_exec_schema;
    execute = code_exec_execute;
  }
