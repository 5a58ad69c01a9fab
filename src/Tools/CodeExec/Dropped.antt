-- ===== src/Tools/CodeExec/Dropped.antt =====
-- A call of the tool as a future, which its caller may drop at any await (runtime/src/tools/code_exec.rs): the
-- timeout of the registry does so, and the deadline of a task.
pub mod Leaks
mod Tests
use xola.Base.{
  ℕ, zero, suc, ◌≡◌, refl, ◌⊎◌, Duration, Option, none, some, String, List, Exit, ok, err, panic,
}
use xola.Base.Text.{◌<>◌}
use xola.Tools.Error.{ToolError, invalid_input, execution_failed}
use xola.Tools.Effects.{Json, str_field, continue, renamed, ok_or, ◌>>=◌}
use xola.Tools.CodeExec.{
  Docker, image_for_language, cmd_for_language, timeout_seconds, container_body, run_container,
  run_container_inner, cleaned, run_in_container, code_exec_execute,
}

-- What a future does next: nothing more, something at once, or something that it awaits; and then what, as
-- that went.
pub data Future (World A : Type 0) : Type 0 where
  ready : A → Future World A
  at_once : (World → Future World A) → (World → World) → Future World A
  awaits : (World → Future World A) → (World → World) → (Duration → World → World) → Future World A

module _ {World A : Type 0} where
  unfoldable pub run : Future World A → World → A × World
  run (ready a) w = (a, w)
  run (at_once next effect) w = run (next w) (effect w)
  run (awaits next effect partly) w = run (next w) (effect w)

  -- What a future may leave that is dropped once this many of its awaits are over, or none is left. What it
  -- awaits then has had no effect, or its whole effect, or that of a part of it.
  unfoldable pub DroppedAfter : ℕ → Future World A → World → World → Type 0
  DroppedAfter n (ready a) w w' = w' ≡ w
  DroppedAfter n (at_once next effect) w w' = DroppedAfter n (next w) (effect w) w'
  DroppedAfter zero (awaits next effect partly) w w' =
      (w' ≡ w) ⊎ (w' ≡ effect w) ⊎ ((d : Duration) × (w' ≡ partly d w))
  DroppedAfter (suc n) (awaits next effect partly) w w' = DroppedAfter n (next w) (effect w) w'

  -- A request takes effect as a whole, or not at all.
  abbrev pub requests : (World → Future World A) → (World → World) → Future World A
  requests next effect = awaits next effect (λ d w. w)

module _ {Value World : Type 0} (json : Json Value) (docker : Docker Value World) where
  -- The removal of the container is awaited. A panic would skip it.
  unfoldable pub removing : String → Exit ToolError Value → Future World (Exit ToolError Value)
  removing id (ok output) =
      requests (λ w. ready (ok output)) (λ w. (docker.remove_container id w).1)
  removing id (err e) = requests (λ w. ready (err e)) (λ w. (docker.remove_container id w).1)
  removing id panic = ready panic

  -- The run of the container is one await here: dropped at any time, it leaves what a timer leaves that drops
  -- the run then.
  unfoldable pub running : ℕ → Exit String String → Future World (Exit ToolError Value)
  unfolding removing run_container run_container_inner
  running seconds (ok id) =
      awaits (λ w. removing id (run_container json docker id seconds w).0)
        (λ w. (run_container json docker id seconds w).1)
        (λ d w. (docker.timeout d (run_container_inner json docker id) w).1)
  running seconds (err e) = ready (err (execution_failed ("Failed to create container: " <> e)))
  running seconds panic = ready panic

  unfoldable pub creating :
      String → List String → ℕ → Exit String (Unit {0}) → Future World (Exit ToolError Value)
  unfolding running
  creating image cmd seconds (ok done) =
      at_once
        (λ w.
          requests
            (λ v.
              running seconds
                (docker.create_container ("xola-code-exec-" <> (docker.new_v4 w).0)
                  (container_body image cmd) v).0)
            (λ v.
              (docker.create_container ("xola-code-exec-" <> (docker.new_v4 w).0)
                (container_body image cmd) v).1))
        (λ w. (docker.new_v4 w).1)
  creating image cmd seconds (err e) =
      ready (err (execution_failed ("Failed to connect to Docker daemon: " <> e)))
  creating image cmd seconds panic = ready panic

  -- Steps 3 to 5.
  unfoldable pub connecting :
      List String → ℕ → Exit ToolError String → Future World (Exit ToolError Value)
  unfolding creating
  connecting cmd seconds (ok image) =
      at_once (λ w. creating image cmd seconds (docker.connect w).0) (λ w. (docker.connect w).1)
  connecting cmd seconds (err e) = ready (err e)
  connecting cmd seconds panic = ready panic

  abbrev with_fields : Value → Option String → Option String → Future World (Exit ToolError Value)
  with_fields input none code = ready (err (invalid_input "missing or invalid 'language' field"))
  with_fields input (some language) none =
      ready (err (invalid_input "missing or invalid 'code' field"))
  with_fields input (some language) (some code) =
      connecting (cmd_for_language language code) (timeout_seconds json input)
        (image_for_language language)

  -- CodeExecTool::execute, as the future that it is.
  unfoldable pub execute_future : Value → Future World (Exit ToolError Value)
  unfolding connecting image_for_language cmd_for_language timeout_seconds
  execute_future input =
      with_fields input (str_field json "language" input) (str_field json "code" input)

  run-removing :
      (id : String) (r : Exit ToolError Value × World)
      → run (removing id r.0) r.1 ≡ cleaned json docker id r
  unfolding run removing cleaned
  run-removing id (ok output, w) = refl
  run-removing id (err e, w) = refl
  run-removing id (panic, w) = refl

  run-running :
      (seconds : ℕ) (r : Exit String String × World)
      → run (running seconds r.0) r.1
        ≡ continue
            (renamed (λ e. execution_failed ("Failed to create container: " <> e)) r)
            (λ id v. cleaned json docker id (run_container json docker id seconds v))
  unfolding run running
  run-running seconds (ok id, w) = run-removing id (run_container json docker id seconds w)
  run-running seconds (err e, w) = refl
  run-running seconds (panic, w) = refl

  abbrev created : String → List String → ℕ → World → Exit ToolError Value × World
  created image cmd seconds w =
      continue
        (renamed (λ e. execution_failed ("Failed to create container: " <> e))
          (docker.create_container ("xola-code-exec-" <> (docker.new_v4 w).0)
            (container_body image cmd) (docker.new_v4 w).1))
        (λ id v. cleaned json docker id (run_container json docker id seconds v))

  run-creating :
      (image : String) (cmd : List String) (seconds : ℕ) (r : Exit String (Unit {0}) × World)
      → run (creating image cmd seconds r.0) r.1
        ≡ continue
            (renamed (λ e. execution_failed ("Failed to connect to Docker daemon: " <> e)) r)
            (λ done. created image cmd seconds)
  unfolding run creating
  run-creating image cmd seconds (ok done, w) = run-running seconds (
      docker.create_container ("xola-code-exec-" <> (docker.new_v4 w).0) (container_body image cmd)
        (docker.new_v4 w).1)
  run-creating image cmd seconds (err e, w) = refl
  run-creating image cmd seconds (panic, w) = refl

  run-connecting :
      (cmd : List String) (seconds : ℕ) (image : Exit ToolError String) (w : World)
      → run (connecting cmd seconds image) w
        ≡ continue (image, w) (λ i. run_in_container json docker i cmd seconds)
  unfolding run connecting run_in_container
  run-connecting cmd seconds (ok image) w = run-creating image cmd seconds (docker.connect w)
  run-connecting cmd seconds (err e) w = refl
  run-connecting cmd seconds panic w = refl

  run-with_fields :
      (input : Value) (language code : Option String) (w : World)
      → run (with_fields input language code) w
        ≡ continue
            (ok_or {World = World} (invalid_input "missing or invalid 'language' field") language w)
            (λ l. ok_or (invalid_input "missing or invalid 'code' field") code >>= λ c.
              (λ v. (image_for_language l, v)) >>= λ i.
              run_in_container json docker i (cmd_for_language l c) (timeout_seconds json input))
  unfolding run
  run-with_fields input none code w = refl
  run-with_fields input (some l) none w = refl
  run-with_fields input (some l) (some c) w =
      run-connecting (cmd_for_language l c) (timeout_seconds json input) (image_for_language l) w

  -- A future that is not dropped does what the call does.
  pub run-execute_future :
      (input : Value) (w : World)
      → run (execute_future input) w ≡ code_exec_execute json docker input w
  unfolding execute_future code_exec_execute
  run-execute_future input w =
      run-with_fields input (str_field json "language" input) (str_field json "code" input) w
