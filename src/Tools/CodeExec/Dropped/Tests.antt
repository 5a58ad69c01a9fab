-- ===== src/Tools/CodeExec/Dropped/Tests.antt =====
-- A call that is dropped, at a concrete daemon (runtime/src/tools/code_exec.rs).
use xola.Base.{◌≡◌, ◌≢◌, refl, inl, panic, [], ◌∷◌, Exit, ok, String, pos}
use xola.Base.Dict.{get}
use xola.Base.Text.{◌<>◌}
use xola.Tools.Error.{ToolError}
use xola.Tools.SampleJson.{Sample, sample_json}
use xola.Tools.CodeExec.Sample.{Containers, no_containers, daemon, daemon-Bookkeeping}
use xola.Tools.CodeExec.{
  image_for_language, cmd_for_language, timeout_seconds, container_body, ran, run_container,
  run_container_inner,
}
use xola.Tools.CodeExec.Dropped.{DroppedAfter, execute_future}
use xola.Tools.CodeExec.Dropped.Leaks.{Left, execute_future-Left}

abbrev hello : Sample
hello =
    sample_json.object
      (("language", sample_json.string "python") ∷ ("code", sample_json.string "print('hi')") ∷ [])

abbrev own : String
own = "xola-code-exec-0"

abbrev with_own : Containers
with_own = ((daemon (pos 0)).create_container own (container_body "" []) no_containers).1

abbrev ran_once : Exit ToolError Sample × Containers
ran_once = run_container sample_json (daemon (pos 0)) own 10 with_own

run_ok : ran_once.0 ≡ ok (ran sample_json "hello!" "oops" (pos 0))
unfolding run_container run_container_inner get ◌<>◌
run_ok = refl

not_panic : (x : Exit ToolError Sample) (output : Sample) → x ≡ ok output → x ≢ panic
not_panic x output good e = cc

ran_not_panic : ran_once.0 ≢ panic
ran_not_panic = not_panic ran_once.0 (ran sample_json "hello!" "oops" (pos 0)) run_ok

-- Dropped while the container runs.
execute_future-Left_example : Left (λ w. w) 1 own no_containers with_own
unfolding image_for_language cmd_for_language timeout_seconds get ◌<>◌ DroppedAfter execute_future
execute_future-Left_example =
    execute_future-Left sample_json (daemon (pos 0)) (λ w. w) (daemon-Bookkeeping (pos 0)) 1 hello
      "python" "print('hi')" "python:3.12-alpine" own no_containers no_containers with_own with_own
      refl refl refl refl refl ran_not_panic (inl refl)
