-- ===== src/Tools/CodeExec/Tests.antt =====
-- Tests of runtime/src/tools/code_exec.rs, and the theorems at a concrete daemon, without a container.
use xola.Base.{◌≡◌, refl, [], ◌∷◌, Exit, ok, err, ℤ, pos, arith}
use xola.Base.Dict.{get}
use xola.Base.Text.{◌<>◌}
use xola.Tools.Error.{ToolError, execution_failed, invalid_input}
use xola.Tools.CodeExec.Sample.{Containers, no_containers, daemon, daemon-Bookkeeping}
use xola.Tools.SampleJson.{Sample, sample_json}
use xola.Tools.CodeExec.{code_exec_execute, timeout_seconds, ran}
use xola.Tools.CodeExec.Cleanup.{code_exec_cleans_up}
use xola.Tools.CodeExec.Limits.{timeout_seconds_asked}
use xola.Tools.CodeExec.Runs.{Ran, code_exec-ok}

abbrev python_hello : Sample
python_hello = sample_json.object (
    ("language", sample_json.string "python")
    ∷ ("code", sample_json.string "print('hello')")
    ∷ ("timeout_seconds", sample_json.number (pos 20))
    ∷ [])

abbrev run_on : ℤ → Sample → Exit ToolError Sample × Containers
run_on exit_code input = code_exec_execute sample_json (daemon exit_code) input no_containers

prints :
    run_on (pos 0) python_hello
    ≡ (ok (ran sample_json "hello!" "oops" (pos 0)), (run_on (pos 0) python_hello).1)
unfolding code_exec_execute get ◌<>◌
prints = refl

killed : run_on (pos 137) python_hello ≡ (
  err (execution_failed "Code execution exceeded 128 MB memory limit (OOM kill)"),
  (run_on (pos 137) python_hello).1,
)
unfolding code_exec_execute get ◌<>◌
killed = refl

-- test_code_exec_missing_language
missing_language :
    run_on (pos 0) (sample_json.object (("code", sample_json.string "print('hi')") ∷ []))
    ≡ (err (invalid_input "missing or invalid 'language' field"), no_containers)
unfolding code_exec_execute get
missing_language = refl

code_exec_cleans_up_example :
    (run_on (pos 137) python_hello).1 "xola-code-exec-0" ≡ no_containers "xola-code-exec-0"
code_exec_cleans_up_example =
    code_exec_cleans_up sample_json (daemon (pos 137)) (λ w. w) (daemon-Bookkeeping (pos 137))
      python_hello no_containers (run_on (pos 137) python_hello).1
      (err (execution_failed "Code execution exceeded 128 MB memory limit (OOM kill)"))
      "xola-code-exec-0" killed (cc)

asked : timeout_seconds sample_json python_hello ≡ 20
unfolding get
asked = timeout_seconds_asked sample_json python_hello 20 refl (omega arith) (omega arith)

code_exec-ok_example :
    Ran sample_json (daemon (pos 0)) python_hello (ran sample_json "hello!" "oops" (pos 0))
code_exec-ok_example =
    code_exec-ok sample_json (daemon (pos 0)) python_hello (ran sample_json "hello!" "oops" (pos 0))
      no_containers (run_on (pos 0) python_hello).1 prints
