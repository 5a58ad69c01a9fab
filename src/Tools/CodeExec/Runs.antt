-- ===== src/Tools/CodeExec/Runs.antt =====
-- How a call of the tool came to succeed (runtime/src/tools/code_exec.rs).
use xola.Base.{
  ℕ, ◌≡◌, refl, ap, sym, ◌∙◌, true, false, Option, none, some, String, List, [], ◌∷◌, Exit, ok, err,
  panic, ℤ, is_pos, Bool-cases, inl, inr, from_secs,
}
use xola.Base.Text.{◌<>◌, concat_assoc, concat_empty}
use xola.Tools.Error.{ToolError}
use xola.Tools.Effects.{Json, str_field, ok_or, renamed, unwrap_or}
use xola.Tools.Inversion.{ok_of_continue, ok_of_call, ok_of_renamed, ok_of_ok_or}
use xola.Tools.CodeExec.{
  Docker, ContainerBody, LogOutput, std_out, std_err, other_stream, stream_error,
  image_for_language, cmd_for_language, collect, timeout_seconds, container_body, judged, ran,
  exit_code_oom_killed, exit_code_unknown, run_container_inner, run_container, limited, cleaned,
  run_in_container, code_exec_execute,
}

-- What was written to one stream, the messages joined in their order.
abbrev pub std_out_text : List LogOutput → String
std_out_text [] = ""
std_out_text (std_out message ∷ rest) = message <> std_out_text rest
std_out_text (std_err message ∷ rest) = std_out_text rest
std_out_text (other_stream ∷ rest) = std_out_text rest
std_out_text (stream_error e ∷ rest) = std_out_text rest

abbrev pub std_err_text : List LogOutput → String
std_err_text [] = ""
std_err_text (std_err message ∷ rest) = message <> std_err_text rest
std_err_text (std_out message ∷ rest) = std_err_text rest
std_err_text (other_stream ∷ rest) = std_err_text rest
std_err_text (stream_error e ∷ rest) = std_err_text rest

collect-texts :
    (messages : List LogOutput) (stdout_buf stderr_buf : String)
    → collect messages stdout_buf stderr_buf
      ≡ (stdout_buf <> std_out_text messages, stderr_buf <> std_err_text messages)
unfolding collect
collect-texts [] o e = λ i. (sym (concat_empty o) i, sym (concat_empty e) i)
collect-texts (std_out message ∷ rest) o e =
    collect-texts rest (o <> message) e
    ∙ ap (λ (text : String). (text, e <> std_err_text rest))
        (concat_assoc o message (std_out_text rest))
collect-texts (std_err message ∷ rest) o e =
    collect-texts rest o (e <> message)
    ∙ ap (λ (text : String). (o <> std_out_text rest, text))
        (concat_assoc e message (std_err_text rest))
collect-texts (other_stream ∷ rest) o e = collect-texts rest o e
collect-texts (stream_error x ∷ rest) o e = collect-texts rest o e

module _ {Value World : Type 0} (json : Json Value) (docker : Docker Value World) where
  -- A value is what the run of this container returned: the container was started, its log had these
  -- messages, which the value joins, and the exit code is the one that an inspection then found, or the
  -- unknown one; it is not that of a kill.
  abbrev pub IsOutput : String → World → Value → Type 0
  IsOutput id after output =
      (started : World) × (inspected : World) × (exit : Option ℤ) × (docker.start_container id after
        ≡ (ok tt, started))
      × (docker.inspect_container id (docker.logs id started).1 ≡ (ok exit, inspected))
      × (output
          ≡ ran json (std_out_text (docker.logs id started).0)
              (std_err_text (docker.logs id started).0) (unwrap_or exit exit_code_unknown))
      × (is_pos 137 (unwrap_or exit exit_code_unknown) ≡ false)

  -- The constraints of a container.
  abbrev pub IsConfined : ContainerBody → Type 0
  IsConfined body =
      (body.network_disabled ≡ true)
      × (body.network_mode ≡ "none")
      × (body.readonly_rootfs ≡ true)
      × (body.memory ≡ 134_217_728)

  -- In a container with this image and this command, which is created, runs, and is inspected.
  abbrev pub RanAs : String → List String → Value → Type 0
  RanAs image cmd output =
      (body : ContainerBody) × (name : String) × (id : String) × (before : World) × (after : World)
      × (docker.create_container name body before ≡ (ok id, after))
      × (body.image ≡ image)
      × (body.cmd ≡ cmd)
      × IsConfined body
      × IsOutput id after output

  -- A call that succeeded: the language was a known one, and a container with its image and command, and
  -- the fixed constraints, was created and run to its end.
  abbrev pub Ran : Value → Value → Type 0
  Ran input output =
      (language : String) × (code : String) × (image : String) × (str_field json "language" input
        ≡ some language)
      × (str_field json "code" input ≡ some code)
      × (image_for_language language ≡ ok image)
      × RanAs image (cmd_for_language language code) output

  ok_of_judged :
      (messages : List LogOutput) (code : ℤ) (output : Value)
      → judged json (collect messages "" "") code ≡ ok output
      → (output ≡ ran json (std_out_text messages) (std_err_text messages) code)
        × (is_pos 137 code ≡ false)
  unfolding judged ◌<>◌
  ok_of_judged messages code output q = elim (Bool-cases (is_pos exit_code_oom_killed code)) [
    | inl killed ↦ cc (rw killed at q)
    | inr fine ↦
        let same : ◌≡◌ {A = Exit ToolError Value}
            (ok (ran json (collect messages "" "").0 (collect messages "" "").1 code)) (ok output) =
          rw fine at q in
        let joined : ran json (collect messages "" "").0 (collect messages "" "").1 code ≡ output =
          cc in
        (
          sym joined
              ∙ ap (λ (p : String × String). ran json p.0 p.1 code) (collect-texts messages "" ""),
          fine,
        )
  ]

  ok_of_inner :
      (id : String) (w w' : World) (output : Value)
      → run_container_inner json docker id w ≡ (ok output, w')
      → IsOutput id w output
  unfolding run_container_inner
  ok_of_inner id w w' output q =
      let (u, w1, started, q1) = ok_of_call _ (docker.start_container id w) w' _ output q in
      let (exit, w2, inspected, q2) =
        ok_of_call _ (docker.inspect_container id (docker.logs id w1).1) w' _ output q1 in
      let (same, fine) =
        ok_of_judged (docker.logs id w1).0 (unwrap_or exit exit_code_unknown) output
          (ap (λ (r : Exit ToolError Value × World). r.0) q2) in
      (w1, w2, exit, started, inspected, same, fine)

  ok_of_run :
      (id : String) (seconds : ℕ) (w w' : World) (output : Value)
      → run_container json docker id seconds w ≡ (ok output, w')
      → run_container_inner json docker id w ≡ (ok output, w')
  unfolding run_container
  ok_of_run id seconds w w' output q =
      by_result (docker.timeout (from_secs seconds) (run_container_inner json docker id) w) refl q
    where
      by_result :
          (r : Option (Exit ToolError Value) × World)
          → docker.timeout (from_secs seconds) (run_container_inner json docker id) w ≡ r
          → ◌≡◌ {A = Exit ToolError Value × World}
              (limited json docker seconds r.0, r.1)
              (ok output, w')
          → run_container_inner json docker id w ≡ (ok output, w')
      by_result (none, v) e h = cc
      by_result (some x, v) e h =
          docker.timeout_some (from_secs seconds) (run_container_inner json docker id) w w'
            (ok output) (e ∙ cc)

  ok_of_cleaned :
      (id : String) (r : Exit ToolError Value × World) (output : Value) (w' : World)
      → cleaned json docker id r ≡ (ok output, w')
      → (v : World) × (r ≡ (ok output, v))
  unfolding cleaned
  ok_of_cleaned id (ok x, v) output w' q = (v, cc)
  ok_of_cleaned id (err e, v) output w' q = cc
  ok_of_cleaned id (panic, v) output w' q = cc

  ok_of_container :
      (image : String) (cmd : List String) (seconds : ℕ) (w w' : World) (output : Value)
      → run_in_container json docker image cmd seconds w ≡ (ok output, w')
      → RanAs image cmd output
  unfolding run_in_container
  ok_of_container image cmd seconds w w' output q =
      let (u, w1, connected, q1) = ok_of_continue (renamed _ (docker.connect w)) _ output w' q in
      let name : String = "xola-code-exec-" <> (docker.new_v4 w1).0 in
      let start : World = (docker.new_v4 w1).1 in
      let (id, w2, created, q2) =
        ok_of_continue (renamed _ (docker.create_container name (container_body image cmd) start)) _
          output w' q1 in
      let (end, run) = ok_of_cleaned id (run_container json docker id seconds w2) output w' q2 in
      (
        container_body image cmd,
        name,
        id,
        start,
        w2,
        ok_of_renamed _ (docker.create_container name (container_body image cmd) start) id w2
            created,
        refl,
        refl,
        (refl, refl, refl, refl),
        ok_of_inner id w2 end output (ok_of_run id seconds w2 end output run),
      )

  -- A call that succeeds ran code in a language that is supported, in a container of that language's
  -- image and with its command, without network, with a root that is read-only and with 128 MiB of memory.
  -- The container was started; the result holds what the messages of its log say that it wrote to each of
  -- its two streams, and the exit code that an inspection then found of it, or -1 where that found none;
  -- and that code is not the one of a process that was killed.
  pub code_exec-ok :
      (input output : Value) (w w' : World)
      → code_exec_execute json docker input w ≡ (ok output, w')
      → Ran input output
  unfolding code_exec_execute
  code_exec-ok input output w w' q =
      let (language, w1, has_language, q1) =
        ok_of_continue (ok_or _ (str_field json "language" input) w) _ output w' q in
      let (code, w2, has_code, q2) =
        ok_of_continue (ok_or _ (str_field json "code" input) w1) _ output w' q1 in
      let (image, w3, known, q3) =
        ok_of_continue (image_for_language language, w2) _ output w' q2 in
      (
        language,
        code,
        image,
        (ok_of_ok_or _ (str_field json "language" input) w w1 language has_language).0,
        (ok_of_ok_or _ (str_field json "code" input) w1 w2 code has_code).0,
        ap (λ (r : Exit ToolError String × World). r.0) known,
        ok_of_container image (cmd_for_language language code) (timeout_seconds json input) w3 w'
            output q3,
      )
