-- ===== src/Planning/Executor/Trace/Calls.antt =====
-- The calls of tools in a trace, against the loop detector and the steps of a task
-- (runtime/src/planning/executor.rs, runtime/src/reliability/loop_detector.rs).
use mathlib.Core.List.{append-nil, append_assoc}
use xola.Base.{◌≡◌, refl, ap, sym, ◌∙◌, String, List, [], ◌∷◌, ◌++◌, map, max, Exit, ok, err, panic}
use xola.Reliability.LoopDetector.{LoopDetector, Hashing, record_call, from_config}
use xola.Reliability.LoopDetector.Window.{last, record_all, call_hash, window-record_all}
use xola.Memory.EpisodicLog.{TaskStep, step_success, step_failure}
use xola.Tools.Error.{ToolError, error_text}
use xola.Planning.Executor.Task.{PlanExecutor, Task}
use xola.Planning.Executor.Replan.{call_tool}
use xola.Planning.Executor.Trace.{
  Event, pushed, asked, summarized, called, Step, pushes, asks, summarizes, calls, Trace,
  Trace-keeps, accounted,
}

module _ {Value : Type 0} where
  -- The calls of a list of events that has the last first, in the order in which they were made.
  abbrev pub calls_of : List (Event Value) → List (String × Value)
  calls_of [] = []
  calls_of (called action input result ∷ es) = calls_of es ++ (action, input) ∷ []
  calls_of (pushed m ∷ es) = calls_of es
  calls_of (asked answer ∷ es) = calls_of es
  calls_of (summarized answer ∷ es) = calls_of es

  -- A step for each call that returned, with its error where it has one.
  abbrev pub steps_of : List (Event Value) → List (TaskStep Value)
  steps_of [] = []
  steps_of (called action input (ok v) ∷ es) = steps_of es ++ step_success action input ∷ []
  steps_of (called action input (err e) ∷ es) =
      steps_of es ++ step_failure action input (error_text e) ∷ []
  steps_of (called action input panic ∷ es) = steps_of es
  steps_of (pushed m ∷ es) = steps_of es
  steps_of (asked answer ∷ es) = steps_of es
  steps_of (summarized answer ∷ es) = steps_of es

  record_all-append :
      (h : Hashing Value) (d : LoopDetector) (cs : List (String × Value)) (action : String)
      (input : Value)
      → record_all h d (cs ++ (action, input) ∷ []) ≡ record_call h action input (record_all h d cs)
  unfolding record_all
  record_all-append h d [] action input = refl
  record_all-append h d ((a, i) ∷ cs) action input =
      record_all-append h (record_call h a i d) cs action input

module _ {Value World : Type 0} (x : PlanExecutor Value World) (t : Task Value World) where
  abbrev Accounts : List (Event Value) → Task Value World → Type 0
  Accounts es u =
      (u.detector ≡ record_all x.hashing t.detector (calls_of es))
      × (u.steps ≡ t.steps ++ steps_of es)

  accounted-Accounts :
      (es : List (Event Value)) (action : String) (input : Value) (result : Exit ToolError Value)
      (s : Task Value World)
      → s.detector ≡ record_all x.hashing t.detector (calls_of es ++ (action, input) ∷ [])
      → s.steps ≡ t.steps ++ steps_of es
      → Accounts (called action input result ∷ es) (accounted action input result s)
  accounted-Accounts es action input (ok v) s d q = (
    d,
    ap (λ l. l ++ step_success action input ∷ []) q
        ∙ append_assoc t.steps (steps_of es) (step_success action input ∷ []),
  )
  accounted-Accounts es action input (err e) s d q = (
    d,
    ap (λ l. l ++ step_failure action input (error_text e) ∷ []) q
        ∙ append_assoc t.steps (steps_of es) (step_failure action input (error_text e) ∷ []),
  )
  accounted-Accounts es action input panic s d q = (d, q)

  Step-Accounts :
      (es : List (Event Value)) (u : Task Value World) (e : Event Value) (v : Task Value World)
      → Step x u e v
      → Accounts es u
      → Accounts (e ∷ es) v
  unfolding call_tool
  Step-Accounts es u e v (pushes role text s) h = h
  Step-Accounts es u e v (asks goal memory_context s) h = h
  Step-Accounts es u e v (summarizes s (ok response) w q) h = h
  Step-Accounts es u e v (summarizes s (err e') w q) h = h
  Step-Accounts es u e v (summarizes s panic w q) h = h
  Step-Accounts es u e v (calls action input s quiet) h =
      accounted-Accounts es action input (call_tool x action input s).0
        (call_tool x action input s).1
        (ap (record_call x.hashing action input) h.0
          ∙ sym (record_all-append x.hashing t.detector (calls_of es) action input))
        h.1

  -- From a new detector, the window of the detector holds at the end of a trace the hashes of the last
  -- calls that the trace made, the oldest first, as many as the configuration says, or one if that is 0;
  -- and the steps that the trace has added are those of its calls that returned, in their order, each
  -- with the error of its call, if it had one.
  pub Trace-calls_of :
      (es : List (Event Value)) (u : Task Value World)
      → t.detector ≡ from_config x.loop_detector_config
      → Trace x t es u
      → (u.detector.window
          ≡ last
              (max 1 x.loop_detector_config.window_size)
              (map (call_hash x.hashing) (calls_of es)))
        × (u.steps ≡ t.steps ++ steps_of es)
  unfolding from_config record_all
  Trace-calls_of es u fresh trace =
      let h = Trace-keeps x Accounts Step-Accounts t es u trace (refl, sym (append-nil t.steps)) in
      (
        ap (λ (d : LoopDetector). d.window)
              (h.0 ∙ ap (λ d. record_all x.hashing d (calls_of es)) fresh)
            ∙ (window-record_all x.hashing x.loop_detector_config.window_size
                x.loop_detector_config.repeat_threshold (calls_of es)).0,
        h.1,
      )
