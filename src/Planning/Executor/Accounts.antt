-- ===== src/Planning/Executor/Accounts.antt =====
-- The calls that a whole task makes, against the loop detector and the steps that it leaves
-- (runtime/src/planning/executor.rs, runtime/src/reliability/loop_detector.rs).
use xola.Base.{
  ◌≤◌, ◌+◌, arith, ◌≡◌, ◌≢◌, refl, sym, ap, ◌∙◌, inl, inr, some, String, List, map, max, Exit, ok,
  err, panic, Duration,
}
use xola.Reliability.LoopDetector.{from_config}
use xola.Reliability.LoopDetector.Window.{last, call_hash}
use xola.Planning.Error.{PlanError}
use xola.Planning.Executor.Task.{TaskResult, PlanExecutor, Task}
use xola.Planning.Executor.React.{execute_inner}
use xola.Planning.Executor.Trace.{Event, Trace, requests}
use xola.Planning.Executor.Trace.Rules.{Bounded}
use xola.Planning.Executor.Trace.Runs.{begun, Recorded, EndsWith, execute_inner-EndsWith}
use xola.Planning.Executor.Trace.Calls.{calls_of, steps_of, Trace-calls_of}

module _ {Value World : Type 0} (x : PlanExecutor Value World) where
  -- A trace leads from one state to another, but for what the log did to the world.
  abbrev pub Leads : Task Value World → List (Event Value) → Task Value World → Type 0
  Leads t es t' = (u : Task Value World) × Trace x t es u × (t' ≡ record u { world = t'.world })

  pub same_but_world :
      (u t' : Task Value World) (w : World)
      → t' ≡ record u { world = w }
      → t' ≡ record u { world = t'.world }
  same_but_world u t' w e =
      e ∙ ap (λ v. record u { world = v }) (ap (λ (v : Task Value World). v.world) (sym e))

  -- The server was asked for the next step at most once for each iteration that is allowed and for each
  -- replan.
  abbrev pub AsksFew : List (Event Value) → Task Value World → Type 0
  AsksFew es t' = requests es ≤ x.config.max_iterations + t'.total_replans

  -- The detector's window and the steps are those of the calls of the trace.
  abbrev pub Accounts : List (Event Value) → Task Value World → Type 0
  Accounts es t' =
      (t'.detector.window
        ≡ last (max 1 x.loop_detector_config.window_size) (map (call_hash x.hashing) (calls_of es)))
      × (t'.steps ≡ steps_of es)

  Bounded-Leads :
      (t t' : Task Value World)
      → Bounded x t t'
      → (es : List (Event Value)) × Leads t es t' × AsksFew es t'
  Bounded-Leads t t' ((es, trace), few) = (es, (t', trace, refl), few)

  Recorded-Leads :
      (goal : String) (t : Task Value World) (result : TaskResult Value) (t' : Task Value World)
      → Recorded x goal t result t'
      → (es : List (Event Value)) × Leads t es t' × AsksFew es t'
  Recorded-Leads goal t result t' (u, (es, trace), asked, allowed, steps, replans, after) =
      let counted = ap (λ (v : Task Value World). v.total_replans) after in
      (es, (u, trace, same_but_world u t' _ after), omega (arith, asked, allowed, replans, counted))

  pub EndsWith-Leads :
      (goal : String) (t : Task Value World) (e : Exit PlanError (TaskResult Value))
      (t' : Task Value World)
      → EndsWith x goal t e t'
      → (es : List (Event Value)) × Leads t es t' × AsksFew es t'
  EndsWith-Leads goal t (ok result) t' (good, r) = Recorded-Leads goal t result t' r
  EndsWith-Leads goal t (err e) t' (inl (bounded, other)) = Bounded-Leads t t' bounded
  EndsWith-Leads goal t (err e) t' (inr (result, at, bad, all, r)) =
      Recorded-Leads goal t result t' r
  EndsWith-Leads goal t panic t' bounded = Bounded-Leads t t' bounded

  -- A task that has a token budget and starts with a new detector, however it ends, went through a trace of
  -- single changes of its state, such that the detector's window holds at the end the hashes of the last
  -- calls in the trace, the oldest first, as many as the configuration says, or one if that is 0; the
  -- steps of the task are those of the calls that returned, in their order, each with the error of its
  -- call, if it had one; and the server was asked for the next step at most once for each iteration that
  -- is allowed and for each replan that is counted.
  pub execute_inner-Accounts :
      (goal : String) (start : Duration) (t t' : Task Value World)
      (e : Exit PlanError (TaskResult Value))
      → x.config.stm_token_budget ≢ 0
      → t.detector ≡ from_config x.loop_detector_config
      → execute_inner x goal start t ≡ some (e, t')
      → (es : List (Event Value)) × Leads (begun x t) es t' × Accounts es t' × AsksFew es t'
  execute_inner-Accounts goal start t t' e some_budget fresh q =
      let (es, (u, trace, same), few) =
        EndsWith-Leads goal (begun x t) e t'
          (execute_inner-EndsWith x goal start t t' e some_budget q) in
      let (window, steps) = Trace-calls_of x (begun x t) es u fresh trace in
      (
        es,
        (u, trace, same),
        (
          ap (λ (v : Task Value World). v.detector.window) same ∙ window,
          ap (λ (v : Task Value World). v.steps) same ∙ steps,
        ),
        few,
      )
