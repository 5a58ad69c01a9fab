-- ===== src/Planning/Executor/Limits.antt =====
-- The steps, the replans and the limits of one step of a plan (runtime/src/planning/executor.rs).
use xola.Base.{
  ℕ, suc, ◌+◌, ◌≤◌, ◌<◌, ◌≡◌, refl, true, false, ◌⊎◌, inl, inr, max, some, String, List, [], ◌∷◌,
  ◌++◌, Exit, ok, err, panic, arith, if◌then◌else◌, Bool-cases,
}
use xola.Reliability.LoopDetector.{is_looping}
use xola.Memory.EpisodicLog.{TaskStep}
use xola.Ipc.{IpcError, ReasonRequest, ReasonResponse, SummarizeRequest, server_error}
use xola.Planning.Executor.Replan.{or_default}
use xola.Planning.Error.{
  PlanError, ipc, looping, max_replans_per_step, max_replans_per_task, max_iterations_reached, tool,
  parallel_branch_failed, join_error, timed_out,
}
use xola.Planning.Executor.Task.{StepOutcome, observation, final_answer, PlanExecutor, Task}
use xola.Planning.Executor.Messages.{
  push_message, push_thought, reason, ask, is_empty, received, build_reason_request,
}
use xola.Planning.Executor.Ends.{Ends, Ends-implies}

module _ {Value : Type 0} where
  -- The steps whose tool returned a value, and the others.
  unfoldable pub successes : List (TaskStep Value) → ℕ
  successes [] = 0
  successes (s ∷ steps) = (if s.success then 1 else 0) + successes steps

  unfoldable pub failures : List (TaskStep Value) → ℕ
  failures [] = 0
  failures (s ∷ steps) = (if s.success then 0 else 1) + failures steps

  pub successes_add :
      (s : TaskStep Value) (steps : List (TaskStep Value))
      → successes (steps ++ s ∷ []) ≡ successes steps + (if s.success then 1 else 0)
  unfolding successes
  successes_add s [] = omega arith
  successes_add s (r ∷ steps) = let rest = successes_add s steps in omega arith

  pub failures_add :
      (s : TaskStep Value) (steps : List (TaskStep Value))
      → failures (steps ++ s ∷ []) ≡ failures steps + (if s.success then 0 else 1)
  unfolding failures
  failures_add s [] = omega arith
  failures_add s (r ∷ steps) = let rest = failures_add s steps in omega arith

module _ {Value World : Type 0} (x : PlanExecutor Value World) where
  -- After so many steps of the plan: each step has one success, and each failure has been counted.
  abbrev pub Counts : ℕ → Task Value World → Type 0
  Counts n t = (successes t.steps ≡ n) × (failures t.steps ≡ t.total_replans)

  -- The replans of a task that goes on have not reached its limit, unless there are none.
  abbrev pub Within : Task Value World → Type 0
  Within t = (t.total_replans ≡ 0) ⊎ (t.total_replans < x.config.replan.max_replans_per_task)

  -- The last that the server did was to answer a request for the next step with this.
  abbrev pub Replied : ReasonResponse Value → World → Type 0
  Replied response w =
      (request : ReasonRequest Value) × (v : World) × (x.ipc.reason request v ≡ (ok response, w))

  -- The server failed to answer a request for the next step.
  abbrev pub Unanswered : IpcError → World → Type 0
  Unanswered e w =
      (request : ReasonRequest Value) × (v : World) × (x.ipc.reason request v ≡ (err e, w))

  -- The server failed to answer a request for a summary.
  abbrev pub Unsummarized : IpcError → World → Type 0
  Unsummarized e w =
      (request : SummarizeRequest Value) × (v : World) × (x.ipc.summarize request v ≡ (err e, w))

  -- The server's answer was not final and named no tool.
  abbrev pub Idle : IpcError → World → Type 0
  Idle e w =
      (text : String) × (e ≡ server_error 0 text)
      × (response : ReasonResponse Value) × Replied response w
      × (response.is_final ≡ false)
      × (is_empty (or_default response.action) ≡ true)

  -- Why a step ends in an error.
  abbrev pub Cause : PlanError → Task Value World → Type 0
  Cause (looping message) t = is_looping x.iteration t.detector ≡ some message
  Cause (max_replans_per_step n action) t =
      (n ≡ max x.config.replan.max_replans_per_step 1) × (n ≤ t.total_replans)
  Cause (max_replans_per_task n) t =
      (n ≡ max x.config.replan.max_replans_per_task 1) × (n ≡ t.total_replans)
  Cause (ipc e) t = Unanswered e t.world ⊎ Unsummarized e t.world ⊎ Idle e t.world
  Cause (max_iterations_reached n) t = ⊥
  Cause (tool e) t = ⊥
  Cause (parallel_branch_failed e) t = ⊥
  Cause (join_error e) t = ⊥
  Cause (timed_out level ms) t = ⊥

  abbrev pub Good : ℕ → Task Value World → Type 0
  Good n t = Counts n t × Within t

  abbrev pub Bad : ℕ → PlanError → Task Value World → Type 0
  Bad n e t = Counts n t × Cause e t

  -- A step that returns has added one success, or none where it returns an answer.
  abbrev pub Done : ℕ → StepOutcome Value → Task Value World → Type 0
  Done n (observation v) t = Good (suc n) t
  Done n (final_answer thought answer) t = Good n t

  -- The server's answer changes neither the steps nor the counts.
  pub ask-Ends :
      {A : Type 0} (n : ℕ) (k : ℕ) (call : World → Exit IpcError A × World) (t : Task Value World)
      → Good n t
      → k ≤ t.total_replans
      → ((e : IpcError) (w : World)
          → call t.world ≡ (err e, w)
          → Cause (ipc e) (record t { world = w }))
      → Ends
          (λ (a : A) t'. Good n t' × (k ≤ t'.total_replans) × (call t.world ≡ (ok a, t'.world)))
          (Bad n)
          (ask call t)
  unfolding ask
  ask-Ends {A = A} n k call t h b fault = by_answer (call t.world) refl
    where
      by_answer :
          (answer : Exit IpcError A × World)
          → call t.world ≡ answer
          → Ends
              (λ (a : A) t'. Good n t' × (k ≤ t'.total_replans) × (call t.world ≡ (ok a, t'.world)))
              (Bad n)
              (some (received answer.0, record t { world = answer.1 }))
      by_answer (ok a, w) q = (h, b, q)
      by_answer (err e, w) q = (h.0, fault e w q)
      by_answer (panic, w) q = tt

  -- A thought changes neither of them, nor the world.
  pub push_thought-Ends :
      (n k : ℕ) (R : World → Type 0) (thought : String) (t : Task Value World)
      → Good n t
      → k ≤ t.total_replans
      → R t.world
      → Ends
          (λ u t'. Good n t' × (k ≤ t'.total_replans) × R t'.world)
          (Bad n)
          (push_thought thought t)
  unfolding push_thought push_message
  push_thought-Ends n k R thought t h b r = elim (Bool-cases (is_empty thought)) [
    | inl e ↦ rw e (h, b, r)
    | inr e ↦ rw e (h, b, r)
  ]

  pub reason-Ends :
      (n k : ℕ) (goal : String) (memory_context : List String) (t : Task Value World)
      → Good n t
      → k ≤ t.total_replans
      → Ends
          (λ response t'. Good n t' × (k ≤ t'.total_replans) × Replied response t'.world)
          (Bad n)
          (reason x goal memory_context t)
  unfolding reason
  reason-Ends n k goal memory_context t h b =
      let request = build_reason_request x t.stm t.registry goal memory_context in
      Ends-implies
        (λ response t'.
          Good n t'
          × (k ≤ t'.total_replans)
          × (x.ipc.reason request t.world ≡ (ok response, t'.world)))
        (λ response t'. Good n t' × (k ≤ t'.total_replans) × Replied response t'.world) (Bad n)
        (ask (x.ipc.reason request) t) (λ response t' (g, l, q). (g, l, (request, t.world, q)))
        (ask-Ends n k (x.ipc.reason request) t h b (λ e w q. inl (request, t.world, q)))
