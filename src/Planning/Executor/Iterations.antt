-- ===== src/Planning/Executor/Iterations.antt =====
-- The iterations of a task keep its counts and its limits (runtime/src/planning/executor.rs).
use xola.Base.{
  ℕ, zero, suc, ◌+◌, ◌≤◌, ◌<◌, ◌≡◌, refl, ◌⊎◌, inl, inr, Option, none, some, String, List, ok, err,
  true, panic, Duration, arith, ◌==◌, Bool-cases, Option-cases,
}
use xola.Memory.ShortTerm
use xola.Memory.ShortTerm.{needs_summarization}
use xola.Memory.EpisodicLog.{success}
use xola.Ipc.{ReasonResponse, SummarizeResponse, server_error}
use xola.Planning.Error.{PlanError, ipc, max_iterations_reached}
use xola.Planning.Executor.Task.{
  TaskResult, StepOutcome, observation, final_answer, PlanExecutor, Task, Run, Act, continue, ◌>>=◌,
  ◌>>◌,
}
use xola.Planning.Executor.Messages.{
  push_message, push_thought, reason, ask, is_empty, maybe_summarize, summarize_request,
  replace_all, format_observation, query_memory_context,
}
use xola.Planning.Executor.Replan.{or_default, execute_tool_with_replan}
use xola.Planning.Executor.React.{
  finish, exhausted, observe, handle, dispatch, decide, compress, iterate, iterations,
  execute_inner,
}
use xola.Planning.Executor.Ends.{Ends, continue-Ends}
use xola.Planning.Executor.Limits.{
  successes, failures, Replied, Cause, Good, Bad, Done, ask-Ends, reason-Ends, push_thought-Ends,
}
use xola.Planning.Executor.Steps.{execute_tool_with_replan-Ends}

module _ {Value World : Type 0} (x : PlanExecutor Value World) where
  -- A result: every iteration but the last had one success, each failure was one replan, and the limits
  -- are kept. A task that fails has no result.
  abbrev pub Returned : TaskResult Value → Task Value World → Type 0
  Returned result t =
      (result.outcome ≡ success)
      × (result.iterations ≡ suc (successes result.steps))
      × (result.iterations ≤ x.config.max_iterations)
      × (result.total_replans ≡ failures result.steps)
      × ((result.total_replans ≡ 0) ⊎ (result.total_replans < x.config.replan.max_replans_per_task))
      × (result.steps ≡ t.steps)

  -- An error: the iterations are used up, each with one success, or a step has failed before that.
  abbrev pub Stopped : PlanError → Task Value World → Type 0
  Stopped e t =
      (failures t.steps ≡ t.total_replans)
      × (((e ≡ max_iterations_reached x.config.max_iterations)
            × (successes t.steps ≡ x.config.max_iterations))
          ⊎ (Cause x e t × (successes t.steps < x.config.max_iterations)))

  abbrev pub Over : Run (Task Value World) (TaskResult Value) → Type 0
  Over = Ends Returned Stopped

  Bad-Stopped :
      (i : ℕ) (e : PlanError) (t : Task Value World)
      → i < x.config.max_iterations
      → Bad x i e t
      → Stopped e t
  Bad-Stopped i e t l ((s, f), cause) = (f, inr (cause, omega arith))

  -- A part that may fail as a step may, with the rest of the task after it.
  continue-Over :
      {A : Type 0} (i : ℕ) (P : A → Task Value World → Type 0) (m : Run (Task Value World) A)
      (f : A → Act (Task Value World) (TaskResult Value))
      → i < x.config.max_iterations
      → Ends P (Bad x i) m
      → ((a : A) (t : Task Value World) → P a t → Over (f a t))
      → Over (continue m f)
  continue-Over i P none f l h k = absurd h
  continue-Over i P (some (ok a, t)) f l h k = k a t h
  continue-Over i P (some (err e, t)) f l h k = Bad-Stopped i e t l h
  continue-Over i P (some (panic, t)) f l h k = tt

  finish-Over :
      (goal : String) (start : Duration) (i : ℕ) (answer : Option String) (t : Task Value World)
      → i < x.config.max_iterations
      → Good x i t
      → Over (finish x goal start (suc i) answer t)
  unfolding finish
  finish-Over goal start i answer t l ((s, f), w) =
      (refl, omega arith, omega arith, omega arith, w, refl)

  -- One iteration, whose successors end well.
  module _ (i : ℕ) (l : i < x.config.max_iterations)
      (next : Act (Task Value World) (TaskResult Value))
      (next_ok : (t : Task Value World) → Good x (suc i) t → Over (next t)) (goal : String)
      (memory_context : List String) (start : Duration) where
    handle-Over :
        (action : String) (outcome : StepOutcome Value) (t : Task Value World)
        → Done x i outcome t
        → Over (handle x next goal start i action outcome t)
    unfolding handle observe push_message
    handle-Over action (observation v) t h = elim (Option-cases (format_observation x action v)) [
      | inl e ↦ rw e tt
      | inr (text, e) ↦ rw e (next_ok _ h)
    ]
    handle-Over action (final_answer thought answer) t h =
        continue-Over i (λ u t'. Good x i t' × (0 ≤ t'.total_replans) × Unit {0})
          (push_thought thought t) (λ u. finish x goal start (suc i) answer) l
          (push_thought-Ends x i 0 (λ w. Unit {0}) thought t h (omega arith) tt)
          (λ u t' h'. finish-Over goal start i answer t' l h'.0)

    dispatch-Over :
        (action : String) (input : Value) (t : Task Value World)
        → Good x i t
        → (is_empty action ≡ true
            → Cause x (ipc (server_error 0 "action is empty but is_final is false")) t)
        → Over (dispatch x next goal memory_context start i action input t)
    unfolding dispatch
    dispatch-Over action input t h idle = elim (Bool-cases (is_empty action)) [
      | inl e ↦ rw e (h.0.1, inr (idle e, omega (arith, h.0.0)))
      | inr e ↦ rw e (
          continue-Over i (Done x i) (execute_tool_with_replan x goal memory_context action input t)
            (handle x next goal start i action) l
            (execute_tool_with_replan-Ends x i goal memory_context action input t h)
            (handle-Over action))
    ]

    decide-Over :
        (response : ReasonResponse Value) (t : Task Value World)
        → Good x i t
        → Replied x response t.world
        → Over (decide x next goal memory_context start i response t)
    unfolding decide
    decide-Over response t h r = elim (Bool-cases response.is_final) [
      | inl e ↦ rw e (finish-Over goal start i response.final_answer t l h)
      | inr e ↦ rw e (
          dispatch-Over (or_default response.action) response.action_input t h
            (λ empty. inr (inr (_, refl, response, r, e, empty))))
    ]

    compress-Ends :
        (t : Task Value World)
        → Good x i t
        → Ends (λ u t'. Good x i t' × (0 ≤ t'.total_replans)) (Bad x i) (compress x t)
    unfolding compress maybe_summarize replace_all
    compress-Ends t h = elim (Bool-cases (needs_summarization t.stm)) [
      | inl e ↦ rw e (
          continue-Ends
            (λ (a : SummarizeResponse) t'.
              Good x i t'
              × (0 ≤ t'.total_replans)
              × (x.ipc.summarize (summarize_request x t.stm) t.world ≡ (ok a, t'.world)))
            (λ u t'. Good x i t' × (0 ≤ t'.total_replans)) (Bad x i)
            (ask (x.ipc.summarize (summarize_request x t.stm)) t) replace_all
            (ask-Ends x i 0 (x.ipc.summarize (summarize_request x t.stm)) t h (omega arith)
              (λ e' w q. inr (inl (summarize_request x t.stm, t.world, q))))
            (λ a t' h'. (h'.0, h'.1)))
      | inr e ↦ rw e (h, omega arith)
    ]

    iterate-Over :
        (t : Task Value World) → Good x i t → Over (iterate x next goal memory_context start i t)
    unfolding iterate
    iterate-Over t h =
        continue-Over i (λ u t'. Good x i t' × (0 ≤ t'.total_replans)) (compress x t)
          (λ u. reason x goal memory_context >>= thinking) l (compress-Ends t h)
          (λ u t' h'.
            continue-Over i
              (λ a t''. Good x i t'' × (0 ≤ t''.total_replans) × Replied x a t''.world)
              (reason x goal memory_context t') thinking l
              (reason-Ends x i 0 goal memory_context t' h'.0 (omega arith))
              (λ response t'' h''.
                continue-Over i
                  (λ u t3. Good x i t3 × (0 ≤ t3.total_replans) × Replied x response t3.world)
                  (push_thought response.thought t'')
                  (λ u. decide x next goal memory_context start i response) l
                  (push_thought-Ends x i 0 (Replied x response) response.thought t'' h''.0
                    (omega arith) h''.2)
                  (λ u t3 h3. decide-Over response t3 h3.0 h3.2)))
      where
        thinking : ReasonResponse Value → Act (Task Value World) (TaskResult Value)
        thinking response =
            push_thought response.thought >> decide x next goal memory_context start i response

  iterations-Over :
      (left i : ℕ) (goal : String) (memory_context : List String) (start : Duration)
      (t : Task Value World)
      → i + left ≡ x.config.max_iterations
      → Good x i t
      → Over (iterations x left goal memory_context start i t)
  unfolding iterations exhausted
  iterations-Over zero i goal memory_context start t all ((s, f), w) = (f, inl (refl, omega arith))
  iterations-Over (suc left) i goal memory_context start t all h =
      iterate-Over i (omega arith) (iterations x left goal memory_context start (suc i))
        (λ t' h'. iterations-Over left (suc i) goal memory_context start t' (omega arith) h') goal
        memory_context start t h

  pub execute_inner-Over :
      (goal : String) (start : Duration) (t : Task Value World)
      → Over (execute_inner x goal start t)
  unfolding execute_inner push_message ShortTerm.new successes failures
  execute_inner-Over goal start t = elim (Bool-cases (x.config.stm_token_budget == 0)) [
    | inl e ↦ rw e tt
    | inr e ↦ rw e (
        iterations-Over x.config.max_iterations 0 goal (query_memory_context x goal) start _
          (omega arith) ((refl, refl), inl refl))
  ]
