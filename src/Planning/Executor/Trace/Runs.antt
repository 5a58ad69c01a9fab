-- ===== src/Planning/Executor/Trace/Runs.antt =====
-- The traces of whole tasks, and how they end (runtime/src/planning/executor.rs).
use xola.Base.{
  ◌<◌, ◌≤◌, ◌+◌, ◌∷◌, arith, ℕ, zero, suc, ◌≡◌, ◌≢◌, refl, ◌⊎◌, inl, inr, Option, none, some,
  String, List, [], Exit, ok, err, panic, Duration, ◌==◌, ==_iff, Bool-cases, Option-cases,
}
use xola.Memory.ShortTerm
use xola.Memory.ShortTerm.{user}
use xola.Memory.EpisodicLog.{success, failure}
use xola.Ipc.{ReasonResponse}
use xola.Planning.Error.{PlanError, max_iterations_reached}
use xola.Planning.Executor.Task.{
  TaskResult, StepOutcome, observation, final_answer, PlanExecutor, Task, Run, Act, continue, ◌>>=◌,
  ◌>>◌,
}
use xola.Planning.Executor.Messages.{
  message, push_message, push_thought, reason, is_empty, record_episode, format_observation,
  query_memory_context,
}
use xola.Planning.Executor.Replan.{or_default, rounds, execute_tool_with_replan}
use xola.Planning.Executor.React.{
  finish, exhausted, observe, handle, dispatch, decide, compress, iterate, iterations,
  execute_inner, result_of,
}
use xola.Planning.Executor.Trace.{pushed, requests, goes_on, starts, pushes}
use xola.Planning.Executor.Trace.Rules.{
  Asked, Bounded, Asked-Bounded, Here, Failed, Traced, Goes, continue-Traced, reason-Goes,
  push_thought-Goes, compress-Goes,
}
use xola.Planning.Executor.Trace.Replan.{rounds-Goes}

module _ {Value World : Type 0} (x : PlanExecutor Value World) where
  -- The state that a task begins with: an empty memory, and no step taken.
  abbrev pub begun : Task Value World → Task Value World
  begun t = record t {
    stm = record { messages = []; token_count = 0; max_tokens = x.config.stm_token_budget };
    steps = [];
    total_replans = 0;
  }

module _ {Value World : Type 0} (x : PlanExecutor Value World) (goal : String) where
  -- After a trace without an episode, in which the server was asked for the next step once for each
  -- iteration and for each replan of the result, the result is recorded, with the steps that the task has
  -- taken.
  abbrev pub Recorded : Task Value World → TaskResult Value → Task Value World → Type 0
  Recorded t0 result t =
      (u : Task Value World) × (here : Here x t0 u) × (requests here.0
        ≡ result.iterations + result.total_replans)
      × (result.iterations ≤ x.config.max_iterations)
      × (result.steps ≡ u.steps)
      × (result.total_replans ≡ u.total_replans)
      × (t ≡ record u { world = record_episode x goal result u.world })

  abbrev pub Finished : Task Value World → TaskResult Value → Task Value World → Type 0
  Finished t0 result t = (result.outcome ≡ success) × Recorded t0 result t

  abbrev pub Exhausted : Task Value World → PlanError → Task Value World → Type 0
  Exhausted t0 e t =
      (result : TaskResult Value) × (e ≡ max_iterations_reached x.config.max_iterations)
      × (result.outcome ≡ failure)
      × (result.iterations ≡ x.config.max_iterations)
      × Recorded t0 result t

  abbrev pub Stopped : Task Value World → PlanError → Task Value World → Type 0
  Stopped t0 e t = Failed x t0 e t ⊎ Exhausted t0 e t

  module _ (t0 : Task Value World) where
    abbrev Ended : Run (Task Value World) (TaskResult Value) → Type 0
    Ended = Traced x t0 (Finished t0) (Stopped t0)

    continue-Ended :
        {A : Type 0} (k : ℕ) (m : Run (Task Value World) A)
        (f : A → Act (Task Value World) (TaskResult Value))
        → Goes x t0 k m
        → ((a : A) (t : Task Value World) → Asked x t0 k t → Ended (f a t))
        → Ended (continue m f)
    continue-Ended k m f = continue-Traced x t0 k (Finished t0) (Stopped t0) m f (λ e t h. inl h)

    finish-Ended :
        (start : Duration) (n : ℕ) (answer : Option String) (t : Task Value World)
        → Asked x t0 n t
        → Ended (finish x goal start n answer t)
    unfolding finish
    finish-Ended start n answer t (here, q, fits) = (refl, (t, here, q, fits, refl, refl, refl))

    -- One iteration.
    module _ (next : Act (Task Value World) (TaskResult Value)) (i : ℕ)
        (room : i < x.config.max_iterations)
        (next_ok : (t : Task Value World) → Asked x t0 (suc i) t → Ended (next t))
        (memory_context : List String) (start : Duration) where
      handle-Ended :
          (action : String) (outcome : StepOutcome Value) (t : Task Value World)
          → Asked x t0 (suc i) t
          → Ended (handle x next goal start i action outcome t)
      unfolding handle observe push_message
      handle-Ended action (observation v) t ((es, trace), q, fits) =
          elim (Option-cases (format_observation x action v)) [
            | inl e ↦ rw e (Asked-Bounded x t0 (suc i) t ((es, trace), q, fits))
            | inr (text, e) ↦ rw e (
                next_ok _
                  ((pushed (message user text) ∷ es, goes_on trace (pushes user text t)), q, fits))
          ]
      handle-Ended action (final_answer thought answer) t h =
          continue-Ended (suc i) (push_thought thought t) (λ u. finish x goal start (suc i) answer)
            (push_thought-Goes x t0 (suc i) thought t h) (λ u. finish-Ended start (suc i) answer)

      decide-Ended :
          (response : ReasonResponse Value) (t : Task Value World)
          → Asked x t0 (suc i) t
          → Ended (decide x next goal memory_context start i response t)
      unfolding decide dispatch execute_tool_with_replan
      decide-Ended response t h = elim (Bool-cases response.is_final) [
        | inl e ↦ rw e (finish-Ended start (suc i) response.final_answer t h)
        | inr e ↦ elim (Bool-cases (is_empty (or_default response.action))) [
          | inl e' ↦ rw (e, e') (inl (Asked-Bounded x t0 (suc i) t h, refl))
          | inr e' ↦
              rw (e, e')
                (continue-Ended (suc i)
                  (rounds x (suc x.config.replan.max_replans_per_step) goal memory_context
                    (or_default response.action) response.action_input 0 t)
                  (handle x next goal start i (or_default response.action))
                  (rounds-Goes x t0 i room (suc x.config.replan.max_replans_per_step) goal
                    memory_context (or_default response.action) response.action_input 0 t h)
                  (handle-Ended (or_default response.action)))
        ]
      ]

      thinking : ReasonResponse Value → Act (Task Value World) (TaskResult Value)
      thinking response =
          push_thought response.thought >> decide x next goal memory_context start i response

      thinking-Ended :
          (response : ReasonResponse Value) (t : Task Value World)
          → Asked x t0 (suc i) t
          → Ended (thinking response t)
      unfolding thinking
      thinking-Ended response t h =
          continue-Ended (suc i) (push_thought response.thought t)
            (λ u. decide x next goal memory_context start i response)
            (push_thought-Goes x t0 (suc i) response.thought t h) (λ u. decide-Ended response)

      iterate-Ended :
          (t : Task Value World)
          → Asked x t0 i t
          → Ended (iterate x next goal memory_context start i t)
      unfolding iterate thinking
      iterate-Ended t h =
          continue-Ended i (compress x t) (λ u. reason x goal memory_context >>= thinking)
            (compress-Goes x t0 i t h)
            (λ u t' h'.
              continue-Ended (suc i) (reason x goal memory_context t') thinking
                (reason-Goes x t0 i goal memory_context t' room h') thinking-Ended)

    iterations-Ended :
        (left i : ℕ) (memory_context : List String) (start : Duration) (t : Task Value World)
        → i + left ≡ x.config.max_iterations
        → Asked x t0 i t
        → Ended (iterations x left goal memory_context start i t)
    unfolding iterations exhausted
    iterations-Ended zero i memory_context start t all (here, q, fits) = inr (
      result_of x failure none x.config.max_iterations start t,
      refl,
      refl,
      refl,
      (t, here, omega (arith, q, all), omega arith, refl, refl, refl),
    )
    iterations-Ended (suc left) i memory_context start t all h =
        iterate-Ended (iterations x left goal memory_context start (suc i)) i (omega (arith, all))
          (λ t'. iterations-Ended left (suc i) memory_context start t' (omega (arith, all)))
          memory_context start t h

  abbrev pub EndsWith :
      Task Value World → Exit PlanError (TaskResult Value) → Task Value World → Type 0
  EndsWith t0 (ok result) t = Finished t0 result t
  EndsWith t0 (err e) t = Stopped t0 e t
  EndsWith t0 panic t = Bounded x t0 t

  execute_inner-Ended :
      (start : Duration) (t : Task Value World)
      → x.config.stm_token_budget ≢ 0
      → Ended (begun x t) (execute_inner x goal start t)
  unfolding execute_inner push_message ShortTerm.new
  execute_inner-Ended start t some_budget = elim (Bool-cases (x.config.stm_token_budget == 0)) [
    | inl e ↦ absurd (some_budget ((==_iff x.config.stm_token_budget 0).0 e))
    | inr e ↦ rw e (
        iterations-Ended (begun x t) x.config.max_iterations 0 (query_memory_context x goal) start _
          (omega arith)
          (
            (pushed (message user goal) ∷ [], goes_on starts (pushes user goal (begun x t))),
            omega arith,
            omega arith,
          ))
  ]

  pub execute_inner-EndsWith :
      (start : Duration) (t t' : Task Value World) (e : Exit PlanError (TaskResult Value))
      → x.config.stm_token_budget ≢ 0
      → execute_inner x goal start t ≡ some (e, t')
      → EndsWith (begun x t) e t'
  execute_inner-EndsWith start t t' e some_budget q =
      by_run (execute_inner x goal start t) e t' q (execute_inner-Ended start t some_budget)
    where
      by_run :
          (m : Run (Task Value World) (TaskResult Value)) (e : Exit PlanError (TaskResult Value))
          (u : Task Value World)
          → m ≡ some (e, u)
          → Ended (begun x t) m
          → EndsWith (begun x t) e u
      by_run m (ok result) u q h = rw q at h
      by_run m (err e) u q h = rw q at h
      by_run m panic u q h = rw q at h
