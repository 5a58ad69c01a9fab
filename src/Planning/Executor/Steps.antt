-- ===== src/Planning/Executor/Steps.antt =====
-- One step of a plan stays within its limits (runtime/src/planning/executor.rs).
use xola.Base.{
  ℕ, zero, suc, ◌+◌, ◌≤◌, ◌<◌, ◌≡◌, refl, ◌∙◌, ◌⊎◌, inl, inr, String, List, Exit, ok, err, panic,
  arith, leb, Bool-cases, Option-cases,
}
use xola.Base.Text.{◌<>◌}
use xola.Reliability.LoopDetector.{is_looping}
use xola.Memory.ShortTerm.{user}
use xola.Tools.Error.{ToolError, error_text}
use xola.Ipc.{ReasonResponse}
use xola.Planning.Executor.Task.{StepOutcome, PlanExecutor, Task, Run, Act, ◌>>=◌, ◌>>◌}
use xola.Planning.Executor.Messages.{push_message, push_thought, reason, is_empty}
use xola.Planning.Executor.Replan.{
  or_default, Again, no_action, follow, replan, limited, settle, call_tool, checked_call, round,
  rounds, execute_tool_with_replan,
}
use xola.Planning.Executor.Ends.{Ends, continue-Ends}
use xola.Planning.Executor.Limits.{
  successes_add, failures_add, Counts, Replied, Good, Bad, Done, reason-Ends, push_thought-Ends,
}

module _ {Value World : Type 0} (x : PlanExecutor Value World) (n : ℕ) where
  abbrev Ended : Run (Task Value World) (StepOutcome Value) → Type 0
  Ended = Ends (Done x n) (Bad x n)

  -- After `k` replans of this step, less than its limit.
  module _ (k : ℕ) (again : Again x)
      (again_ok : (action : String) (input : Value) (t : Task Value World)
        → Good x n t
        → suc k ≤ t.total_replans
        → suc k < x.config.replan.max_replans_per_step
        → Ended (again action input (suc k) t))
      (goal : String) (memory_context : List String) where
    follow-Ends :
        (response : ReasonResponse Value) (t : Task Value World)
        → Good x n t
        → suc k ≤ t.total_replans
        → Replied x response t.world
        → suc k < x.config.replan.max_replans_per_step
        → Ended (follow x again (suc k) response t)
    unfolding follow no_action
    follow-Ends response t h b r l = elim (Bool-cases response.is_final) [
      | inl e ↦ rw e h
      | inr e ↦ elim (Bool-cases (is_empty (or_default response.action))) [
        | inl e' ↦ rw (e, e') (h.0, inr (inr (_, refl, response, r, e, e')))
        | inr e' ↦ rw (e, e') (again_ok (or_default response.action) response.action_input t h b l)
      ]
    ]

    replan-Ends :
        (action : String) (e : ToolError) (t : Task Value World)
        → Good x n t
        → suc k ≤ t.total_replans
        → suc k < x.config.replan.max_replans_per_step
        → Ended (replan x again goal memory_context action (suc k) e t)
    unfolding replan push_message
    replan-Ends action e t h b l =
        let told =
          (push_message user
            ("Tool '"
              <> action
              <> "' failed with error: "
              <> error_text e
              <> ". Please try an alternative approach.")
            t) in
        continue-Ends (λ u t'. Good x n t' × (suc k ≤ t'.total_replans)) (Done x n) (Bad x n) told
          (λ u. reason x goal memory_context >>= planned) (h, b)
          (λ u t' (h', b').
            continue-Ends
              (λ a t''. Good x n t'' × (suc k ≤ t''.total_replans) × Replied x a t''.world)
              (Done x n) (Bad x n) (reason x goal memory_context t') planned
              (reason-Ends x n (suc k) goal memory_context t' h' b')
              (λ response t'' (h'', b'', r'').
                continue-Ends
                  (λ u t3. Good x n t3 × (suc k ≤ t3.total_replans) × Replied x response t3.world)
                  (Done x n) (Bad x n) (push_thought response.thought t'')
                  (λ u. follow x again (suc k) response)
                  (push_thought-Ends x n (suc k) (Replied x response) response.thought t'' h'' b''
                    r'')
                  (λ u t3 (h3, b3, r3). follow-Ends response t3 h3 b3 r3 l)))
      where
        planned : ReasonResponse Value → Act (Task Value World) (StepOutcome Value)
        planned response = push_thought response.thought >> follow x again (suc k) response

    limited-Ends :
        (action : String) (e : ToolError) (t : Task Value World)
        → Counts x n t
        → suc k ≤ t.total_replans
        → (t.total_replans ≡ 1) ⊎ (t.total_replans ≤ x.config.replan.max_replans_per_task)
        → (k ≡ 0) ⊎ (k < x.config.replan.max_replans_per_step)
        → Ended (limited x again goal memory_context action (suc k) e t)
    unfolding limited
    limited-Ends action e t c b total l =
        elim (Bool-cases (leb x.config.replan.max_replans_per_step (suc k))) [
          | inl e' ↦ rw e' (c, (ground arith, b))
          | inr e' ↦ elim (Bool-cases (leb x.config.replan.max_replans_per_task t.total_replans)) [
            | inl e'' ↦ rw (e', e'') (c, (ground arith, refl))
            | inr e'' ↦ rw (e', e'') (replan-Ends action e t (c, ground arith) b (ground arith))
          ]
        ]

    settle-Ends :
        (action : String) (input : Value) (result : Exit ToolError Value) (t : Task Value World)
        → Good x n t
        → k ≤ t.total_replans
        → (k ≡ 0) ⊎ (k < x.config.replan.max_replans_per_step)
        → Ended (settle x again goal memory_context action input k result t)
    unfolding settle
    settle-Ends action input (ok v) t ((s, f), w) b l =
        ((successes_add _ t.steps ∙ omega arith, failures_add _ t.steps ∙ omega arith), w)
    settle-Ends action input (err e) t ((s, f), w) b l =
        limited-Ends action e _
          (successes_add _ t.steps ∙ omega arith, failures_add _ t.steps ∙ omega arith)
          (omega arith) (ground arith) l
    settle-Ends action input panic t h b l = tt

    round-Ends :
        (action : String) (input : Value) (t : Task Value World)
        → Good x n t
        → k ≤ t.total_replans
        → (k ≡ 0) ⊎ (k < x.config.replan.max_replans_per_step)
        → Ended (round x again goal memory_context action input k t)
    unfolding round checked_call call_tool
    round-Ends action input t h b l = elim (Option-cases (is_looping x.iteration t.detector)) [
      | inl e ↦ rw e (settle-Ends action input _ _ h b l)
      | inr (message, e) ↦ rw e (h.0, e)
    ]

  -- As many rounds as the limit, and one more, suffice.
  rounds-Ends :
      (fuel k : ℕ) (goal : String) (memory_context : List String) (action : String) (input : Value)
      (t : Task Value World)
      → x.config.replan.max_replans_per_step < k + fuel
      → Good x n t
      → k ≤ t.total_replans
      → (k ≡ 0) ⊎ (k < x.config.replan.max_replans_per_step)
      → Ended (rounds x fuel goal memory_context action input k t)
  unfolding rounds
  rounds-Ends zero k goal memory_context action input t enough h b l = absurd (ground arith)
  rounds-Ends (suc fuel) k goal memory_context action input t enough h b l =
      round-Ends k (rounds x fuel goal memory_context)
        (λ action' input' t' h' b' l'.
          rounds-Ends fuel (suc k) goal memory_context action' input' t' (omega arith) h' b'
            (inr l'))
        goal memory_context action input t h b l

  pub execute_tool_with_replan-Ends :
      (goal : String) (memory_context : List String) (action : String) (input : Value)
      (t : Task Value World)
      → Good x n t
      → Ended (execute_tool_with_replan x goal memory_context action input t)
  unfolding execute_tool_with_replan
  execute_tool_with_replan-Ends goal memory_context action input t h =
      rounds-Ends (suc x.config.replan.max_replans_per_step) 0 goal memory_context action input t
        (omega arith) h (omega arith) (inl refl)
