-- ===== src/Planning/Executor/Trace/Replan.antt =====
-- The traces of the execution of one step's tool (runtime/src/planning/executor.rs).
use xola.Base.{
  ℕ, zero, suc, ◌+◌, ◌≡◌, ◌<◌, arith, none, ◌∷◌, refl, inl, inr, String, List, Exit, ok, err, panic,
  leb, Bool-cases, Option-cases,
}
use xola.Base.Text.{◌<>◌}
use xola.Reliability.LoopDetector.{is_looping}
use xola.Memory.ShortTerm.{user}
use xola.Tools.Error.{ToolError, error_text}
use xola.Ipc.{ReasonResponse}
use xola.Planning.Executor.Task.{StepOutcome, PlanExecutor, Task, Act, ◌>>=◌, ◌>>◌}
use xola.Planning.Executor.Messages.{push_message, push_thought, reason, is_empty}
use xola.Planning.Executor.Replan.{
  or_default, Again, no_action, follow, replan, limited, settle, call_tool, checked_call, round,
  rounds,
}
use xola.Planning.Executor.Trace.{Event, called, Trace, goes_on, requests, calls, accounted}
use xola.Planning.Executor.Trace.Rules.{
  Asked, Bounded, Asked-Bounded, Goes, continue-Goes, reason-Goes, push_message-Goes,
  push_thought-Goes,
}

module _ {Value World : Type 0} (x : PlanExecutor Value World) (t0 : Task Value World) where
  -- The state after the steps of a call's result are recorded: a failure is a replan that the server is
  -- not yet asked for.
  abbrev Settled : ℕ → String → Value → Exit ToolError Value → Task Value World → Type 0
  Settled i action input (ok v) t = Asked x t0 (suc i) (accounted action input (ok v) t)
  Settled i action input (err e) t = Asked x t0 i (accounted action input (err e) t)
  Settled i action input panic t = Bounded x t0 t

  accounted-Settled :
      (i : ℕ) (es : List (Event Value)) (action : String) (input : Value)
      (result : Exit ToolError Value) (t : Task Value World)
      → Trace x t0 (called action input result ∷ es) (accounted action input result t)
      → requests es ≡ suc i + t.total_replans
      → i < x.config.max_iterations
      → Settled i action input result t
  accounted-Settled i es action input (ok v) t trace q room = ((_, trace), q, room)
  accounted-Settled i es action input (err e) t trace q room =
      ((_, trace), omega (arith, q), omega (arith, room))
  accounted-Settled i es action input panic t trace q room = ((_, trace), omega (arith, q, room))

  call-Settled :
      (i : ℕ) (action : String) (input : Value) (t : Task Value World)
      → is_looping x.iteration t.detector ≡ none
      → Asked x t0 (suc i) t
      → Settled i action input (call_tool x action input t).0 (call_tool x action input t).1
  unfolding call_tool
  call-Settled i action input t quiet ((es, trace), q, room) =
      accounted-Settled i es action input (call_tool x action input t).0
        (call_tool x action input t).1 (goes_on trace (calls action input t quiet)) q room

  -- The iteration of this number, counted from 0.
  module _ (i : ℕ) (room : i < x.config.max_iterations) where
    module _ (again : Again x)
        (again_ok : (action : String) (input : Value) (k : ℕ) (t : Task Value World)
          → Asked x t0 (suc i) t
          → Goes x t0 (suc i) (again action input k t))
        (goal : String) (memory_context : List String) where
      follow-Goes :
          (k : ℕ) (response : ReasonResponse Value) (t : Task Value World)
          → Asked x t0 (suc i) t
          → Goes x t0 (suc i) (follow x again k response t)
      unfolding follow no_action
      follow-Goes k response t h = elim (Bool-cases response.is_final) [
        | inl e ↦ rw e h
        | inr e ↦ elim (Bool-cases (is_empty (or_default response.action))) [
          | inl e' ↦ rw (e, e') (Asked-Bounded x t0 (suc i) t h, refl)
          | inr e' ↦ rw (e, e') (again_ok (or_default response.action) response.action_input k t h)
        ]
      ]

      planned : ℕ → ReasonResponse Value → Act (Task Value World) (StepOutcome Value)
      planned k response = push_thought response.thought >> follow x again k response

      planned-Goes :
          (k : ℕ) (response : ReasonResponse Value) (t : Task Value World)
          → Asked x t0 (suc i) t
          → Goes x t0 (suc i) (planned k response t)
      unfolding planned
      planned-Goes k response t h =
          continue-Goes x t0 (suc i) (suc i) (push_thought response.thought t)
            (λ u. follow x again k response) (push_thought-Goes x t0 (suc i) response.thought t h)
            (λ u. follow-Goes k response)

      replan-Goes :
          (action : String) (k : ℕ) (e : ToolError) (t : Task Value World)
          → Asked x t0 i t
          → Goes x t0 (suc i) (replan x again goal memory_context action k e t)
      unfolding replan planned
      replan-Goes action k e t h =
          let apology =
            "Tool '"
            <> action
            <> "' failed with error: "
            <> error_text e
            <> ". Please try an alternative approach." in
          continue-Goes x t0 i (suc i) (push_message user apology t)
            (λ u. reason x goal memory_context >>= planned k)
            (push_message-Goes x t0 i user apology t h)
            (λ u t' h'.
              continue-Goes x t0 (suc i) (suc i) (reason x goal memory_context t') (planned k)
                (reason-Goes x t0 i goal memory_context t' room h') (planned-Goes k))

      limited-Goes :
          (action : String) (k : ℕ) (e : ToolError) (t : Task Value World)
          → Asked x t0 i t
          → Goes x t0 (suc i) (limited x again goal memory_context action k e t)
      unfolding limited
      limited-Goes action k e t h = elim (Bool-cases (leb x.config.replan.max_replans_per_step k)) [
        | inl e' ↦ rw e' (Asked-Bounded x t0 i t h, refl)
        | inr e' ↦ elim (Bool-cases (leb x.config.replan.max_replans_per_task t.total_replans)) [
          | inl e'' ↦ rw (e', e'') (Asked-Bounded x t0 i t h, refl)
          | inr e'' ↦ rw (e', e'') (replan-Goes action k e t h)
        ]
      ]

      settle-Goes :
          (action : String) (input : Value) (k : ℕ) (result : Exit ToolError Value)
          (t : Task Value World)
          → Settled i action input result t
          → Goes x t0 (suc i) (settle x again goal memory_context action input k result t)
      unfolding settle
      settle-Goes action input k (ok v) t h = h
      settle-Goes action input k (err e) t h = limited-Goes action (suc k) e _ h
      settle-Goes action input k panic t h = h

      round-Goes :
          (action : String) (input : Value) (k : ℕ) (t : Task Value World)
          → Asked x t0 (suc i) t
          → Goes x t0 (suc i) (round x again goal memory_context action input k t)
      unfolding round checked_call
      round-Goes action input k t h = elim (Option-cases (is_looping x.iteration t.detector)) [
        | inl e ↦ rw e (
            settle-Goes action input k (call_tool x action input t).0 (call_tool x action input t).1
              (call-Settled i action input t e h))
        | inr (message, e) ↦ rw e (Asked-Bounded x t0 (suc i) t h, refl)
      ]

    pub rounds-Goes :
        (fuel : ℕ) (goal : String) (memory_context : List String) (action : String) (input : Value)
        (k : ℕ) (t : Task Value World)
        → Asked x t0 (suc i) t
        → Goes x t0 (suc i) (rounds x fuel goal memory_context action input k t)
    unfolding rounds
    rounds-Goes zero goal memory_context action input k t h = tt
    rounds-Goes (suc fuel) goal memory_context action input k t h =
        round-Goes (rounds x fuel goal memory_context) (rounds-Goes fuel goal memory_context) goal
          memory_context action input k t h
