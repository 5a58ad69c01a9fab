-- ===== src/Planning/Executor/Trace/Rules.antt =====
-- What is shown of the runs of a task (runtime/src/planning/executor.rs): how they end, if they do, after
-- which trace; and the parts of the executor that only talk to the server and to the memory.
use xola.Base.{
  ℕ, suc, ◌+◌, ◌≤◌, ◌<◌, arith, ◌≡◌, refl, Bool, true, false, inl, none, some, String, List, ◌∷◌,
  Exit, ok, err, panic, Bool-cases, inr,
}
use xola.Memory.ShortTerm.{Role, assistant, needs_summarization}
use xola.Ipc.{IpcError, SummarizeResponse}
use xola.Planning.Error.{PlanError, max_iterations_reached}
use xola.Planning.Executor.Task.{PlanExecutor, Task, Run, Act, continue}
use xola.Planning.Executor.Messages.{
  message, push_message, push_thought, reason, ask, is_empty, maybe_summarize, summarize_request,
  replace_all, build_reason_request, received,
}
use xola.Planning.Executor.React.{compress}
use xola.Planning.Executor.Trace.{
  Event, pushed, asked, summarized, requests, pushes, asks, summarizes, Trace, goes_on,
}

abbrev pub is_exhaustion : PlanError → Bool
is_exhaustion (max_iterations_reached n) = true
is_exhaustion _ = false

module _ {Value World : Type 0} (x : PlanExecutor Value World) (t0 : Task Value World) where
  -- A state that a trace leads to.
  abbrev pub Here : Task Value World → Type 0
  Here t = (es : List (Event Value)) × Trace x t0 es t

  -- A state that a trace leads to in which the server was asked once for each replan, and so often beside,
  -- at most once for each iteration that is allowed.
  abbrev pub Asked : ℕ → Task Value World → Type 0
  Asked k t =
      (here : Here t) × (requests here.0 ≡ k + t.total_replans) × (k ≤ x.config.max_iterations)

  -- The bound on the requests alone.
  abbrev pub Bounded : Task Value World → Type 0
  Bounded t = (here : Here t) × (requests here.0 ≤ x.config.max_iterations + t.total_replans)

  pub Asked-Bounded : (k : ℕ) (t : Task Value World) → Asked k t → Bounded t
  Asked-Bounded k t (here, q, fits) = (here, omega (arith, q, fits))

  abbrev pub Failed : PlanError → Task Value World → Type 0
  Failed e t = Bounded t × (is_exhaustion e ≡ false)

  -- The ends of a run: on a value, on an error and on a panic. A run that is out of fuel has none.
  abbrev pub Traced :
      {A : Type 0}
      → (A → Task Value World → Type 0)
      → (PlanError → Task Value World → Type 0)
      → Run (Task Value World) A
      → Type 0
  Traced P Q none = Unit {0}
  Traced P Q (some (ok a, t)) = P a t
  Traced P Q (some (err e, t)) = Q e t
  Traced P Q (some (panic, t)) = Bounded t

  -- The runs of the parts of an iteration.
  abbrev pub Goes : {A : Type 0} → ℕ → Run (Task Value World) A → Type 0
  Goes k = Traced (λ a t. Asked k t) Failed

  pub continue-Traced :
      {A B : Type 0} (k : ℕ) (P : B → Task Value World → Type 0)
      (Q : PlanError → Task Value World → Type 0) (m : Run (Task Value World) A)
      (f : A → Act (Task Value World) B)
      → ((e : PlanError) (t : Task Value World) → Failed e t → Q e t)
      → Goes k m
      → ((a : A) (t : Task Value World) → Asked k t → Traced P Q (f a t))
      → Traced P Q (continue m f)
  continue-Traced k P Q none f weaken h c = tt
  continue-Traced k P Q (some (ok a, t)) f weaken h c = c a t h
  continue-Traced k P Q (some (err e, t)) f weaken h c = weaken e t h
  continue-Traced k P Q (some (panic, t)) f weaken h c = h

  pub continue-Goes :
      {A B : Type 0} (j k : ℕ) (m : Run (Task Value World) A) (f : A → Act (Task Value World) B)
      → Goes j m
      → ((a : A) (t : Task Value World) → Asked j t → Goes k (f a t))
      → Goes k (continue m f)
  continue-Goes j k m f = continue-Traced j (λ a t. Asked k t) Failed m f (λ e t h. h)

  -- An answer of the server, or its error.
  received-Goes :
      {A : Type 0} (k : ℕ) (answer : Exit IpcError A) (t : Task Value World)
      → Asked k t
      → Goes k (some (received answer, t))
  received-Goes k (ok a) t h = h
  received-Goes k (err e) t h = (Asked-Bounded k t h, refl)
  received-Goes k panic t h = Asked-Bounded k t h

  -- One request more.
  pub reason-Goes :
      (k : ℕ) (goal : String) (memory_context : List String) (t : Task Value World)
      → k < x.config.max_iterations
      → Asked k t
      → Goes (suc k) (reason x goal memory_context t)
  unfolding reason ask
  reason-Goes k goal memory_context t room ((es, trace), q, fits) =
      received-Goes (suc k)
        (x.ipc.reason (build_reason_request x t.stm t.registry goal memory_context) t.world).0 _
        ((asked _ ∷ es, goes_on trace (asks goal memory_context t)), omega (arith, q), room)

  pub push_message-Goes :
      (k : ℕ) (role : Role) (text : String) (t : Task Value World)
      → Asked k t
      → Goes k (push_message role text t)
  unfolding push_message
  push_message-Goes k role text t ((es, trace), q, fits) =
      ((pushed (message role text) ∷ es, goes_on trace (pushes role text t)), q, fits)

  pub push_thought-Goes :
      (k : ℕ) (thought : String) (t : Task Value World)
      → Asked k t
      → Goes k (push_thought thought t)
  unfolding push_thought
  push_thought-Goes k thought t h = elim (Bool-cases (is_empty thought)) [
    | inl e ↦ rw e h
    | inr e ↦ rw e (push_message-Goes k assistant thought t h)
  ]

  pub compress-Goes : (k : ℕ) (t : Task Value World) → Asked k t → Goes k (compress x t)
  unfolding compress maybe_summarize ask replace_all
  compress-Goes k t ((es, trace), q, fits) = elim (Bool-cases (needs_summarization t.stm)) [
    | inl e ↦ rw e (by_answer (x.ipc.summarize (summarize_request x t.stm) t.world) refl)
    | inr e ↦ rw e ((es, trace), q, fits)
  ]
    where
      by_answer :
          (r : Exit IpcError SummarizeResponse × World)
          → x.ipc.summarize (summarize_request x t.stm) t.world ≡ r
          → Goes k (continue (some (received r.0, record t { world = r.1 })) replace_all)
      by_answer (ok response, w) e =
          ((summarized (ok response) ∷ es, goes_on trace (summarizes t (ok response) w e)), q, fits)
      by_answer (err x', w) e = (
        Asked-Bounded k _
            ((summarized (err x') ∷ es, goes_on trace (summarizes t (err x') w e)), q, fits),
        refl,
      )
      by_answer (panic, w) e =
          Asked-Bounded k _
            ((summarized panic ∷ es, goes_on trace (summarizes t panic w e)), q, fits)
