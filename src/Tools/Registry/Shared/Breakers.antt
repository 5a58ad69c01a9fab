-- ===== src/Tools/Registry/Shared/Breakers.antt =====
-- What the breaker of each tool sees of calls that overlap (runtime/src/tools/registry.rs).
use text.Mathlib.Text.{◌==◌}
use text.Mathlib.TextEquality.{eq_iff}
use mathlib.Core.Option
use mathlib.Core.Path.{subst}
use xola.Base.{
  ℕ, ◌≡◌, ◌≢◌, refl, sym, ap, ◌∙◌, inl, inr, Bool, true, false, Option, none, some, String, List,
  [], ◌∷◌, ◌++◌, Exit, ok, err, panic, if◌then◌else◌, Option-cases, Bool-cases, arith,
}
use xola.Base.Dict.{get, get-insert_ne, get-insert_self}
use xola.Reliability.CircuitBreaker.{CircuitBreaker, can_execute, record_success, record_failure}
use xola.Reliability.CircuitBreaker.Calls.{Call, attempt, success, failure, step, run}
use xola.Tools.Error.{ToolError}
use xola.Tools.Registry.{Host, ToolRegistry, finish, truncate_text}
use xola.Tools.Registry.Shared.{Entered, returned, awaits, enter, leave}
use xola.Tools.Registry.Shared.System.{System, Move, enters, leaves, drops, admit, move, moves}

map-run-nil : (o : Option CircuitBreaker) → o ≡ Option.map (λ b. run b []) o
unfolding run
map-run-nil none = refl
map-run-nil (some b) = refl

run-append : (b : CircuitBreaker) (cs ds : List Call) → run b (cs ++ ds) ≡ run (run b cs) ds
unfolding run
run-append b [] ds = refl
run-append b (c ∷ cs) ds = run-append (step b c) cs ds

map-run-append :
    (o : Option CircuitBreaker) (cs ds : List Call)
    → Option.map (λ b. run b ds) (Option.map (λ b. run b cs) o)
      ≡ Option.map (λ b. run b (cs ++ ds)) o
map-run-append none cs ds = refl
map-run-append (some b) cs ds = ap some (sym (run-append b cs ds))

module _ {Value World : Type 0} (host : Host Value World) where
  -- The calls of the breaker that an outcome makes.
  abbrev outcome : Exit ToolError Value → World → List Call
  outcome (ok output) w = success ∷ []
  outcome (err e) w = failure (host.clock w) ∷ []
  outcome panic w = []

  abbrev attempt_of : Option String → World → List Call
  attempt_of none w = []
  attempt_of (some shown) w = attempt (host.clock w) ∷ []

  abbrev entry : Option String → Value → World → List Call
  entry none input w = attempt_of (truncate_text (host.to_string input) 500) w
  entry (some awaited) input w = []

  abbrev exit_of : Option String → String → Exit ToolError Value → World → List Call
  exit_of none name result w = []
  exit_of (some awaited) name result w = if awaited == name then outcome result w else []

  -- What a move is for the breaker of a tool: an attempt, an outcome, or nothing.
  abbrev pub calls_on : String → System Value World → Move Value World → List Call
  calls_on name s (enters i called input w) =
      if called == name then entry (s.calls i) input w else []
  calls_on name s (leaves i result w) = exit_of (s.calls i) name result w
  calls_on name s (drops i) = []

  -- All that the breaker of a tool sees of a sequence of moves, in its order.
  unfoldable pub history : String → System Value World → List (Move Value World) → List Call
  unfolding move
  history name s [] = []
  history name s (m ∷ ms) = calls_on name s m ++ history name (move host s m) ms

  -- Between two registries, the breaker under a name has seen these calls.
  abbrev pub Runs :
      String → List Call → ToolRegistry Value World → ToolRegistry Value World → Type 0
  Runs name cs r r' =
      get name r'.circuit_breakers ≡ Option.map (λ b. run b cs) (get name r.circuit_breakers)

  enter-Runs :
      (r : ToolRegistry Value World) (name : String) (input : Value) (w : World)
      → Runs name
          (attempt_of (truncate_text (host.to_string input) 500) w)
          r
          (enter host r name input w).1
  unfolding enter run step
  enter-Runs r name input w = elim (Option-cases (truncate_text (host.to_string input) 500)) [
    | inl e ↦ rw e (map-run-nil (get name r.circuit_breakers))
    | inr (shown, e) ↦ elim (Option-cases (get name r.circuit_breakers)) [
      | inl unknown ↦ rw (e, unknown) unknown
      | inr (b, known) ↦
          rw (e, known) (get-insert_self name (can_execute (host.clock w) b).0 r.circuit_breakers)
    ]
  ]

  enter-others :
      (r : ToolRegistry Value World) (called name : String) (input : Value) (w : World)
      → called ≢ name
      → get name (enter host r called input w).1.circuit_breakers ≡ get name r.circuit_breakers
  unfolding enter
  enter-others r called name input w other =
      elim (Option-cases (truncate_text (host.to_string input) 500)) [
        | inl e ↦ rw e refl
        | inr (shown, e) ↦ elim (Option-cases (get called r.circuit_breakers)) [
          | inl unknown ↦ rw (e, unknown) refl
          | inr (b, known) ↦
              rw (e, known)
                (get-insert_ne called name (can_execute (host.clock w) b).0 r.circuit_breakers
                  other)
        ]
      ]

  finish-Runs :
      (r : ToolRegistry Value World) (name : String) (b : CircuitBreaker)
      (result : Exit ToolError Value) (w : World)
      → get name r.circuit_breakers ≡ some b
      → get name (finish host r name b result w).1.circuit_breakers
        ≡ some (run b (outcome result w))
  unfolding finish run step
  finish-Runs r name b (ok output) w known =
      get-insert_self name (record_success b) r.circuit_breakers
  finish-Runs r name b (err e) w known =
      get-insert_self name (record_failure (host.clock w) b) r.circuit_breakers
  finish-Runs r name b panic w known = known

  leave-Runs :
      (r : ToolRegistry Value World) (name : String) (result : Exit ToolError Value) (w : World)
      → Runs name (outcome result w) r (leave host r name result w).1
  unfolding leave
  leave-Runs r name result w = elim (Option-cases (get name r.circuit_breakers)) [
    | inl unknown ↦ rw unknown unknown
    | inr (b, known) ↦ rw known (finish-Runs r name b result w known)
  ]

  finish-others :
      (r : ToolRegistry Value World) (called name : String) (b : CircuitBreaker)
      (result : Exit ToolError Value) (w : World)
      → called ≢ name
      → get name (finish host r called b result w).1.circuit_breakers ≡ get name r.circuit_breakers
  unfolding finish
  finish-others r called name b (ok output) w other =
      get-insert_ne called name _ r.circuit_breakers other
  finish-others r called name b (err e) w other =
      get-insert_ne called name _ r.circuit_breakers other
  finish-others r called name b panic w other = refl

  leave-others :
      (r : ToolRegistry Value World) (called name : String) (result : Exit ToolError Value)
      (w : World)
      → called ≢ name
      → get name (leave host r called result w).1.circuit_breakers ≡ get name r.circuit_breakers
  unfolding leave
  leave-others r called name result w other = elim (Option-cases (get called r.circuit_breakers)) [
    | inl unknown ↦ rw unknown refl
    | inr (b, known) ↦ rw known (finish-others r called name b result w other)
  ]

  still-Runs :
      (name : String) (r r' : ToolRegistry Value World)
      → get name r'.circuit_breakers ≡ get name r.circuit_breakers
      → Runs name [] r r'
  still-Runs name r r' same = same ∙ map-run-nil (get name r.circuit_breakers)

  pub registry-admit :
      (i : ℕ) (name : String) (p : Entered Value World × ToolRegistry Value World)
      (s : System Value World)
      → (admit host i name p s).registry ≡ p.1
  registry-admit i name (returned e, r) s = refl
  registry-admit i name (awaits tool, r) s = refl

  -- A part of a call is one for the breaker of its tool, and nothing for that of another.
  by_name :
      (called name : String) (cs : List Call) (r : ToolRegistry Value World)
      (r' : String → ToolRegistry Value World)
      → Runs name cs r (r' name)
      → (called ≢ name → get name (r' called).circuit_breakers ≡ get name r.circuit_breakers)
      → Runs name (if called == name then cs else []) r (r' called)
  by_name called name cs r r' same other = elim (Bool-cases (called == name)) [
    | inl e ↦ rw e (subst (λ n. Runs name cs r (r' n)) (sym ((eq_iff called name).0 e)) same)
    | inr e ↦
        rw e (still-Runs name r (r' called) (other (λ q. ground (arith, e, q, eq_iff called name))))
  ]

  if_same_nil : (t : Bool) → (if◌then◌else◌ {A = List Call} t [] []) ≡ []
  if_same_nil true = refl
  if_same_nil false = refl

  move-Runs :
      (name : String) (s : System Value World) (m : Move Value World)
      → Runs name (calls_on name s m) s.registry (move host s m).registry
  unfolding move
  move-Runs name s (enters i called input w) = elim (Option-cases (s.calls i)) [
    | inl idle ↦
        rw (idle, registry-admit i called (enter host s.registry called input w) s)
          (by_name called name (attempt_of (truncate_text (host.to_string input) 500) w) s.registry
            (λ n. (enter host s.registry n input w).1) (enter-Runs s.registry name input w)
            (enter-others s.registry called name input w))
    | inr (awaited, waits) ↦
        rw (waits, if_same_nil (called == name))
          (map-run-nil (get name s.registry.circuit_breakers))
  ]
  move-Runs name s (leaves i result w) = elim (Option-cases (s.calls i)) [
    | inl idle ↦ rw idle (map-run-nil (get name s.registry.circuit_breakers))
    | inr (awaited, waits) ↦ rw waits (
        by_name awaited name (outcome result w) s.registry
          (λ n. (leave host s.registry n result w).1) (leave-Runs s.registry name result w)
          (leave-others s.registry awaited name result w))
  ]
  move-Runs name s (drops i) = map-run-nil (get name s.registry.circuit_breakers)

  -- If the parts of calls before and after the runs of their tools take effect one at a time, as where the
  -- callers share one thread, then however the calls of any number of callers overlap, and whatever their
  -- tools return, and wherever a caller is dropped: the breaker of each tool ends as the one that has had its own attempts and outcomes
  -- one after another, in the order in which they came, whatever the other tools had meanwhile.
  pub moves-history :
      (name : String) (s : System Value World) (ms : List (Move Value World))
      → get name (moves host s ms).registry.circuit_breakers
        ≡ Option.map (λ b. run b (history name s ms)) (get name s.registry.circuit_breakers)
  unfolding moves history
  moves-history name s [] = map-run-nil (get name s.registry.circuit_breakers)
  moves-history name s (m ∷ ms) =
      moves-history name (move host s m) ms
      ∙ ap (Option.map (λ b. run b (history name (move host s m) ms))) (move-Runs name s m)
      ∙ map-run-append (get name s.registry.circuit_breakers) (calls_on name s m)
          (history name (move host s m) ms)
