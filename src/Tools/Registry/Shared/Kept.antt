-- ===== src/Tools/Registry/Shared/Kept.antt =====
-- What overlapping calls keep of a registry (runtime/src/tools/registry.rs).
use mathlib.Core.Option
use mathlib.Core.Option.{some-injective}
use mathlib.Core.Path.{subst}
use xola.Base.{
  ◌≡◌, refl, sym, ap, ◌∙◌, inl, inr, Option, none, some, String, List, [], ◌∷◌, Exit, ok, err,
  panic, Option-cases,
}
use xola.Base.Dict.{get, is_some}
use xola.Reliability.CircuitBreaker.{CircuitBreaker}
use xola.Reliability.CircuitBreaker.Calls.{Call, step, run}
use xola.Reliability.CircuitBreaker.Invariant.{IsValid, run-IsValid}
use xola.Reliability.CircuitBreaker.Phases.{config-step}
use xola.Tools.Error.{ToolError}
use xola.Tools.Registry.{Host, ToolRegistry, finish, truncate_text}
use xola.Tools.Registry.Invariant.{IsRegistry}
use xola.Tools.Registry.Shared.{enter, leave}
use xola.Tools.Registry.Shared.System.{System, Move, enters, leaves, drops, move, moves}
use xola.Tools.Registry.Shared.Breakers.{history, registry-admit, moves-history}

config-run : (b : CircuitBreaker) (cs : List Call) → (run b cs).config ≡ b.config
unfolding run
config-run b [] = refl
config-run b (c ∷ cs) = config-run (step b c) cs ∙ config-step b c

is_some-map :
    (f : CircuitBreaker → CircuitBreaker) (o : Option CircuitBreaker)
    → is_some (Option.map f o) ≡ is_some o
is_some-map f none = refl
is_some-map f (some b) = refl

module _ {Value World : Type 0} where
  -- The tools and the configuration are the same.
  abbrev pub SameRest : ToolRegistry Value World → ToolRegistry Value World → Type 0
  SameRest r r' = (r'.tools ≡ r.tools) × (r'.circuit_breaker_config ≡ r.circuit_breaker_config)

  SameRest-trans :
      (r r' r'' : ToolRegistry Value World) → SameRest r r' → SameRest r' r'' → SameRest r r''
  SameRest-trans r r' r'' (t, c) (t', c') = (t' ∙ t, c' ∙ c)

  -- A registry with the same tools, whose breakers have each made calls, is well formed if the other is.
  runs-IsRegistry :
      (r r' : ToolRegistry Value World) (calls : String → List Call)
      → ((k : String)
          → get k r'.circuit_breakers
            ≡ Option.map (λ b. run b (calls k)) (get k r.circuit_breakers))
      → SameRest r r'
      → IsRegistry r
      → IsRegistry r'
  runs-IsRegistry r r' calls ran (tools, config) v = record {
    config_valid = rw config v.config_valid;
    same_names = λ k.
        ap (λ m. is_some (get k m)) tools
        ∙ v.same_names k
        ∙ sym (ap is_some (ran k) ∙ is_some-map (λ b. run b (calls k)) (get k r.circuit_breakers));
    own_name = λ k t e. v.own_name k t (ap (get k) (sym tools) ∙ e);
    breaker_valid = λ k b e.
        let (b0, known, same) = before k b e in
        subst IsValid same (run-IsValid b0 (calls k) (v.breaker_valid k b0 known));
    breaker_config = λ k b e.
        let (b0, known, same) = before k b e in
        configured b0 b (calls k) same (v.breaker_config k b0 known);
  }
    where
      configured :
          (b0 b : CircuitBreaker) (cs : List Call)
          → run b0 cs ≡ b
          → b0.config ≡ r.circuit_breaker_config
          → b.config ≡ r'.circuit_breaker_config
      configured b0 b cs same before =
          ap (λ (z : CircuitBreaker). z.config) (sym same) ∙ config-run b0 cs ∙ before ∙ sym config

      before :
          (k : String) (b : CircuitBreaker)
          → get k r'.circuit_breakers ≡ some b
          → (b0 : CircuitBreaker) × (get k r.circuit_breakers ≡ some b0) × (run b0 (calls k) ≡ b)
      before k b e = elim (Option-cases (get k r.circuit_breakers)) [
        | inl unknown ↦ cc (rw unknown at (sym (ran k) ∙ e))
        | inr (b0, known) ↦ (b0, known, some-injective _ _ (rw known at (sym (ran k) ∙ e)))
      ]

module _ {Value World : Type 0} (host : Host Value World) where
  enter-SameRest :
      (r : ToolRegistry Value World) (name : String) (input : Value) (w : World)
      → SameRest r (enter host r name input w).1
  unfolding enter
  enter-SameRest r name input w = elim (Option-cases (truncate_text (host.to_string input) 500)) [
    | inl e ↦ rw e (refl, refl)
    | inr (shown, e) ↦ elim (Option-cases (get name r.circuit_breakers)) [
      | inl unknown ↦ rw (e, unknown) (refl, refl)
      | inr (b, known) ↦ rw (e, known) (refl, refl)
    ]
  ]

  finish-SameRest :
      (r : ToolRegistry Value World) (name : String) (b : CircuitBreaker)
      (result : Exit ToolError Value) (w : World)
      → SameRest r (finish host r name b result w).1
  unfolding finish
  finish-SameRest r name b (ok output) w = (refl, refl)
  finish-SameRest r name b (err e) w = (refl, refl)
  finish-SameRest r name b panic w = (refl, refl)

  leave-SameRest :
      (r : ToolRegistry Value World) (name : String) (result : Exit ToolError Value) (w : World)
      → SameRest r (leave host r name result w).1
  unfolding leave
  leave-SameRest r name result w = elim (Option-cases (get name r.circuit_breakers)) [
    | inl unknown ↦ rw unknown (refl, refl)
    | inr (b, known) ↦ rw known (finish-SameRest r name b result w)
  ]

  move-SameRest :
      (s : System Value World) (m : Move Value World) → SameRest s.registry (move host s m).registry
  unfolding move
  move-SameRest s (enters i name input w) = elim (Option-cases (s.calls i)) [
    | inl idle ↦
        rw (idle, registry-admit host i name (enter host s.registry name input w) s)
          (enter-SameRest s.registry name input w)
    | inr (awaited, waits) ↦ rw waits (refl, refl)
  ]
  move-SameRest s (leaves i result w) = elim (Option-cases (s.calls i)) [
    | inl idle ↦ rw idle (refl, refl)
    | inr (name, waits) ↦ rw waits (leave-SameRest s.registry name result w)
  ]
  move-SameRest s (drops i) = (refl, refl)

  moves-SameRest :
      (s : System Value World) (ms : List (Move Value World))
      → SameRest s.registry (moves host s ms).registry
  unfolding moves
  moves-SameRest s [] = (refl, refl)
  moves-SameRest s (m ∷ ms) =
      SameRest-trans s.registry (move host s m).registry (moves host s (m ∷ ms)).registry
        (move-SameRest s m) (moves-SameRest (move host s m) ms)

  -- However the calls of any number of callers overlap, a registry that was well formed stays so, with the
  -- same tools.
  pub moves-IsRegistry :
      (s : System Value World) (ms : List (Move Value World))
      → IsRegistry s.registry
      → IsRegistry (moves host s ms).registry
        × ((moves host s ms).registry.tools ≡ s.registry.tools)
  moves-IsRegistry s ms v = (
    runs-IsRegistry s.registry (moves host s ms).registry (λ k. history host k s ms)
        (λ k. moves-history host k s ms) (moves-SameRest s ms) v,
    (moves-SameRest s ms).0,
  )

  pub enter-IsRegistry :
      (r : ToolRegistry Value World) (name : String) (input : Value) (w : World)
      → IsRegistry r
      → IsRegistry (enter host r name input w).1
  unfolding moves move
  enter-IsRegistry r name input w v =
      subst IsRegistry
        (registry-admit host 0 name (enter host r name input w)
          (record { registry = r; calls = λ i. none }))
        (moves-IsRegistry (record { registry = r; calls = λ i. none }) (enters 0 name input w ∷ [])
          v).0
