-- ===== src/Tools/Registry/Invariant.antt =====
-- What holds of a registry between two operations (runtime/src/tools/registry.rs).
use text.Mathlib.TextEquality.{eq_iff}
use mathlib.Core.Path.{subst}
use xola.Base.{
  ◌≡◌, refl, ap, sym, ◌∙◌, inl, inr, true, some, String, List, [], ◌∷◌, Exit, ok, err, panic, arith,
  Duration, Bool-cases,
}
use xola.Base.Dict.{get, get-insert, get-insert-some, contains_key, is_some}
use xola.Reliability.CircuitBreaker
use xola.Reliability.CircuitBreaker.{CircuitBreaker, CircuitBreakerConfig, can_execute}
use xola.Reliability.CircuitBreaker.Calls.{Call, attempt, success, failure, step}
use xola.Reliability.CircuitBreaker.Invariant.{IsValid, IsValidConfig, new-IsValid, step-IsValid}
use xola.Reliability.CircuitBreaker.Phases.{config-step}
use xola.Tools.Error.{ToolError}
use xola.Tools.Registry.Cases.{execute-cases}
use xola.Tools.Registry.{
  Tool, Host, ToolRegistry, new, register, set_breaker, Called, finish, execute_with_timeout, timed,
}

-- The breakers are those of the tools, each valid and with the configuration of the registry, and
-- each tool stands under its own name.
pub record IsRegistry {Value World : Type 0} (r : ToolRegistry Value World) : Type 0 where
  pub config_valid : IsValidConfig r.circuit_breaker_config
  pub same_names : (k : String) → is_some (get k r.tools) ≡ is_some (get k r.circuit_breakers)
  pub own_name : (k : String) (t : Tool Value World) → get k r.tools ≡ some t → t.name ≡ k
  pub breaker_valid :
      (k : String) (b : CircuitBreaker) → get k r.circuit_breakers ≡ some b → IsValid b
  pub breaker_config :
      (k : String) (b : CircuitBreaker)
      → get k r.circuit_breakers ≡ some b
      → b.config ≡ r.circuit_breaker_config

config-new : (c : CircuitBreakerConfig) → (CircuitBreaker.new c).config ≡ c
unfolding CircuitBreaker.new
config-new c = refl

module _ {Value World : Type 0} where
  pub new-IsRegistry :
      (c : CircuitBreakerConfig)
      → IsValidConfig c
      → IsRegistry {Value = Value} {World = World} (new c)
  unfolding new get
  new-IsRegistry c v = record {
    config_valid = v;
    same_names = λ k. refl;
    own_name = λ k t e. cc;
    breaker_valid = λ k b e. cc;
    breaker_config = λ k b e. cc;
  }

  -- A breaker that is valid and has the configuration may take the place of one under a name that has
  -- one.
  set_breaker-IsRegistry :
      (r : ToolRegistry Value World) (name : String) (b : CircuitBreaker)
      → IsRegistry r
      → is_some (get name r.circuit_breakers) ≡ true
      → IsValid b
      → b.config ≡ r.circuit_breaker_config
      → IsRegistry (set_breaker name b r)
  set_breaker-IsRegistry r name b v known valid same = record {
    config_valid = v.config_valid;
    same_names =
        λ k. ground (arith, get-insert name k b r.circuit_breakers, eq_iff name k, v.same_names k);
    own_name = v.own_name;
    breaker_valid = λ k x e. elim (get-insert-some name k b x r.circuit_breakers e) [
      | inl (at, same) ↦ subst IsValid same valid
      | inr before ↦ v.breaker_valid k x before
    ];
    breaker_config = λ k x e. elim (get-insert-some name k b x r.circuit_breakers e) [
      | inl (at, new_one) ↦ ap (λ (z : CircuitBreaker). z.config) (sym new_one) ∙ same
      | inr before ↦ v.breaker_config k x before
    ];
  }

  pub register-IsRegistry :
      (r : ToolRegistry Value World) (t : Tool Value World)
      → IsRegistry r
      → IsRegistry (register r t).1
  unfolding register
  register-IsRegistry r t v = elim (Bool-cases (contains_key t.name r.tools)) [
    | inl taken ↦ rw taken v
    | inr free ↦ rw free (record {
      config_valid = v.config_valid;
      same_names = λ k. ground (
        arith,
        get-insert t.name k t r.tools,
        get-insert t.name k (CircuitBreaker.new r.circuit_breaker_config) r.circuit_breakers,
        v.same_names k,
      );
      own_name = λ k x e. elim (get-insert-some t.name k t x r.tools e) [
        | inl (at, same) ↦ ap (λ (z : Tool Value World). z.name) (sym same) ∙ at
        | inr before ↦ v.own_name k x before
      ];
      breaker_valid = λ k x e.
          elim (get-insert-some t.name k (CircuitBreaker.new r.circuit_breaker_config) x
            r.circuit_breakers e) [
              | inl (at, same) ↦ subst IsValid same (new-IsValid v.config_valid)
              | inr before ↦ v.breaker_valid k x before
            ];
      breaker_config = λ k x e.
          elim (get-insert-some t.name k (CircuitBreaker.new r.circuit_breaker_config) x
            r.circuit_breakers e) [
              | inl (at, same) ↦
                  ap (λ (z : CircuitBreaker). z.config) (sym same)
                  ∙ config-new r.circuit_breaker_config
              | inr before ↦ v.breaker_config k x before
            ];
    })
  ]

  has-set_breaker :
      (r : ToolRegistry Value World) (name : String) (b : CircuitBreaker)
      → is_some (get name (set_breaker name b r).circuit_breakers) ≡ true
  has-set_breaker r name b =
      ground (arith, get-insert name name b r.circuit_breakers, eq_iff name name)

  -- A call on the breaker under a name, whose breaker is then put back.
  call-IsRegistry :
      (r : ToolRegistry Value World) (name : String) (b : CircuitBreaker) (c : Call)
      → IsRegistry r
      → is_some (get name r.circuit_breakers) ≡ true
      → IsValid b
      → b.config ≡ r.circuit_breaker_config
      → IsRegistry (set_breaker name (step b c) r)
  call-IsRegistry r name b c v known valid same =
      set_breaker-IsRegistry r name (step b c) v known (step-IsValid b c valid)
        (config-step b c ∙ same)

module _ {Value World : Type 0} (host : Host Value World) where
  finish-IsRegistry :
      (r : ToolRegistry Value World) (name : String) (b : CircuitBreaker) (e : Exit ToolError Value)
      (w : World)
      → IsRegistry r
      → is_some (get name r.circuit_breakers) ≡ true
      → IsValid b
      → b.config ≡ r.circuit_breaker_config
      → IsRegistry (finish host r name b e w).1
  unfolding finish
  finish-IsRegistry r name b (ok output) w v known valid same =
      unfold step in call-IsRegistry r name b success v known valid same
  finish-IsRegistry r name b (err e) w v known valid same =
      unfold step in call-IsRegistry r name b (failure (host.clock w)) v known valid same
  finish-IsRegistry r name b panic w v known valid same = v

  -- An execution, however it ends, keeps a registry well formed.
  pub execute-IsRegistry :
      (r : ToolRegistry Value World) (name : String) (input : Value) (limit : Duration) (w : World)
      → IsRegistry r
      → IsRegistry (execute_with_timeout host r name input limit w).1
  unfolding step
  execute-IsRegistry r name input limit w v =
      execute-cases host (λ (c : Called host). IsRegistry c.1) r name input limit w (λ e. v)
        (λ b known stop. attempted b known) (λ b e known go. attempted b known)
        (λ b tool returned w' known go valid found e.
          finish-IsRegistry (set_breaker name (can_execute (host.clock w) b).0 r) name
            (can_execute (host.clock w) b).0 (timed host limit returned) w' (attempted b known)
            (has-set_breaker r name (can_execute (host.clock w) b).0) (stepped b known)
            (kept b known))
        (λ e. v)
    where
      stepped :
          (b : CircuitBreaker)
          → get name r.circuit_breakers ≡ some b
          → IsValid (can_execute (host.clock w) b).0
      stepped b known = step-IsValid b (attempt (host.clock w)) (v.breaker_valid name b known)

      kept :
          (b : CircuitBreaker)
          → get name r.circuit_breakers ≡ some b
          → (can_execute (host.clock w) b).0.config ≡ r.circuit_breaker_config
      kept b known = config-step b (attempt (host.clock w)) ∙ v.breaker_config name b known

      attempted :
          (b : CircuitBreaker)
          → get name r.circuit_breakers ≡ some b
          → IsRegistry (set_breaker name (can_execute (host.clock w) b).0 r)
      attempted b known =
          call-IsRegistry r name b (attempt (host.clock w)) v (rw known)
            (v.breaker_valid name b known) (v.breaker_config name b known)

-- What the runtime does with a registry.
pub data Use (Value World : Type 0) : Type 0 where
  registers : Tool Value World → Use Value World
  executes : String → Value → Duration → Use Value World

module _ {Value World : Type 0} (host : Host Value World) where
  unfoldable pub use_all :
      ToolRegistry Value World × World → List (Use Value World) → ToolRegistry Value World × World
  use_all (r, w) [] = (r, w)
  use_all (r, w) (registers t ∷ us) = use_all ((register r t).1, w) us
  use_all (r, w) (executes name input limit ∷ us) =
      let (e, r', w') = execute_with_timeout host r name input limit w in use_all (r', w') us

  -- Any sequence of registrations and executions, whatever the tools do and however each ends, keeps a
  -- registry well formed: a breaker for each tool and no other, each valid and with the registry's
  -- configuration, and each tool under its own name.
  pub use_all-IsRegistry :
      (r : ToolRegistry Value World) (w : World) (us : List (Use Value World))
      → IsRegistry r
      → IsRegistry (use_all (r, w) us).0
  unfolding use_all
  use_all-IsRegistry r w [] v = v
  use_all-IsRegistry r w (registers t ∷ us) v =
      use_all-IsRegistry (register r t).1 w us (register-IsRegistry r t v)
  use_all-IsRegistry r w (executes name input limit ∷ us) v =
      let (e, r', w') = execute_with_timeout host r name input limit w in
      use_all-IsRegistry r' w' us (execute-IsRegistry host r name input limit w v)
