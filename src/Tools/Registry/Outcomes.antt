-- ===== src/Tools/Registry/Outcomes.antt =====
-- What an execution does to the breakers and to the world (runtime/src/tools/registry.rs).
use xola.Base.{
  ◌≡◌, ◌≢◌, ◌<◌, ◌-◌, refl, ap, sym, ◌∙◌, true, false, Option, none, some, String, [], ◌∷◌, Exit,
  ok, err, panic, arith, Duration,
}
use xola.Base.Dict.{get, get-insert_ne, get-insert_self}
use xola.Reliability.CircuitBreaker.{
  CircuitBreaker, opened, from_u8, clock_millis, can_execute, should_attempt_reset, record_success,
  record_failure,
}
use xola.Reliability.CircuitBreaker.Calls.{attempt, success, failure, step, run}
use xola.Reliability.CircuitBreaker.Phases.{timeout_of}
use xola.Tools.Error.{ToolError, circuit_open}
use xola.Tools.Registry.{
  Tool, Host, ToolRegistry, set_breaker, Called, finish, invoke, validated, guarded,
  execute_with_timeout, logged, timed, truncate_text, validate_input,
}
use xola.Tools.Registry.Cases.{execute-cases}

rejects :
    (now : Duration) (b : CircuitBreaker)
    → from_u8 b.state ≡ opened
    → clock_millis now - b.last_failure < timeout_of b.config
    → ((can_execute now b).1 ≡ false) × ((can_execute now b).0 ≡ b)
unfolding can_execute should_attempt_reset
rejects now b state cools = ground arith

module _ {Value World : Type 0} (host : Host Value World) where
  -- Nothing but the breakers changed, and of these only the one under a name.
  abbrev pub ChangesOnly : String → ToolRegistry Value World → ToolRegistry Value World → Type 0
  ChangesOnly name r r' =
      (r'.tools ≡ r.tools)
      × (r'.circuit_breaker_config ≡ r.circuit_breaker_config)
      × ((other : String)
          → name ≢ other
          → get other r'.circuit_breakers ≡ get other r.circuit_breakers)

  set_breaker-ChangesOnly :
      (r r' : ToolRegistry Value World) (name : String) (b : CircuitBreaker)
      → ChangesOnly name r r'
      → ChangesOnly name r (set_breaker name b r')
  set_breaker-ChangesOnly r r' name b (same, config, others) =
      (same, config, λ other h. get-insert_ne name other b r'.circuit_breakers h ∙ others other h)

  finish-ChangesOnly :
      (r r' : ToolRegistry Value World) (name : String) (b : CircuitBreaker)
      (e : Exit ToolError Value) (w : World)
      → ChangesOnly name r r'
      → ChangesOnly name r (finish host r' name b e w).1
  unfolding finish
  finish-ChangesOnly r r' name b (ok output) w h = set_breaker-ChangesOnly r r' name _ h
  finish-ChangesOnly r r' name b (err e) w h = set_breaker-ChangesOnly r r' name _ h
  finish-ChangesOnly r r' name b panic w h = h

  pub execute-ChangesOnly :
      (r : ToolRegistry Value World) (name : String) (input : Value) (limit : Duration) (w : World)
      → ChangesOnly name r (execute_with_timeout host r name input limit w).1
  execute-ChangesOnly r name input limit w =
      execute-cases host (λ (c : Called host). ChangesOnly name r c.1) r name input limit w
        (λ e. same) (λ b known stop. attempted b) (λ b e known go. attempted b)
        (λ b tool returned w' known go valid found e.
          finish-ChangesOnly r (set_breaker name (can_execute (host.clock w) b).0 r) name
            (can_execute (host.clock w) b).0 (timed host limit returned) w' (attempted b))
        (λ e. same)
    where
      same : ChangesOnly name r r
      same = (refl, refl, λ other h. refl)

      attempted :
          (b : CircuitBreaker)
          → ChangesOnly name r (set_breaker name (can_execute (host.clock w) b).0 r)
      attempted b = set_breaker-ChangesOnly r r name (can_execute (host.clock w) b).0 same

  -- An execution of one tool, however it ends, leaves the tools, the configuration and the breaker of
  -- any other name as they were.
  execute_isolated :
      (r : ToolRegistry Value World) (name other : String) (input : Value) (limit : Duration)
      (w : World)
      → name ≢ other
      → let r' = (execute_with_timeout host r name input limit w).1 in
        (r'.tools ≡ r.tools)
        × (r'.circuit_breaker_config ≡ r.circuit_breaker_config)
        × (get other r'.circuit_breakers ≡ get other r.circuit_breakers)
  execute_isolated r name other input limit w h =
      let (tools, config, others) = execute-ChangesOnly r name input limit w in
      (tools, config, others other h)

  -- How a successful execution came about, from a registry `r` to `r'` and from a world `w` to `w'`.
  abbrev pub Succeeded :
      ToolRegistry Value World
      → String
      → Value
      → World
      → Value
      → ToolRegistry Value World
      → World
      → Type 0
  Succeeded r name input w output r' w' =
      (b : CircuitBreaker) × (tool : Tool Value World) × (get name r.circuit_breakers ≡ some b)
      × ((can_execute (host.clock w) b).1 ≡ true)
      × (validate_input host r name input ≡ none)
      × (get name r.tools ≡ some tool)
      × (tool.execute input w ≡ (ok output, w'))
      × (get name r'.circuit_breakers ≡ some (run b (attempt (host.clock w) ∷ success ∷ [])))

  ok_of_logged : (x output : Value) (o : Option String) → logged host x o ≡ ok output → x ≡ output
  unfolding logged
  ok_of_logged x output none e = cc
  ok_of_logged x output (some s) e = cc

  ok_of_finish :
      (r r' : ToolRegistry Value World) (name : String) (b : CircuitBreaker) (output : Value)
      (limit : Duration) (returned : Option (Exit ToolError Value)) (w w' : World)
      → finish host r name b (timed host limit returned) w ≡ (ok output, r', w')
      → (returned ≡ some (ok output)) × (set_breaker name (record_success b) r ≡ r') × (w ≡ w')
  unfolding finish
  ok_of_finish r r' name b output limit none w w' e = cc
  ok_of_finish r r' name b output limit (some (ok x)) w w' e =
      let logs =
        ok_of_logged x output (truncate_text (host.to_string x) 500)
          (ap (λ (c : Called host). c.0) e) in
      (cc logs, ap (λ (c : Called host). c.1) e, ap (λ (c : Called host). c.2) e)
  ok_of_finish r r' name b output limit (some (err x)) w w' e = cc
  ok_of_finish r r' name b output limit (some panic) w w' e = cc

  -- An execution that returns a value found a breaker that let it through, an input that the tool's
  -- schema allows, and a registered tool; the value and the new world are those that the tool itself
  -- returned on that input, and the breaker has seen one attempt and one success more.
  pub execute-ok :
      (r r' : ToolRegistry Value World) (name : String) (input output : Value) (limit : Duration)
      (w w' : World)
      → execute_with_timeout host r name input limit w ≡ (ok output, r', w')
      → Succeeded r name input w output r' w'
  unfolding run step
  execute-ok r r' name input output limit w w' =
      execute-cases host
        (λ (c : Called host). c ≡ (ok output, r', w') → Succeeded r name input w output r' w') r
        name input limit w (λ e q. cc) (λ b known stop q. cc) (λ b e known go q. cc)
        (λ b tool returned w'' known go valid found e q.
          let (in_time, recorded, after) =
            ok_of_finish (set_breaker name (can_execute (host.clock w) b).0 r) r' name
              (can_execute (host.clock w) b).0 output limit returned w'' w' q in
          (
            b,
            tool,
            known,
            go,
            valid,
            found,
            host.timeout_some limit (tool.execute input) w w' (ok output)
                (rw (in_time, after) at e),
            ap (λ (x : ToolRegistry Value World). get name x.circuit_breakers) (sym recorded)
                ∙ get-insert_self name (record_success (can_execute (host.clock w) b).0) _,
          ))
        (λ e q. cc)

  -- A call of a tool whose breaker is open and cools down is refused: the tool is not run, so the
  -- world is as it was, and so is the breaker.
  execute-circuit_open :
      (r : ToolRegistry Value World) (name shown : String) (b : CircuitBreaker) (input : Value)
      (limit : Duration) (w : World)
      → truncate_text (host.to_string input) 500 ≡ some shown
      → get name r.circuit_breakers ≡ some b
      → from_u8 b.state ≡ opened
      → clock_millis (host.clock w) - b.last_failure < timeout_of b.config
      → let (e, r', w') = execute_with_timeout host r name input limit w in
        (e ≡ err (circuit_open name)) × (get name r'.circuit_breakers ≡ some b) × (w' ≡ w)
  unfolding execute_with_timeout guarded
  execute-circuit_open r name shown b input limit w renders known state cools =
      let (stop, same) = rejects (host.clock w) b state cools in
      rw (renders, known, stop)
        (
          refl,
          get-insert_self name (can_execute (host.clock w) b).0 r.circuit_breakers ∙ ap some same,
          refl,
        )

  -- An input that the schema does not allow, on a breaker that lets the call through, ends the call
  -- with the validation error: the tool is not run, and the breaker has seen the attempt and no
  -- outcome.
  execute-invalid_input :
      (r : ToolRegistry Value World) (name shown : String) (b : CircuitBreaker) (input : Value)
      (e : ToolError) (limit : Duration) (w : World)
      → truncate_text (host.to_string input) 500 ≡ some shown
      → get name r.circuit_breakers ≡ some b
      → (can_execute (host.clock w) b).1 ≡ true
      → validate_input host r name input ≡ some e
      → let (ended, r', w') = execute_with_timeout host r name input limit w in
        (ended ≡ err e)
        × (get name r'.circuit_breakers ≡ some (run b (attempt (host.clock w) ∷ [])))
        × (w' ≡ w)
  unfolding execute_with_timeout guarded validated run step
  execute-invalid_input r name shown b input e limit w renders known go bad =
      rw (renders, known, go, bad)
        (refl, get-insert_self name (can_execute (host.clock w) b).0 r.circuit_breakers, refl)

  -- A tool that returns an error, or whose time is over, on a call that came so far, ends the call with
  -- that error, or with the timeout's, and the breaker has seen the attempt and one failure more, at
  -- the time when the tool ended.
  execute-err :
      (r : ToolRegistry Value World) (name shown : String) (b : CircuitBreaker)
      (tool : Tool Value World) (input : Value) (returned : Option (Exit ToolError Value))
      (e : ToolError) (limit : Duration) (w w' : World)
      → truncate_text (host.to_string input) 500 ≡ some shown
      → get name r.circuit_breakers ≡ some b
      → (can_execute (host.clock w) b).1 ≡ true
      → validate_input host r name input ≡ none
      → get name r.tools ≡ some tool
      → host.timeout limit (tool.execute input) w ≡ (returned, w')
      → timed host limit returned ≡ err e
      → let (ended, r', after) = execute_with_timeout host r name input limit w in
        (ended ≡ err e)
        × (get name r'.circuit_breakers
            ≡ some (run b (attempt (host.clock w) ∷ failure (host.clock w') ∷ [])))
        × (after ≡ w')
  unfolding execute_with_timeout guarded validated invoke finish run step
  execute-err r name shown b tool input returned e limit w w' renders known go valid found ran
        failed =
      rw (renders, known, go, valid, found, ran, failed)
        (
          refl,
          get-insert_self name (record_failure (host.clock w') (can_execute (host.clock w) b).0) _,
          refl,
        )
