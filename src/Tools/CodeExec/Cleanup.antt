-- ===== src/Tools/CodeExec/Cleanup.antt =====
-- No container is left behind (runtime/src/tools/code_exec.rs).
use text.Mathlib.Text.{◌==◌}
use text.Mathlib.TextEquality.{eq_iff}
use mathlib.Core.Path.{subst}
use xola.Base.{
  ℕ, ◌≡◌, ◌≢◌, refl, ap, sym, ◌∙◌, Bool, false, not, ◌&&◌, ◌||◌, Bool-cases, inl, inr, Option, none,
  some, String, Exit, ok, err, panic, Duration, from_secs, List,
}
use xola.Tools.Error.{ToolError, invalid_input}
use xola.Tools.Effects.{Json, str_field, Act, continue, renamed, ok_or, ◌>>=◌}
use xola.Tools.CodeExec.{
  Docker, ContainerBody, image_for_language, cmd_for_language, timeout_seconds, container_body,
  run_container_inner, run_container, cleaned, run_in_container, code_exec_execute,
}

-- How the daemon keeps account of its containers, by their ids: a creation that succeeds adds one with a new
-- id, a forced removal takes away the one of its id, and all else, so also a future that is dropped, leaves
-- each as it was.
pub record Bookkeeping {Value World : Type 0} (docker : Docker Value World)
    (live : World → String → Bool) : Type 0 where
  pub connects : (w : World) (j : String) → live (docker.connect w).1 j ≡ live w j
  pub names : (w : World) (j : String) → live (docker.new_v4 w).1 j ≡ live w j
  pub creates :
      (name : String) (body : ContainerBody) (w w' : World) (id : String)
      → docker.create_container name body w ≡ (ok id, w')
      → (live w id ≡ false) × ((j : String) → live w' j ≡ ((id == j) || live w j))
  pub creates_none :
      (name : String) (body : ContainerBody) (w w' : World) (e : String)
      → docker.create_container name body w ≡ (err e, w')
      → (j : String) → live w' j ≡ live w j
  pub starts :
      (id : String) (w : World) (j : String) → live (docker.start_container id w).1 j ≡ live w j
  pub streams : (id : String) (w : World) (j : String) → live (docker.logs id w).1 j ≡ live w j
  pub inspects :
      (id : String) (w : World) (j : String) → live (docker.inspect_container id w).1 j ≡ live w j
  pub removes :
      (id : String) (w : World) (j : String)
      → live (docker.remove_container id w).1 j ≡ (not (id == j) && live w j)
  pub drops :
      (d : Duration) (future : World → Exit ToolError Value × World) (w : World) (j : String)
      → ((v : World) → live (future v).1 j ≡ live v j)
      → live (docker.timeout d future w).1 j ≡ live w j

-- What was added, and was not there before, and is taken away.
without_new :
    (id j : String) (live : String → Bool)
    → live id ≡ false
    → (not (id == j) && ((id == j) || live j)) ≡ live j
without_new id j live fresh = elim (Bool-cases (id == j)) [
  | inl e ↦ rw e (sym (ap live (sym ((eq_iff id j).0 e)) ∙ fresh))
  | inr e ↦ rw e refl
]

module _ {Value World : Type 0} (json : Json Value) (docker : Docker Value World)
    (live : World → String → Bool) (b : Bookkeeping docker live) where
  pub removed_new :
      (id j : String) (w v : World)
      → live w id ≡ false
      → live v j ≡ ((id == j) || live w j)
      → live (docker.remove_container id v).1 j ≡ live w j
  removed_new id j w v fresh added =
      b.removes id v j ∙ ap (λ t. not (id == j) && t) added ∙ without_new id j (live w) fresh

module _ {Value World : Type 0} (json : Json Value) (docker : Docker Value World)
    (live : World → String → Bool) (b : Bookkeeping docker live) (j : String) where
  -- An action that keeps a container, however it ends.
  abbrev Keeps : {A : Type 0} → Bool → Exit ToolError A × World → Type 0
  Keeps n r = live r.1 j ≡ n

  -- The same, but for a panic.
  abbrev Settles : {A : Type 0} → Bool → Exit ToolError A × World → Type 0
  Settles n (ok a, w) = live w j ≡ n
  Settles n (err e, w) = live w j ≡ n
  Settles n (panic, w) = Unit {0}

  continue-Keeps :
      {A B : Type 0} (n : Bool) (r : Exit ToolError A × World) (f : A → Act World ToolError B)
      → Keeps n r
      → ((a : A) (w : World) → live w j ≡ n → Keeps n (f a w))
      → Keeps n (continue r f)
  continue-Keeps n (ok a, w) f h k = k a w h
  continue-Keeps n (err e, w) f h k = h
  continue-Keeps n (panic, w) f h k = h

  continue-Settles :
      {A B : Type 0} (n : Bool) (r : Exit ToolError A × World) (f : A → Act World ToolError B)
      → Settles n r
      → ((a : A) (w : World) → live w j ≡ n → Settles n (f a w))
      → Settles n (continue r f)
  continue-Settles n (ok a, w) f h k = k a w h
  continue-Settles n (err e, w) f h k = h
  continue-Settles n (panic, w) f h k = h

  renamed-Keeps :
      {A F : Type 0} (n : Bool) (f : F → ToolError) (r : Exit F A × World)
      → live r.1 j ≡ n
      → Keeps n (renamed f r)
  renamed-Keeps n f (ok a, w) h = h
  renamed-Keeps n f (err e, w) h = h
  renamed-Keeps n f (panic, w) h = h

  Settles-Keeps : {A : Type 0} (n : Bool) (r : Exit ToolError A × World) → Keeps n r → Settles n r
  Settles-Keeps n (ok a, w) h = h
  Settles-Keeps n (err e, w) h = h
  Settles-Keeps n (panic, w) h = tt

  pub inner-Keeps :
      (id : String) (w : World) → Keeps (live w j) (run_container_inner json docker id w)
  unfolding run_container_inner
  inner-Keeps id w =
      continue-Keeps (live w j) (renamed _ (docker.start_container id w)) _
        (renamed-Keeps (live w j) _ (docker.start_container id w) (b.starts id w j))
        (λ u w1 h.
          continue-Keeps (live w j) (renamed _ (docker.inspect_container id (docker.logs id w1).1))
            _
            (renamed-Keeps (live w j) _ (docker.inspect_container id (docker.logs id w1).1)
              (b.inspects id (docker.logs id w1).1 j ∙ b.streams id w1 j ∙ h))
            (λ code w2 k. k))

  cleaned-Settles :
      (w : World) (id : String) (r : Exit ToolError Value × World)
      → live w id ≡ false
      → live r.1 j ≡ ((id == j) || live w j)
      → Settles (live w j) (cleaned json docker id r)
  unfolding cleaned
  cleaned-Settles w id (ok output, v) fresh h = removed_new json docker live b id j w v fresh h
  cleaned-Settles w id (err e, v) fresh h = removed_new json docker live b id j w v fresh h
  cleaned-Settles w id (panic, v) fresh h = tt

  -- A container that is created is removed once it has run.
  created-Settles :
      (n : Bool) (name : String) (body : ContainerBody) (seconds : ℕ) (f : String → ToolError)
      (w : World)
      → live w j ≡ n
      → Settles n (
          continue
            (renamed f (docker.create_container name body w))
            (λ id v. cleaned json docker id (run_container json docker id seconds v)))
  unfolding run_container
  created-Settles n name body seconds f w h = by_result (docker.create_container name body w) refl
    where
      by_result :
          (r : Exit String String × World)
          → docker.create_container name body w ≡ r
          → Settles n (
              continue
                (renamed f r)
                (λ id v. cleaned json docker id (run_container json docker id seconds v)))
      by_result (ok id, v) e =
          let (fresh, added) = b.creates name body w v id e in
          subst (λ m. Settles m (cleaned json docker id (run_container json docker id seconds v))) h
            (cleaned-Settles w id (run_container json docker id seconds v) fresh (
              b.drops (from_secs seconds) (run_container_inner json docker id) v j (inner-Keeps id)
              ∙ added j))
      by_result (err x, v) e = b.creates_none name body w v x e j ∙ h
      by_result (panic, v) e = tt

  run_in_container-Settles :
      (image : String) (cmd : List String) (seconds : ℕ) (w : World)
      → Settles (live w j) (run_in_container json docker image cmd seconds w)
  unfolding run_in_container
  run_in_container-Settles image cmd seconds w =
      continue-Settles (live w j) (renamed _ (docker.connect w)) _
        (Settles-Keeps (live w j) _
          (renamed-Keeps (live w j) _ (docker.connect w) (b.connects w j)))
        (λ u w1 h.
          created-Settles (live w j) _ (container_body image cmd) seconds _ (docker.new_v4 w1).1
            (b.names w1 j ∙ h))

  execute-Settles :
      (input : Value) (w : World) → Settles (live w j) (code_exec_execute json docker input w)
  unfolding code_exec_execute
  execute-Settles input w =
      by_fields (str_field json "language" input) (str_field json "code" input)
    where
      by_image :
          (image : Exit ToolError String) (cmd : List String)
          → Settles (live w j) (
              continue
                (image, w)
                (λ i. run_in_container json docker i cmd (timeout_seconds json input)))
      by_image (ok i) cmd = run_in_container-Settles i cmd (timeout_seconds json input) w
      by_image (err e) cmd = refl
      by_image panic cmd = tt

      by_fields :
          (language code : Option String)
          → Settles (live w j) (
              continue
                (ok_or {World = World}
                  (invalid_input "missing or invalid 'language' field")
                  language
                  w)
                (λ l. ok_or (invalid_input "missing or invalid 'code' field") code >>= λ c.
                  (λ v. (image_for_language l, v)) >>= λ i.
                  run_in_container json docker i
                    (cmd_for_language l c)
                    (timeout_seconds json input)))
      by_fields none code = refl
      by_fields (some l) none = refl
      by_fields (some l) (some c) = by_image (image_for_language l) (cmd_for_language l c)

  settled :
      (n : Bool) (result : Exit ToolError Value) (w : World)
      → Settles n (result, w)
      → result ≢ panic
      → live w j ≡ n
  settled n (ok output) w h k = h
  settled n (err e) w h k = h
  settled n panic w h k = absurd (k refl)

module _ {Value World : Type 0} (json : Json Value) (docker : Docker Value World)
    (live : World → String → Bool) (b : Bookkeeping docker live) where
  -- A call that ends without a panic leaves the containers that there were, and no other, whether the
  -- input is refused, the daemon fails at any point, the time is over, or the code has run: if the daemon
  -- keeps account of its containers by their ids, and a forced removal succeeds.
  pub code_exec_cleans_up :
      (input : Value) (w w' : World) (result : Exit ToolError Value) (id : String)
      → code_exec_execute json docker input w ≡ (result, w')
      → result ≢ panic
      → live w' id ≡ live w id
  code_exec_cleans_up input w w' result id q h =
      settled json docker live b id (live w id) result w'
        (rw q at (execute-Settles json docker live b id input w)) h
