-- ===== src/Tools/CodeExec/Dropped/Leaks.antt =====
-- The containers that a call leaves which is dropped (runtime/src/tools/code_exec.rs).
use text.Mathlib.Text.{◌==◌}
use mathlib.Core.Path.{subst}
use xola.Base.{
  ℕ, zero, suc, ◌≡◌, ◌≢◌, refl, ap, sym, ◌∙◌, ◌⊎◌, inl, inr, Bool, false, ◌||◌, some, String, List,
  Exit, ok, err, panic, Duration, from_secs,
}
use xola.Base.Text.{◌<>◌}
use xola.Tools.Error.{ToolError}
use xola.Tools.Effects.{Json, str_field}
use xola.Tools.CodeExec.{
  Docker, image_for_language, cmd_for_language, timeout_seconds, container_body,
  run_container_inner, run_container,
}
use xola.Tools.CodeExec.Cleanup.{Bookkeeping, removed_new, inner-Keeps}
use xola.Tools.CodeExec.Dropped.{
  DroppedAfter, removing, running, creating, connecting, execute_future,
}

module _ {World : Type 0} (live : World → String → Bool) where
  -- The same containers.
  abbrev pub Same : World → World → Type 0
  Same w w' = (j : String) → live w' j ≡ live w j

  -- The same containers, and this one.
  abbrev pub Added : String → World → World → Type 0
  Added id w w' = (j : String) → live w' j ≡ ((id == j) || live w j)

  -- What is left of a call that is dropped during the creation of the container, during its run, during its
  -- removal, or after that.
  abbrev pub Left : ℕ → String → World → World → Type 0
  Left zero id w w' = Same w w' ⊎ Added id w w'
  Left (suc zero) id w w' = Added id w w'
  Left (suc (suc zero)) id w w' = Added id w w' ⊎ Same w w'
  Left (suc (suc (suc n))) id w w' = Same w w'

module _ {Value World : Type 0} (json : Json Value) (docker : Docker Value World)
    (live : World → String → Bool) (b : Bookkeeping docker live) (id : String) (w0 : World)
    (fresh : live w0 id ≡ false) where
  removed-Same :
      (v w' : World) → Added live id w0 v → w' ≡ (docker.remove_container id v).1 → Same live w0 w'
  removed-Same v w' h e j =
      ap (λ u. live u j) e ∙ removed_new json docker live b id j w0 v fresh (h j)

  still-Added : (v w' : World) → Added live id w0 v → w' ≡ v → Added live id w0 w'
  still-Added v w' h e j = ap (λ u. live u j) e ∙ h j

  -- The last await.
  removal-Left :
      (v w' : World)
      → Added live id w0 v
      → (w' ≡ v) ⊎ (w' ≡ (docker.remove_container id v).1) ⊎ (Duration × (w' ≡ v))
      → Left live 2 id w0 w'
  removal-Left v w' h (inl e) = inl (still-Added v w' h e)
  removal-Left v w' h (inr (inl e)) = inr (removed-Same v w' h e)
  removal-Left v w' h (inr (inr (d, e))) = inl (still-Added v w' h e)

  removing-Left :
      (n : ℕ) (r : Exit ToolError Value × World) (w' : World)
      → r.0 ≢ panic
      → Added live id w0 r.1
      → DroppedAfter n (removing json docker id r.0) r.1 w'
      → Left live (suc (suc n)) id w0 w'
  unfolding DroppedAfter removing
  removing-Left zero (ok output, v) w' good h q = removal-Left v w' h q
  removing-Left (suc n) (ok output, v) w' good h q = removed-Same v w' h q
  removing-Left zero (err e, v) w' good h q = removal-Left v w' h q
  removing-Left (suc n) (err e, v) w' good h q = removed-Same v w' h q
  removing-Left n (panic, v) w' good h q = absurd (good refl)

  timeout-Added :
      (d : Duration) (v : World)
      → Added live id w0 v
      → Added live id w0 (docker.timeout d (run_container_inner json docker id) v).1
  timeout-Added d v h j =
      b.drops d (run_container_inner json docker id) v j (inner-Keeps json docker live b j id) ∙ h j

  running-Left :
      (n seconds : ℕ) (v w' : World)
      → (run_container json docker id seconds v).0 ≢ panic
      → Added live id w0 v
      → DroppedAfter n (running json docker seconds (ok id)) v w'
      → Left live (suc n) id w0 w'
  unfolding DroppedAfter running run_container
  running-Left zero seconds v w' good h (inl e) = still-Added v w' h e
  running-Left zero seconds v w' good h (inr (inl e)) =
      still-Added _ w' (timeout-Added (from_secs seconds) v h) e
  running-Left zero seconds v w' good h (inr (inr (d, e))) =
      still-Added _ w' (timeout-Added d v h) e
  running-Left (suc n) seconds v w' good h q =
      removing-Left n (run_container json docker id seconds v) w' good
        (timeout-Added (from_secs seconds) v h) q

module _ {Value World : Type 0} (json : Json Value) (docker : Docker Value World)
    (live : World → String → Bool) (b : Bookkeeping docker live) where
  creation-Left :
      (id : String) (w0 v w2 w' : World) (r : Exit String String × World)
      → r ≡ (ok id, w2)
      → Same live w0 v
      → Added live id w0 w2
      → (w' ≡ v) ⊎ (w' ≡ r.1) ⊎ (Duration × (w' ≡ v))
      → Left live 0 id w0 w'
  creation-Left id w0 v w2 w' r creates h k (inl e) = inl (λ j. ap (λ u. live u j) e ∙ h j)
  creation-Left id w0 v w2 w' r creates h k (inr (inl e)) =
      inr (λ j. ap (λ u. live u j) (e ∙ ap (λ (p : Exit String String × World). p.1) creates) ∙ k j)
  creation-Left id w0 v w2 w' r creates h k (inr (inr (d, e))) =
      inl (λ j. ap (λ u. live u j) e ∙ h j)

  creating-Left :
      (n seconds : ℕ) (image id : String) (cmd : List String) (w0 w1 w2 w' : World)
      → docker.create_container
          ("xola-code-exec-" <> (docker.new_v4 w1).0)
          (container_body image cmd)
          (docker.new_v4 w1).1
        ≡ (ok id, w2)
      → (run_container json docker id seconds w2).0 ≢ panic
      → Same live w0 w1
      → DroppedAfter n (creating json docker image cmd seconds (ok tt)) w1 w'
      → Left live n id w0 w'
  unfolding DroppedAfter creating
  creating-Left n seconds image id cmd w0 w1 w2 w' creates good h = by_await n
    where
      named : Same live w0 (docker.new_v4 w1).1
      named j = b.names w1 j ∙ h j

      fresh : live w0 id ≡ false
      fresh = sym (named id) ∙ (b.creates _ _ (docker.new_v4 w1).1 w2 id creates).0

      added : Added live id w0 w2
      added j =
          (b.creates _ _ (docker.new_v4 w1).1 w2 id creates).1 j
          ∙ ap (λ t. (id == j) || t) (named j)

      by_await :
          (m : ℕ)
          → DroppedAfter m (creating json docker image cmd seconds (ok tt)) w1 w'
          → Left live m id w0 w'
      by_await zero q = creation-Left id w0 (docker.new_v4 w1).1 w2 w' _ creates named added q
      by_await (suc m) q = running-Left json docker live b id w0 fresh m seconds w2 w' good added (
          subst
            (λ (r : Exit String String × World).
              DroppedAfter m (running json docker seconds r.0) r.1 w')
            creates q)

  -- A call that reaches the daemon and has its container created, and whose run does not panic, leaves its
  -- container behind if it is dropped while the container runs. Dropped during the creation or the removal, it
  -- may leave it, as the daemon has served that request or not; dropped after that, or not at all, it
  -- leaves none. The other containers are as they were. The daemon keeps account of its containers by their
  -- ids, and a forced removal succeeds.
  pub execute_future-Left :
      (n : ℕ) (input : Value) (language code image id : String) (w w1 w2 w' : World)
      → str_field json "language" input ≡ some language
      → str_field json "code" input ≡ some code
      → image_for_language language ≡ ok image
      → docker.connect w ≡ (ok tt, w1)
      → docker.create_container
          ("xola-code-exec-" <> (docker.new_v4 w1).0)
          (container_body image (cmd_for_language language code))
          (docker.new_v4 w1).1
        ≡ (ok id, w2)
      → (run_container json docker id (timeout_seconds json input) w2).0 ≢ panic
      → DroppedAfter n (execute_future json docker input) w w'
      → Left live n id w w'
  unfolding execute_future connecting DroppedAfter
  execute_future-Left n input language code image id w w1 w2 w' has_language has_code has_image
        connects creates good q =
      creating-Left n (timeout_seconds json input) image id (cmd_for_language language code) w w1 w2
        w' creates good
        (λ j.
          ap (λ (r : Exit String (Unit {0}) × World). live r.1 j) (sym connects) ∙ b.connects w j)
        (subst
          (λ (r : Exit String (Unit {0}) × World).
            DroppedAfter n
              (creating json docker image (cmd_for_language language code)
                (timeout_seconds json input) r.0)
              r.1 w')
          connects (rw (has_language, has_code, has_image) at q))
