-- ===== src/Planning/Executor/Ends.antt =====
-- Postconditions of the actions of the executor (runtime/src/planning/executor.rs): one on the value and
-- the state of a return, and one on an error and its state. A run that is out of fuel has none, and a
-- panic is not restricted.
use xola.Base.{◌≡◌, refl, ◌⊎◌, inl, none, some, Exit, ok, err, panic}
use xola.Planning.Error.{PlanError}
use xola.Planning.Executor.Task.{Run, Act, continue}

module _ {S A : Type 0} where
  abbrev pub Ends : (A → S → Type 0) → (PlanError → S → Type 0) → Run S A → Type 0
  Ends P Q none = ⊥
  Ends P Q (some (ok a, s)) = P a s
  Ends P Q (some (err e, s)) = Q e s
  Ends P Q (some (panic, s)) = Unit {0}

module _ {S A B : Type 0} where
  -- The action after another starts where that one returned.
  pub continue-Ends :
      (P : A → S → Type 0) (R : B → S → Type 0) (Q : PlanError → S → Type 0) (m : Run S A)
      (f : A → Act S B)
      → Ends P Q m
      → ((a : A) (s : S) → P a s → Ends R Q (f a s))
      → Ends R Q (continue m f)
  continue-Ends P R Q none f h k = absurd h
  continue-Ends P R Q (some (ok a, s)) f h k = k a s h
  continue-Ends P R Q (some (err e, s)) f h k = h
  continue-Ends P R Q (some (panic, s)) f h k = tt

module _ {S A : Type 0} where
  -- A postcondition of a return may be replaced by one that it implies.
  pub Ends-implies :
      (P R : A → S → Type 0) (Q : PlanError → S → Type 0) (m : Run S A)
      → ((a : A) (s : S) → P a s → R a s)
      → Ends P Q m
      → Ends R Q m
  Ends-implies P R Q none k h = absurd h
  Ends-implies P R Q (some (ok a, s)) k h = k a s h
  Ends-implies P R Q (some (err e, s)) k h = h
  Ends-implies P R Q (some (panic, s)) k h = tt

module _ {S A : Type 0} (P : A → S → Type 0) (Q : PlanError → S → Type 0) where
  -- An action with a postcondition has enough fuel.
  pub Ends-some : (m : Run S A) → Ends P Q m → (r : Exit PlanError A × S) × (m ≡ some r)
  Ends-some none h = absurd h
  Ends-some (some r) h = (r, refl)

  pub Ends-ok : (m : Run S A) (a : A) (s : S) → Ends P Q m → m ≡ some (ok a, s) → P a s
  Ends-ok m a s h e = rw e at h

  pub Ends-err : (m : Run S A) (e : PlanError) (s : S) → Ends P Q m → m ≡ some (err e, s) → Q e s
  Ends-err m e s h q = rw q at h

  -- More errors may be allowed.
  pub Ends-more :
      (R : PlanError → S → Type 0) (m : Run S A) → Ends P Q m → Ends P (λ e s. Q e s ⊎ R e s) m
  Ends-more R none h = absurd h
  Ends-more R (some (ok a, s)) h = h
  Ends-more R (some (err e, s)) h = inl h
  Ends-more R (some (panic, s)) h = tt
