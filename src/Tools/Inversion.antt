-- ===== src/Tools/Inversion.antt =====
-- What the success of a chain of actions says of its parts (runtime/src/tools).
use xola.Base.{◌≡◌, refl, Option, none, some, Exit, ok, err, panic}
use xola.Tools.Effects.{Act, ok_or, continue, renamed}

module _ {World E : Type 0} where
  pub ok_of_continue :
      {A B : Type 0} (r : Exit E A × World) (f : A → Act World E B) (b : B) (w' : World)
      → continue r f ≡ (ok b, w')
      → (a : A) × (w : World) × (r ≡ (ok a, w)) × (f a w ≡ (ok b, w'))
  ok_of_continue (ok a, w) f b w' q = (a, w, refl, q)
  ok_of_continue (err e, w) f b w' q = cc
  ok_of_continue (panic, w) f b w' q = cc

  pub ok_of_renamed :
      {A F : Type 0} (f : F → E) (r : Exit F A × World) (a : A) (w : World)
      → renamed f r ≡ (ok a, w)
      → r ≡ (ok a, w)
  ok_of_renamed f (ok b, v) a w q = cc
  ok_of_renamed f (err e, v) a w q = cc
  ok_of_renamed f (panic, v) a w q = cc

  pub ok_of_ok_or :
      {A : Type 0} (e : E) (o : Option A) (v w : World) (a : A)
      → ok_or e o v ≡ (ok a, w)
      → (o ≡ some a) × (v ≡ w)
  ok_of_ok_or e none v w a q = cc
  ok_of_ok_or e (some b) v w a q = (cc, cc)

  -- The next three also name the rest of the chain, which succeeded from there.
  pub ok_of_option :
      {A B : Type 0} (e : E) (o : Option A) (w w' : World) (f : A → Act World E B) (b : B)
      → continue (ok_or e o w) f ≡ (ok b, w')
      → (a : A) × (o ≡ some a) × (f a w ≡ (ok b, w'))
  ok_of_option e none w w' f b q = cc
  ok_of_option e (some a) w w' f b q = (a, refl, q)

  pub ok_of_call :
      {A B F : Type 0} (g : F → E) (r : Exit F A × World) (w' : World) (f : A → Act World E B)
      (b : B)
      → continue (renamed g r) f ≡ (ok b, w')
      → (a : A) × (v : World) × (r ≡ (ok a, v)) × (f a v ≡ (ok b, w'))
  ok_of_call g (ok a, v) w' f b q = (a, v, refl, q)
  ok_of_call g (err e, v) w' f b q = cc
  ok_of_call g (panic, v) w' f b q = cc

  pub ok_of_return :
      {A : Type 0} (a b : A) (v w : World)
      → ◌≡◌ {A = Exit E A × World} (ok a, v) (ok b, w)
      → (a ≡ b) × (v ≡ w)
  ok_of_return a b v w q = (cc, cc)
