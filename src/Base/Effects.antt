-- ===== src/Base/Effects.antt =====
-- Actions on the outside world that may fail, in a row with `?`.
use mathlib.Core.Option.{Option, none, some}
use xola.Base.Exits.{Exit, ok, err, panic}

abbrev pub Act : Type 0 → Type 0 → Type 0 → Type 0
Act World E A = World → Exit E A × World

module _ {World E : Type 0} where
  abbrev pub return : {A : Type 0} → A → Act World E A
  return a w = (ok a, w)

  abbrev pub fail : {A : Type 0} → E → Act World E A
  fail e w = (err e, w)

  abbrev pub continue : {A B : Type 0} → Exit E A × World → (A → Act World E B) → Exit E B × World
  continue (ok a, w) f = f a w
  continue (err e, w) f = (err e, w)
  continue (panic, w) f = (panic, w)

  infixl 5 ◌>>=◌ ◌>>◌
  abbrev pub ◌>>=◌ : {A B : Type 0} → Act World E A → (A → Act World E B) → Act World E B
  ◌>>=◌ m f w = continue (m w) f

  abbrev pub ◌>>◌ : {A B : Type 0} → Act World E A → Act World E B → Act World E B
  m >> k = m >>= λ _. k

  -- option.ok_or(e)
  abbrev pub ok_or : {A : Type 0} → E → Option A → Act World E A
  ok_or e none = fail e
  ok_or e (some a) = return a

  abbrev pub renamed : {A F : Type 0} → (F → E) → Exit F A × World → Exit E A × World
  renamed f (ok a, w) = (ok a, w)
  renamed f (err e, w) = (err (f e), w)
  renamed f (panic, w) = (panic, w)

  -- call.map_err(f)
  abbrev pub map_err : {A F : Type 0} → (F → E) → Act World F A → Act World E A
  map_err f call w = renamed f (call w)
