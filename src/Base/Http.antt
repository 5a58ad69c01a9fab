-- ===== src/Base/Http.antt =====
-- The HTTP client that the tools and the transport call (`reqwest`): a parameter.
use Prim.Native.Nat.{ℕ}
use Prim.Native.String.{String}
use mathlib.Core.Bool.{Bool}
use mathlib.Core.Option.{Option}
use mathlib.Core.List.{List}
use xola.Base.Exits.{Exit}

-- A response whose body is not read yet.
pub record Response (Value World : Type 0) : Type 0 where
  pub status : ℕ
  pub is_success : Bool
  pub canonical_reason : Option String
  pub content_length : Option ℕ
  pub text : World → Exit String String × World
  pub json : World → Exit String Value × World

-- An error is represented by its text.
pub record Http (Value World : Type 0) : Type 0 where
  pub get : String → World → Exit String (Response Value World) × World
  pub post :
      String → List (String × String) → Value → World → Exit String (Response Value World) × World
