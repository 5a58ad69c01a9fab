-- ===== src/Tools/Registry/Shared/System.antt =====
-- Any number of callers of one registry, whose calls overlap (runtime/src/tools/registry.rs).
use xola.Base.{ℕ, Option, none, some, String, List, [], ◌∷◌, Exit, ◌==◌, if◌then◌else◌}
use xola.Tools.Error.{ToolError}
use xola.Tools.Registry.{Host, ToolRegistry}
use xola.Tools.Registry.Shared.{Entered, returned, awaits, enter, leave}

-- The registry, and for each caller the name of the tool that it waits for.
pub record System (Value World : Type 0) : Type 0 where
  pub registry : ToolRegistry Value World
  pub calls : ℕ → Option String

-- A caller makes a call, gets what its tool returned or the timeout's error, or is dropped while it waits.
pub data Move (Value World : Type 0) : Type 0 where
  enters : ℕ → String → Value → World → Move Value World
  leaves : ℕ → Exit ToolError Value → World → Move Value World
  drops : ℕ → Move Value World

module _ {Value World : Type 0} where
  -- The same callers, but for one.
  abbrev pub set_call : ℕ → Option String → System Value World → System Value World
  set_call i call s = record s { calls = λ j. if i == j then call else s.calls j }

  abbrev pub set_registry : ToolRegistry Value World → System Value World → System Value World
  set_registry r s = record s { registry = r }

module _ {Value World : Type 0} (host : Host Value World) where
  abbrev pub admit :
      ℕ
      → String
      → Entered Value World × ToolRegistry Value World
      → System Value World
      → System Value World
  admit i name (returned e, r) s = set_registry r s
  admit i name (awaits tool, r) s = set_call i (some name) (set_registry r s)

  -- A caller that waits makes no other call, and one that does not wait gets nothing.
  abbrev pub enters_in :
      Option String → ℕ → String → Value → World → System Value World → System Value World
  enters_in none i name input w s = admit i name (enter host s.registry name input w) s
  enters_in (some awaited) i name input w s = s

  abbrev pub leaves_in :
      Option String → ℕ → Exit ToolError Value → World → System Value World → System Value World
  leaves_in none i result w s = s
  leaves_in (some name) i result w s =
      set_call i none (set_registry (leave host s.registry name result w).1 s)

  unfoldable pub move : System Value World → Move Value World → System Value World
  unfolding enter leave
  move s (enters i name input w) = enters_in (s.calls i) i name input w s
  move s (leaves i result w) = leaves_in (s.calls i) i result w s
  move s (drops i) = set_call i none s

  unfoldable pub moves : System Value World → List (Move Value World) → System Value World
  unfolding move
  moves s [] = s
  moves s (m ∷ ms) = moves (move s m) ms
