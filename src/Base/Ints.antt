-- ===== src/Base/Ints.antt =====
-- Signed integers, under the library's names.
use Prim.Native.Nat.{ℕ}
use xola.Base.Tests.{ltb, ◌==◌, if◌then◌else◌}
use mathlib.Core.Bool.{Bool, false}

-- `negsuc n` is -(n + 1).
pub data ℤ : Type 0 where
  pos negsuc : ℕ → ℤ

-- n.clamp(lo, hi), for bounds that are not negative
unfoldable pub clamp : ℕ → ℕ → ℤ → ℕ
clamp lo hi (pos n) = if ltb n lo then lo else if ltb hi n then hi else n
clamp lo hi (negsuc n) = lo

-- z == n, for an n that is not negative
unfoldable pub is_pos : ℕ → ℤ → Bool
is_pos n (pos m) = m == n
is_pos n (negsuc m) = false
