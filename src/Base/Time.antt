-- ===== src/Base/Time.antt =====
-- `std::time::Duration` in nanoseconds, and the casts to machine integers of 64 bits.
use Prim.Native.Nat.{ℕ, ◌+◌, ◌*◌, ◌/◌, ◌%◌, ◌^◌}

abbrev pub Duration : Type 0
Duration = ℕ

-- Duration::from_secs and Duration::from_millis
abbrev pub from_secs : ℕ → Duration
from_secs s = s * 1_000_000_000

abbrev pub from_millis : ℕ → Duration
from_millis ms = ms * 1_000_000

-- d.as_millis()
abbrev pub as_millis : Duration → ℕ
as_millis d = d / 1_000_000

-- The number of values of `u64`, and of `usize` on a target of 64 bits.
abbrev pub word_count : ℕ
word_count = 2 ^ 64

-- n as u64
abbrev pub as_u64 : ℕ → ℕ
as_u64 n = n % word_count

-- a + b on `usize`, in a build without overflow checks
abbrev pub add_usize : ℕ → ℕ → ℕ
add_usize a b = (a + b) % word_count
