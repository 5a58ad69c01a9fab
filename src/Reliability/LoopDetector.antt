-- ===== src/Reliability/LoopDetector.antt =====
-- The loop detector (runtime/src/reliability/loop_detector.rs). A window is a list, its front first.
-- The JSON values, their serialisation, the hasher and the order in which a `HashMap` is iterated are
-- parameters.
pub mod Counts
pub mod Window
pub mod Verdict
pub mod Repeats
mod Tests
use mathlib.Core.List.{Memᴰ}
use xola.Base.{
  ℕ, ◌+◌, Option, none, some, String, List, [], ◌∷◌, ◌++◌, length, leb, ◌==◌, if◌then◌else◌,
}
use xola.Base.Text.{to_decimal, ◌<>◌}

pub record LoopDetectorConfig : Type 0 where
  pub window_size : ℕ
  pub repeat_threshold : ℕ

-- LoopDetectorConfig::default
abbrev pub default_config : LoopDetectorConfig
default_config = record { window_size = 10; repeat_threshold = 3 }

-- serde_json::to_string, and a `DefaultHasher` that has been fed some strings and finishes.
pub record Hashing (Value : Type 0) : Type 0 where
  pub to_string : Value → Option String
  pub finish : List String → ℕ

-- How a `HashMap<u64, usize>` is iterated: in some order, over its entries and nothing else.
pub record Iteration : Type 0 where
  pub iter : List (ℕ × ℕ) → List (ℕ × ℕ)
  pub iter_all : (m : List (ℕ × ℕ)) (e : ℕ × ℕ) → Memᴰ e m → Memᴰ e (iter m)
  pub iter_only : (m : List (ℕ × ℕ)) (e : ℕ × ℕ) → Memᴰ e (iter m) → Memᴰ e m

pub record LoopDetector : Type 0 where
  pub window : List ℕ
  pub window_size : ℕ
  pub repeat_threshold : ℕ

unfoldable pub new : ℕ → ℕ → LoopDetector
new window_size repeat_threshold = record {
  window = [];
  window_size = window_size;
  repeat_threshold = repeat_threshold;
}

unfoldable pub from_config : LoopDetectorConfig → LoopDetector
unfolding new
from_config config = new config.window_size config.repeat_threshold

unfoldable pub clear : LoopDetector → LoopDetector
clear d = record d { window = [] }

-- self.window.pop_front()
abbrev pub pop_front {ℓ} : {A : Type ℓ} → List A → List A
pop_front [] = []
pop_front (x ∷ xs) = xs

-- One more hash in the window.
unfoldable pub push_hash : ℕ → LoopDetector → LoopDetector
push_hash hash d =
    let kept = if leb d.window_size (length d.window) then pop_front d.window else d.window in
    record d { window = kept ++ hash ∷ [] }

abbrev or_empty : Option String → String
or_empty none = ""
or_empty (some s) = s

module _ {Value : Type 0} (h : Hashing Value) where
  unfoldable pub hash_call : String → Value → ℕ
  hash_call tool_name input = h.finish (tool_name ∷ or_empty (h.to_string input) ∷ [])

  unfoldable pub record_call : String → Value → LoopDetector → LoopDetector
  unfolding push_hash
  record_call tool_name input d = push_hash (hash_call tool_name input) d

-- *counts.entry(hash).or_insert(0) += 1
unfoldable pub count_one : ℕ → List (ℕ × ℕ) → List (ℕ × ℕ)
count_one hash [] = (hash, 1) ∷ []
count_one hash ((j, n) ∷ m) = if j == hash then (j, n + 1) ∷ m else (j, n) ∷ count_one hash m

-- The first loop of `is_looping`.
unfoldable pub count_all : List (ℕ × ℕ) → List ℕ → List (ℕ × ℕ)
count_all counts [] = counts
count_all counts (hash ∷ rest) = count_all (count_one hash counts) rest

unfoldable pub loop_message : ℕ → ℕ → String
loop_message count hash =
    "Detected loop: tool called "
    <> to_decimal count
    <> " times with identical input (hash: "
    <> to_decimal hash
    <> ")"

-- The second loop of `is_looping`.
unfoldable pub first_repeated : ℕ → List (ℕ × ℕ) → Option String
first_repeated threshold [] = none
first_repeated threshold ((hash, count) ∷ rest) =
    if leb threshold count then some (loop_message count hash) else first_repeated threshold rest

unfoldable pub is_looping : Iteration → LoopDetector → Option String
is_looping it d = first_repeated d.repeat_threshold (it.iter (count_all [] d.window))
