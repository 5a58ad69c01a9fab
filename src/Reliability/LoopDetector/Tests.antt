-- ===== src/Reliability/LoopDetector/Tests.antt =====
-- The unit tests of runtime/src/reliability/loop_detector.rs, and the theorems at a concrete history.
-- The values are texts, and a hash is the sum of the code points that are hashed.
use Prim.Native.Char.{code}
use xola.Base.{ℕ, ◌+◌, ◌<◌, ◌≡◌, ◌↔◌, refl, none, some, String, List, [], ◌∷◌, map}
use xola.Reliability.LoopDetector.{
  Hashing, Iteration, new, record_call, hash_call, clear, count_one, count_all, loop_message,
  first_repeated, is_looping,
}
use xola.Reliability.LoopDetector.Counts.{count}
use xola.Reliability.LoopDetector.Window.{last, record_all, call_hash}
use xola.Reliability.LoopDetector.Verdict.{quiet_iff_no_repeat}

code_sum : String → ℕ
code_sum String.[] = 0
code_sum (String.◌∷◌ c s) = code c + code_sum s

abbrev total : List String → ℕ
total [] = 0
total (s ∷ rest) = code_sum s + total rest

abbrev sum_hashing : Hashing String
sum_hashing = record { to_string = λ s. some s; finish = total }

abbrev in_order : Iteration
in_order = record { iter = λ m. m; iter_all = λ m e h. h; iter_only = λ m e h. h }

abbrev rust : String × String
rust = ("web_search", "rust")

abbrev python : String × String
python = ("web_search", "python")

-- test_detects_loop_with_repeated_calls
abbrev three_calls : List (String × String)
three_calls = rust ∷ python ∷ rust ∷ rust ∷ []

detects_loop_with_repeated_calls :
    is_looping in_order (record_all sum_hashing (new 10 3) three_calls)
    ≡ some (loop_message 3 (hash_call sum_hashing "web_search" "rust"))
unfolding is_looping record_all record_call new count_all count_one first_repeated hash_call
    code_sum
detects_loop_with_repeated_calls = refl

-- test_window_evicts_oldest_when_full
window_evicts_oldest_when_full :
    is_looping in_order (record_all sum_hashing (new 3 3) three_calls) ≡ none
unfolding is_looping record_all record_call new count_all count_one first_repeated hash_call
    code_sum
window_evicts_oldest_when_full = refl

-- test_clear_resets_window
clear_resets_window :
    is_looping in_order (clear (record_all sum_hashing (new 10 3) three_calls)) ≡ none
unfolding is_looping record_all record_call new clear count_all first_repeated hash_call
clear_resets_window = refl

quiet_iff_no_repeat_example :
    (is_looping in_order (record_all sum_hashing (new 3 3) three_calls) ≡ none) ↔ (
      (hash : ℕ)
      → 0 < count hash (last 3 (map (call_hash sum_hashing) three_calls))
      → count hash (last 3 (map (call_hash sum_hashing) three_calls)) < 3)
quiet_iff_no_repeat_example = quiet_iff_no_repeat in_order sum_hashing 3 3 three_calls
