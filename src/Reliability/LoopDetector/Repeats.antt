-- ===== src/Reliability/LoopDetector/Repeats.antt =====
-- How often one hash may stand in the window, where calls are made only while no loop is found
-- (runtime/src/reliability/loop_detector.rs).
use xola.Base.{
  ℕ, suc, ◌≤◌, ◌≡◌, refl, max, none, String, List, [], ◌∷◌, ◌++◌, arith, length, leb, Bool-cases,
  inl, inr,
}
use xola.Reliability.LoopDetector.{
  LoopDetector, Hashing, Iteration, is_looping, pop_front, push_hash, hash_call, record_call,
}
use xola.Reliability.LoopDetector.Counts.{count}
use xola.Reliability.LoopDetector.Verdict.{quiet_window}

count-append_one : (hash j : ℕ) (w : List ℕ) → count hash (w ++ j ∷ []) ≤ suc (count hash w)
count-append_one hash j [] = ground arith
count-append_one hash j (k ∷ w) = ground (arith, count-append_one hash j w)

count-pop_front : (hash : ℕ) (w : List ℕ) → count hash (pop_front w) ≤ count hash w
count-pop_front hash [] = omega arith
count-pop_front hash (k ∷ w) = ground arith

count-push_hash :
    (hash j : ℕ) (d : LoopDetector) → count hash (push_hash j d).window ≤ suc (count hash d.window)
unfolding push_hash
count-push_hash hash j d = elim (Bool-cases (leb d.window_size (length d.window))) [
  | inl full ↦
      rw full
        (omega (arith, count-append_one hash j (pop_front d.window), count-pop_front hash d.window))
  | inr room ↦ rw room (count-append_one hash j d.window)
]

-- A call that is recorded while no loop is found stands in the window no more often than the threshold
-- says, or once.
pub record_call_few :
    {Value : Type 0} (it : Iteration) (h : Hashing Value) (tool_name : String) (input : Value)
    (d : LoopDetector) (hash : ℕ)
    → is_looping it d ≡ none
    → count hash (record_call h tool_name input d).window ≤ max d.repeat_threshold 1
unfolding record_call
record_call_few it h tool_name input d hash quiet =
    ground (
      arith,
      (quiet_window it d).0 quiet hash,
      count-push_hash hash (hash_call h tool_name input) d,
    )

pub record_call_threshold :
    {Value : Type 0} (h : Hashing Value) (tool_name : String) (input : Value) (d : LoopDetector)
    → (record_call h tool_name input d).repeat_threshold ≡ d.repeat_threshold
unfolding record_call push_hash
record_call_threshold h tool_name input d = refl
