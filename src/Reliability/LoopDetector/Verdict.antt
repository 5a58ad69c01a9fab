-- ===== src/Reliability/LoopDetector/Verdict.antt =====
-- What the verdict of `is_looping` (runtime/src/reliability/loop_detector.rs) means for the window and
-- for the history of calls, whatever order the `HashMap` is iterated in.
use Prim.Native.Nat.{max}
use mathlib.Core.List.{Memᴰ}
use mathlib.Core.Path.{subst₂}
use xola.Base.{
  ℕ, ◌≤◌, ◌<◌, ◌≡◌, ◌↔◌, refl, ap, inl, inr, none, some, String, List, [], ◌∷◌, map, arith, leb,
  leb→le, Bool-cases, Option-cases,
}
use xola.Reliability.LoopDetector.{
  LoopDetector, Hashing, Iteration, new, count_all, loop_message, first_repeated, is_looping,
}
use xola.Reliability.LoopDetector.Counts.{count, mem-count_all, count_all-mem}
use xola.Reliability.LoopDetector.Window.{last, record_all, call_hash, window-record_all}

-- An entry that reaches the threshold, and the message about it.
abbrev pub Reaches : ℕ → List (ℕ × ℕ) → String → Type 0
Reaches threshold m msg =
    (hash : ℕ) × (n : ℕ) × (msg ≡ loop_message n hash) × (threshold ≤ n) × Memᴰ (hash, n) m

first_repeated-some :
    (threshold : ℕ) (m : List (ℕ × ℕ)) (msg : String)
    → first_repeated threshold m ≡ some msg
    → Reaches threshold m msg
unfolding first_repeated
first_repeated-some threshold [] msg e = cc
first_repeated-some threshold ((hash, n) ∷ m) msg e = elim (Bool-cases (leb threshold n)) [
  | inl enough ↦
      let said : some (loop_message n hash) ≡ some msg = rw enough at e in
      (hash, n, cc, leb→le threshold n enough, Memᴰ.head refl)
  | inr less ↦
      let (j, k, said, reached, found) = first_repeated-some threshold m msg (rw less at e) in
      (j, k, said, reached, Memᴰ.tail found)
]

first_repeated-none :
    (threshold hash n : ℕ) (m : List (ℕ × ℕ))
    → first_repeated threshold m ≡ none
    → Memᴰ (hash, n) m
    → n < threshold
unfolding first_repeated
first_repeated-none threshold hash n [] e q = elim q [ ]
first_repeated-none threshold hash n ((j, k) ∷ m) e (Memᴰ.head same) =
    ground (arith, ap (λ (p : ℕ × ℕ). p.1) same)
first_repeated-none threshold hash n ((j, k) ∷ m) e (Memᴰ.tail q) =
    elim (Bool-cases (leb threshold k)) [
      | inl enough ↦ cc (rw enough at e)
      | inr less ↦ first_repeated-none threshold hash n m (rw less at e) q
    ]

-- A verdict names a hash that occurs in the window, with the number of its occurrences there, and
-- that number reaches the threshold.
is_looping-some :
    (it : Iteration) (d : LoopDetector) (msg : String)
    → is_looping it d ≡ some msg
    → (hash : ℕ) × (msg ≡ loop_message (count hash d.window) hash)
      × (d.repeat_threshold ≤ count hash d.window)
      × (0 < count hash d.window)
unfolding is_looping
is_looping-some it d msg e =
    let (hash, n, said, reached, found) =
      first_repeated-some d.repeat_threshold (it.iter (count_all [] d.window)) msg e in
    let (counted, occurs) =
      mem-count_all hash n d.window (it.iter_only (count_all [] d.window) (hash, n) found) in
    (hash, rw counted at said, rw counted at reached, rw counted at occurs)

pub quiet_window :
    (it : Iteration) (d : LoopDetector)
    → (is_looping it d ≡ none)
      ↔ ((hash : ℕ) → 0 < count hash d.window → count hash d.window < d.repeat_threshold)
unfolding is_looping
quiet_window it d = (
  λ e hash occurs.
      first_repeated-none d.repeat_threshold hash (count hash d.window)
        (it.iter (count_all [] d.window)) e
        (it.iter_all (count_all [] d.window) (hash, count hash d.window)
          (count_all-mem hash d.window occurs)),
  λ below. elim (Option-cases (is_looping it d)) [
    | inl quiet ↦ quiet
    | inr (msg, e) ↦
        let (hash, said, reached, occurs) = is_looping-some it d msg e in
        absurd (omega (arith, below hash occurs))
  ],
)

quiet_window_of :
    (it : Iteration) (d : LoopDetector) {w : List ℕ} {threshold : ℕ}
    → d.window ≡ w
    → d.repeat_threshold ≡ threshold
    → (is_looping it d ≡ none) ↔ ((hash : ℕ) → 0 < count hash w → count hash w < threshold)
quiet_window_of it d p q =
    subst₂ (λ w k. (is_looping it d ≡ none) ↔ ((hash : ℕ) → 0 < count hash w → count hash w < k)) p
      q (quiet_window it d)

-- After any history of calls a new detector finds no loop exactly when every hash that occurs among
-- the last calls, as many as the window's size says (one where it is 0), occurs there fewer times
-- than the threshold says.
pub quiet_iff_no_repeat :
    {Value : Type 0} (it : Iteration) (h : Hashing Value) (window_size repeat_threshold : ℕ)
    (calls : List (String × Value))
    → (is_looping it (record_all h (new window_size repeat_threshold) calls) ≡ none) ↔ (
        (hash : ℕ)
        → 0 < count hash (last (max 1 window_size) (map (call_hash h) calls))
        → count hash (last (max 1 window_size) (map (call_hash h) calls)) < repeat_threshold)
quiet_iff_no_repeat it h window_size repeat_threshold calls =
    let (window, size, threshold) = window-record_all h window_size repeat_threshold calls in
    quiet_window_of it (record_all h (new window_size repeat_threshold) calls) window threshold
