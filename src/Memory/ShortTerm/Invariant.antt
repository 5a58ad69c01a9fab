-- ===== src/Memory/ShortTerm/Invariant.antt =====
-- What holds of the buffer between two operations (runtime/src/memory/short_term.rs).
use xola.Base.{
  ℕ, zero, suc, ◌+◌, ◌*◌, ◌^◌, ◌≤◌, ◌<◌, ◌≡◌, refl, ◌⊎◌, inl, inr, ap, ◌∙◌, false, List, [], ◌∷◌,
  ◌++◌, arith, length, length-append, length-drop, drop, leb_false→lt, All,
}
use xola.Memory.ShortTerm.{
  Message, ShortTermMemory, push, needs_summarization, replace_with_summary, clear,
}
use xola.Memory.ShortTerm.Eviction.{total, IsFewest, push-drop}

-- Half the range of `usize`: two counts below it do not wrap when they are added.
abbrev pub half_range : ℕ
half_range = 2 ^ 63

-- The count is that of the messages, and within the budget unless one message alone is over it.
pub record IsValid (s : ShortTermMemory) : Type 0 where
  pub accounted : s.token_count ≡ total s.messages
  pub in_budget : (s.token_count ≤ s.max_tokens) ⊎ (length s.messages ≡ 1)
  pub small_budget : s.max_tokens < half_range
  pub small_count : s.token_count < half_range

pub data Op : Type 0 where
  pushes : Message → Op
  summarizes : Message → Op
  clears : Op

-- The tokens that an operation brings are below half the range of `usize`.
abbrev pub IsSmall : Op → Type 0
IsSmall (pushes m) = m.token_count < half_range
IsSmall (summarizes m) = m.token_count < half_range
IsSmall clears = Unit

unfoldable pub apply : ShortTermMemory → Op → ShortTermMemory
apply s (pushes m) = push m s
apply s (summarizes m) = replace_with_summary m s
apply s clears = clear s

unfoldable pub apply_all : ShortTermMemory → List Op → ShortTermMemory
apply_all s [] = s
apply_all s (o ∷ os) = apply_all (apply s o) os

total-append : (xs ys : List Message) → total (xs ++ ys) ≡ total xs + total ys
total-append [] ys = omega arith
total-append (x ∷ xs) ys = omega (arith, total-append xs ys)

total-drop_all : (k : ℕ) (ms : List Message) → k ≡ length ms → total (drop k ms) ≡ 0
total-drop_all zero [] e = refl
total-drop_all zero (m ∷ ms) e = absurd (omega arith)
total-drop_all (suc k) [] e = refl
total-drop_all (suc k) (m ∷ ms) e = total-drop_all k ms (omega arith)

max_tokens-push : (m : Message) (s : ShortTermMemory) → (push m s).max_tokens ≡ s.max_tokens
unfolding push
max_tokens-push m s = refl

pub push-IsValid :
    (m : Message) (s : ShortTermMemory)
    → IsValid s
    → m.token_count < half_range
    → IsValid (push m s)
push-IsValid m s v small =
    let (k, left, counted, few) = push-drop m s v.accounted (omega (arith, v.small_count)) in
    let sum = ap total left ∙ total-append (drop k s.messages) (m ∷ []) in
    let count = ap length left ∙ length-append (drop k s.messages) (m ∷ []) in
    elim few.makes_room [
      | inl fits ↦ record {
        accounted = omega (arith, counted, sum);
        in_budget = inl (omega (arith, counted, max_tokens-push m s));
        small_budget = omega (arith, max_tokens-push m s);
        small_count = omega (arith, counted, v.small_budget);
      }
      | inr every ↦ record {
        accounted = omega (arith, counted, sum);
        in_budget = inr (omega (arith, count, length-drop k s.messages, every));
        small_budget = omega (arith, max_tokens-push m s);
        small_count = omega (arith, counted, total-drop_all k s.messages every);
      }
    ]

apply-IsValid : (s : ShortTermMemory) (o : Op) → IsValid s → IsSmall o → IsValid (apply s o)
unfolding apply replace_with_summary clear
apply-IsValid s (pushes m) v small = push-IsValid m s v small
apply-IsValid s (summarizes m) v small = ground arith
apply-IsValid s clears v small = ground arith

-- Any sequence of pushes, summaries and clearings, each of fewer than 2^63 tokens, keeps the count
-- equal to the tokens of the messages, and within the budget unless one message alone is there.
pub apply_all-IsValid :
    (s : ShortTermMemory) (os : List Op) → IsValid s → All IsSmall os → IsValid (apply_all s os)
unfolding apply_all
apply_all-IsValid s [] v small = v
apply_all-IsValid s (o ∷ os) v small =
    apply_all-IsValid (apply s o) os (apply-IsValid s o v small.0) small.1

IsFewest-zero :
    {max_tokens incoming : ℕ} {ms : List Message} (k : ℕ)
    → IsFewest max_tokens incoming ms k
    → total ms + incoming ≤ max_tokens
    → k ≡ 0
IsFewest-zero zero few fits = refl
IsFewest-zero (suc k) few fits = absurd (omega (arith, few.needed 0 (omega arith)))

-- A buffer that does not ask for a summary takes a message of up to a fifth of its budget without
-- evicting anything.
push_headroom :
    (m : Message) (s : ShortTermMemory)
    → IsValid s
    → needs_summarization s ≡ false
    → 5 * m.token_count ≤ s.max_tokens
    → ((push m s).messages ≡ s.messages ++ m ∷ [])
      × ((push m s).token_count ≡ s.token_count + m.token_count)
unfolding needs_summarization
push_headroom m s v quiet small =
    let below = leb_false→lt _ _ quiet in
    let (k, left, counted, few) = push-drop m s v.accounted (omega (arith, v.small_budget)) in
    let none_dropped : k ≡ 0 = IsFewest-zero k few (omega (arith, v.accounted)) in
    (
      left ∙ ap (λ n. drop n s.messages ++ m ∷ []) none_dropped,
      counted
          ∙ ap (λ n. total (drop n s.messages) + m.token_count) none_dropped
          ∙ omega (arith, v.accounted),
    )
