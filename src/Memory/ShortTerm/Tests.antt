-- ===== src/Memory/ShortTerm/Tests.antt =====
-- Tests of runtime/src/memory/short_term.rs, and the theorems at concrete buffers.
use xola.Base.{ℕ, ◌+◌, ◌≡◌, refl, true, false, List, [], ◌∷◌, ◌++◌, panic, arith, drop}
use xola.Memory.ShortTerm.{
  user, assistant, system, Message, ShortTermMemory, new, evict, push, len, needs_summarization,
}
use xola.Memory.ShortTerm.Eviction.{total, IsFewest, push-drop}
use xola.Memory.ShortTerm.Invariant.{
  IsValid, Op, pushes, summarizes, clears, apply_all, apply_all-IsValid,
}

abbrev goal : Message
goal = record { role = user; content = "Find the release date"; token_count = 40 }

abbrev thought : Message
thought = record { role = assistant; content = "I search the web"; token_count = 30 }

abbrev result : Message
result = record { role = user; content = "A long page"; token_count = 50 }

abbrev two_messages : ShortTermMemory
two_messages = record { messages = goal ∷ thought ∷ []; token_count = 70; max_tokens = 100 }

zero_budget_panics : new {E = ℕ} 0 ≡ panic
unfolding new
zero_budget_panics = refl

-- The oldest message goes when the new one does not fit.
oldest_is_evicted :
    push result two_messages
    ≡ record { messages = thought ∷ result ∷ []; token_count = 80; max_tokens = 100 }
unfolding push evict
oldest_is_evicted = refl

large_message_stands_alone : len (push (record result { token_count = 500 }) two_messages) ≡ 1
unfolding push evict len
large_message_stands_alone = refl

threshold_at_four_fifths :
    (needs_summarization (push (record thought { token_count = 10 }) two_messages) ≡ true)
    × (needs_summarization (push (record thought { token_count = 9 }) two_messages) ≡ false)
unfolding push evict needs_summarization
threshold_at_four_fifths = (refl, refl)

push-drop_example :
    (k : ℕ) × ((push result two_messages).messages ≡ drop k two_messages.messages ++ result ∷ [])
    × ((push result two_messages).token_count ≡ total (drop k two_messages.messages) + 50)
    × IsFewest 100 50 two_messages.messages k
push-drop_example = push-drop result two_messages refl (omega arith)

two_messages-IsValid : IsValid two_messages
two_messages-IsValid = omega arith

abbrev session : List Op
session =
    pushes result
    ∷ summarizes (record { role = system; content = "So far"; token_count = 12 })
    ∷ pushes goal
    ∷ clears
    ∷ []

apply_all-IsValid_example : IsValid (apply_all two_messages session)
apply_all-IsValid_example =
    apply_all-IsValid two_messages session two_messages-IsValid (omega arith)
