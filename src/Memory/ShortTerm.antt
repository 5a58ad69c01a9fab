-- ===== src/Memory/ShortTerm.antt =====
-- The buffer of recent messages under a token budget (runtime/src/memory/short_term.rs). A deque is a
-- list, its front first; sums of token counts wrap as in a release build.
pub mod Invariant
pub mod Eviction
mod Tests
use xola.Base.{
  ℕ, ◌-◌, ◌*◌, Bool, String, List, [], ◌∷◌, ◌++◌, Exit, ok, panic, add_usize, length, ltb, leb,
  ◌==◌, if◌then◌else◌,
}

pub data Role : Type 0 where
  system user assistant : Role

-- role.to_string()
abbrev pub role_name : Role → String
role_name system = "system"
role_name user = "user"
role_name assistant = "assistant"

pub record Message : Type 0 where
  pub role : Role
  pub content : String
  pub token_count : ℕ

pub record ShortTermMemory : Type 0 where
  pub messages : List Message
  pub token_count : ℕ
  pub max_tokens : ℕ

-- `new` panics on a budget of 0.
unfoldable pub new : {E : Type 0} → ℕ → Exit E ShortTermMemory
new max_tokens =
    if max_tokens == 0
    then panic
    else ok (record { messages = []; token_count = 0; max_tokens = max_tokens })

-- The loop of `push`: what it leaves of the messages, and of their count.
unfoldable pub evict : ℕ → ℕ → List Message → ℕ → List Message × ℕ
evict max_tokens incoming [] count = ([], count)
evict max_tokens incoming (m ∷ rest) count =
    let evicted = evict max_tokens incoming rest (count - m.token_count) in
    if ltb max_tokens (add_usize count incoming) then evicted else (m ∷ rest, count)

unfoldable pub push : Message → ShortTermMemory → ShortTermMemory
push msg s =
    let (kept, count) = evict s.max_tokens msg.token_count s.messages s.token_count in
    record s { messages = kept ++ msg ∷ []; token_count = add_usize count msg.token_count }

unfoldable pub len : ShortTermMemory → ℕ
len s = length s.messages

unfoldable pub is_empty : ShortTermMemory → Bool
is_empty s = len s == 0

-- `token_count as f64 >= max_tokens as f64 * 0.80`. Below 2^50 the product rounds to 4/5 of the budget
-- where that is whole, and to a number between the same two integers where it is not.
unfoldable pub needs_summarization : ShortTermMemory → Bool
needs_summarization s = leb (4 * s.max_tokens) (5 * s.token_count)

unfoldable pub replace_with_summary : Message → ShortTermMemory → ShortTermMemory
replace_with_summary summary s = record s {
  messages = summary ∷ [];
  token_count = summary.token_count;
}

unfoldable pub clear : ShortTermMemory → ShortTermMemory
clear s = record s { messages = []; token_count = 0 }
