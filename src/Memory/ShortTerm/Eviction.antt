-- ===== src/Memory/ShortTerm/Eviction.antt =====
-- What a push evicts (runtime/src/memory/short_term.rs): the fewest of the oldest messages.
use xola.Base.{
  ℕ, zero, suc, ◌+◌, ◌-◌, ◌≤◌, ◌<◌, ◌≡◌, refl, ◌⊎◌, inl, inr, ap, ◌∙◌, List, [], ◌∷◌, ◌++◌, arith,
  word_count, add_usize, length, drop, ltb, ltb→lt, ltb_false→le, Bool-cases,
}
use xola.Memory.ShortTerm.{Message, ShortTermMemory, evict, push}

-- The tokens of some messages together.
abbrev pub total : List Message → ℕ
total [] = 0
total (m ∷ rest) = m.token_count + total rest

pub total-drop : (k : ℕ) (ms : List Message) → total (drop k ms) ≤ total ms
total-drop zero ms = omega arith
total-drop (suc k) [] = omega arith
total-drop (suc k) (m ∷ rest) = omega (arith, total-drop k rest)

-- A cut of `k` messages leaves room for the incoming tokens, or nothing, and no smaller cut does.
pub record IsFewest (max_tokens incoming : ℕ) (ms : List Message) (k : ℕ) : Type 0 where
  pub in_range : k ≤ length ms
  pub makes_room : (total (drop k ms) + incoming ≤ max_tokens) ⊎ (k ≡ length ms)
  pub needed : (j : ℕ) → j < k → max_tokens < total (drop j ms) + incoming

one_more :
    (max_tokens incoming : ℕ) (m : Message) (rest : List Message) (k : ℕ)
    → max_tokens < total (m ∷ rest) + incoming
    → IsFewest max_tokens incoming rest k
    → IsFewest max_tokens incoming (m ∷ rest) (suc k)
one_more max_tokens incoming m rest k over few = record {
  in_range = omega arith;
  makes_room = ground arith;
  needed = earlier;
}
  where
    earlier : (j : ℕ) → j < suc k → max_tokens < total (drop j (m ∷ rest)) + incoming
    earlier zero h = over
    earlier (suc j) h = few.needed j (omega arith)

none_cut :
    (max_tokens incoming : ℕ) (ms : List Message)
    → (total ms + incoming ≤ max_tokens) ⊎ (0 ≡ length ms)
    → IsFewest max_tokens incoming ms 0
none_cut max_tokens incoming ms room = record {
  in_range = omega arith;
  makes_room = room;
  needed = λ j h. absurd (omega arith);
}

pub evict-drop :
    (max_tokens incoming : ℕ) (ms : List Message) (count : ℕ)
    → count ≡ total ms
    → count + incoming < word_count
    → (k : ℕ) × (evict max_tokens incoming ms count ≡ (drop k ms, total (drop k ms)))
      × IsFewest max_tokens incoming ms k
unfolding evict
evict-drop max_tokens incoming [] count e fits =
    (0, ground arith, none_cut max_tokens incoming [] (inr refl))
evict-drop max_tokens incoming (m ∷ rest) count e fits =
    elim (Bool-cases (ltb max_tokens (add_usize count incoming))) [
      | inl over ↦
          let (k, cut, few) =
            evict-drop max_tokens incoming rest (count - m.token_count) (omega arith)
              (omega arith) in
          let big = ltb→lt _ _ over in
          (suc k, rw over cut, one_more max_tokens incoming m rest k (omega arith) few)
      | inr room ↦
          let small = ltb_false→le _ _ room in
          (0, rw room (ground arith), none_cut max_tokens incoming (m ∷ rest) (inl (omega arith)))
    ]

-- A push on a buffer whose count is right, with a message whose tokens fit in a machine word together
-- with those of the buffer, drops the fewest of the oldest messages that make room for it (all of them
-- where it alone exceeds the budget), puts it last, and counts exactly what is there then.
pub push-drop :
    (msg : Message) (s : ShortTermMemory)
    → s.token_count ≡ total s.messages
    → s.token_count + msg.token_count < word_count
    → (k : ℕ) × ((push msg s).messages ≡ drop k s.messages ++ msg ∷ [])
      × ((push msg s).token_count ≡ total (drop k s.messages) + msg.token_count)
      × IsFewest s.max_tokens msg.token_count s.messages k
unfolding push
push-drop msg s e fits =
    let (k, cut, few) = evict-drop s.max_tokens msg.token_count s.messages s.token_count e fits in
    (
      k,
      ap (λ (p : List Message × ℕ). p.0 ++ msg ∷ []) cut,
      ap (λ (p : List Message × ℕ). add_usize p.1 msg.token_count) cut
          ∙ omega (arith, total-drop k s.messages),
      few,
    )
