-- ===== src/Reliability/CircuitBreaker/Threads/InTurn.antt =====
-- Calls that do not overlap (runtime/src/reliability/circuit_breaker.rs).
use mathlib.Core.Path.{subst}
use xola.Base.{
  ℕ, suc, zero, ◌≡◌, ◌==◌, ==_iff, refl, ap, ◌∙◌, true, false, List, [], ◌∷◌, Bool-cases, inl, inr,
}
use xola.Reliability.CircuitBreaker.{CircuitBreaker}
use xola.Reliability.CircuitBreaker.Calls.{Call, step, answer, run}
use xola.Reliability.CircuitBreaker.Threads.{
  Pc, entered, done, advance, System, start, is_free, Event, turn, begin, perform, after,
}
use xola.Reliability.CircuitBreaker.Threads.Alone.{advance_all, advance_all-call}

-- The accesses of a call, with no other between them.
abbrev pub whole : ℕ → Call → List Event → List Event
whole i c rest = begin i c ∷ turn i ∷ turn i ∷ turn i ∷ turn i ∷ rest

-- Calls of any threads, one after another.
unfoldable pub in_turn : List (ℕ × Call) → List Event → List Event
in_turn [] rest = rest
in_turn ((i, c) ∷ cs) rest = whole i c (in_turn cs rest)

abbrev pub calls : List (ℕ × Call) → List Call
calls [] = []
calls ((i, c) ∷ cs) = c ∷ calls cs

abbrev view : System → ℕ → CircuitBreaker × Pc
view s i = (s.breaker, s.pc i)

self : (i : ℕ) → (i == i) ≡ true
self i = (==_iff i i).1 refl

view-turn : (s : System) (i : ℕ) → view (perform s (turn i)) i ≡ advance s.breaker (s.pc i)
unfolding perform
view-turn s i = rw (self i) refl

view-begin :
    (s : System) (i : ℕ) (c : Call)
    → is_free (s.pc i) ≡ true
    → view (perform s (begin i c)) i ≡ (s.breaker, entered c)
unfolding perform
view-begin s i c h = rw (h, self i) refl

-- The next accesses of a thread.
unfoldable accesses : ℕ → ℕ → System → System
accesses zero i s = s
accesses (suc n) i s = accesses n i (perform s (turn i))

view-accesses : (n i : ℕ) (s : System) → view (accesses n i s) i ≡ advance_all n (view s i)
unfolding accesses advance_all
view-accesses zero i s = refl
view-accesses (suc n) i s =
    view-accesses n i (perform s (turn i)) ∙ ap (advance_all n) (view-turn s i)

pc-accesses : (n i j : ℕ) (s : System) → (i == j) ≡ false → (accesses n i s).pc j ≡ s.pc j
unfolding accesses perform
pc-accesses zero i j s h = refl
pc-accesses (suc n) i j s h = pc-accesses n i j (perform s (turn i)) h ∙ rw h refl

pc-begin :
    (s : System) (i j : ℕ) (c : Call) → (i == j) ≡ false → (perform s (begin i c)).pc j ≡ s.pc j
unfolding perform
pc-begin s i j c h = elim (Bool-cases (is_free (s.pc i))) [
  | inl free ↦ rw (free, h) refl
  | inr busy ↦ rw busy refl
]

abbrev called : System → ℕ → Call → System
called s i c = accesses 4 i (perform s (begin i c))

view-called :
    (s : System) (i : ℕ) (c : Call)
    → is_free (s.pc i) ≡ true
    → view (called s i c) i ≡ (step s.breaker c, done (answer s.breaker c))
view-called s i c h =
    view-accesses 4 i (perform s (begin i c))
    ∙ ap (advance_all 4) (view-begin s i c h)
    ∙ advance_all-call s.breaker c

abbrev AllFree : System → Type 0
AllFree s = (i : ℕ) → is_free (s.pc i) ≡ true

called-AllFree : (s : System) (i : ℕ) (c : Call) → AllFree s → AllFree (called s i c)
called-AllFree s i c h j = elim (Bool-cases (i == j)) [
  | inl same ↦
      subst (λ k. is_free ((called s i c).pc k) ≡ true) ((==_iff i j).0 same)
        (ap (λ (v : CircuitBreaker × Pc). is_free v.1) (view-called s i c (h i)))
  | inr other ↦
      ap is_free (pc-accesses 4 i j (perform s (begin i c)) other ∙ pc-begin s i j c other) ∙ h j
]

-- The calls of a schedule in which no two overlap, and a last call.
abbrev pub Follows : CircuitBreaker → List (ℕ × Call) → ℕ → Call → System → Type 0
Follows b cs i c s =
    (s.breaker ≡ step (run b (calls cs)) c) × (s.pc i ≡ done (answer (run b (calls cs)) c))

after-Follows :
    (s : System) (cs : List (ℕ × Call)) (i : ℕ) (c : Call)
    → AllFree s
    → Follows s.breaker cs i c (after s (in_turn cs (whole i c [])))
unfolding after in_turn run accesses
after-Follows s [] i c h =
    let v = view-called s i c (h i) in
    (ap (λ (x : CircuitBreaker × Pc). x.0) v, ap (λ (x : CircuitBreaker × Pc). x.1) v)
after-Follows s ((j, d) ∷ cs) i c h =
    subst (λ b. Follows b cs i c (after (called s j d) (in_turn cs (whole i c []))))
      (ap (λ (x : CircuitBreaker × Pc). x.0) (view-called s j d (h j)))
      (after-Follows (called s j d) cs i c (called-AllFree s j d h))

-- Calls that do not overlap, whichever threads make them, leave the breaker that the calls leave as one
-- step each, and the last of them has returned with the answer that it then gets.
pub in_turn-Follows :
    (b : CircuitBreaker) (cs : List (ℕ × Call)) (i : ℕ) (c : Call)
    → Follows b cs i c (after (start b) (in_turn cs (whole i c [])))
in_turn-Follows b cs i c = after-Follows (start b) cs i c (λ j. refl)
