-- ===== src/Reliability/LoopDetector/Counts.antt =====
-- The counts that `is_looping` makes of the hashes in the window
-- (runtime/src/reliability/loop_detector.rs) against the occurrences in it.
use mathlib.Core.List.{Memᴰ}
use xola.Base.{
  ℕ, suc, ◌+◌, ◌<◌, ◌≡◌, ap, inl, inr, ◌∙◌, Bool-cases, ==_iff, List, [], ◌∷◌, arith, ◌==◌,
  if◌then◌else◌,
}
use xola.Reliability.LoopDetector.{count_one, count_all}

-- How often a hash occurs in a window.
abbrev pub count : ℕ → List ℕ → ℕ
count hash [] = 0
count hash (x ∷ xs) = if x == hash then suc (count hash xs) else count hash xs

-- The count under a hash, or 0 where there is none.
abbrev pub tally : ℕ → List (ℕ × ℕ) → ℕ
tally hash [] = 0
tally hash ((j, n) ∷ m) = if j == hash then n else tally hash m

-- Each hash has one entry, and its count is not 0.
abbrev pub IsTally : List (ℕ × ℕ) → Type 0
IsTally [] = Unit
IsTally ((j, n) ∷ m) = (0 < n) × (tally j m ≡ 0) × IsTally m

tally-count_one :
    (hash j : ℕ) (m : List (ℕ × ℕ))
    → tally hash (count_one j m) ≡ (if j == hash then suc (tally hash m) else tally hash m)
unfolding count_one
tally-count_one hash j [] = ground arith
tally-count_one hash j ((i, n) ∷ m) = ground (arith, tally-count_one hash j m)

count_one-IsTally : (j : ℕ) (m : List (ℕ × ℕ)) → IsTally m → IsTally (count_one j m)
unfolding count_one
count_one-IsTally j [] t = ground arith
count_one-IsTally j ((i, n) ∷ m) t =
    ground (arith, count_one-IsTally j m t.2, tally-count_one i j m)

count_all-IsTally : (m : List (ℕ × ℕ)) (w : List ℕ) → IsTally m → IsTally (count_all m w)
unfolding count_all
count_all-IsTally m [] t = t
count_all-IsTally m (x ∷ w) t = count_all-IsTally (count_one x m) w (count_one-IsTally x m t)

tally-count_all :
    (hash : ℕ) (m : List (ℕ × ℕ)) (w : List ℕ)
    → tally hash (count_all m w) ≡ tally hash m + count hash w
unfolding count_all
tally-count_all hash m [] = omega arith
tally-count_all hash m (x ∷ w) =
    ground (arith, tally-count_all hash (count_one x m) w, tally-count_one hash x m)

mem-tally :
    (hash n : ℕ) (m : List (ℕ × ℕ)) → IsTally m → Memᴰ (hash, n) m → (n ≡ tally hash m) × (0 < n)
mem-tally hash n [] t q = elim q [ ]
mem-tally hash n ((j, k) ∷ m) t (Memᴰ.head e) =
    ground (arith, ap (λ (p : ℕ × ℕ). p.0) e, ap (λ (p : ℕ × ℕ). p.1) e)
mem-tally hash n ((j, k) ∷ m) t (Memᴰ.tail q) = ground (arith, mem-tally hash n m t.2 q)

pair_path : {a b c d : ℕ} → a ≡ b → c ≡ d → ◌≡◌ {A = ℕ × ℕ} (b, d) (a, c)
pair_path p q = cc

tally-mem : (hash n : ℕ) (m : List (ℕ × ℕ)) → 0 < n → tally hash m ≡ n → Memᴰ (hash, n) m
tally-mem hash n [] h e = absurd (omega arith)
tally-mem hash n ((j, k) ∷ m) h e = elim (Bool-cases (j == hash)) [
  | inl same ↦ Memᴰ.head (pair_path ((==_iff j hash).0 same) (rw same at e))
  | inr other ↦ Memᴰ.tail (tally-mem hash n m h (rw other at e))
]

-- The entries of the counts are the hashes that occur, each with the number of its occurrences.
pub mem-count_all :
    (hash n : ℕ) (w : List ℕ) → Memᴰ (hash, n) (count_all [] w) → (n ≡ count hash w) × (0 < n)
mem-count_all hash n w q = ground (
  arith,
  mem-tally hash n (count_all [] w) (count_all-IsTally [] w tt) q,
  tally-count_all hash [] w,
)

pub count_all-mem :
    (hash : ℕ) (w : List ℕ) → 0 < count hash w → Memᴰ (hash, count hash w) (count_all [] w)
count_all-mem hash w h =
    tally-mem hash (count hash w) (count_all [] w) h (tally-count_all hash [] w ∙ omega arith)
