-- ===== src/Reliability/LoopDetector/Window.antt =====
-- The window of the detector (runtime/src/reliability/loop_detector.rs) against the history of calls.
use Prim.Native.Nat.{max}
use mathlib.Core.List.{append-nil, append_assoc}
use xola.Base.{
  ℕ, zero, suc, ◌-◌, ◌≡◌, refl, ap, sym, ◌∙◌, String, List, [], ◌∷◌, ◌++◌, map, arith, length,
  length-append, length-drop, drop, drop-append, leb, leb→le, leb_false→lt, if◌then◌else◌,
  Bool-cases, inl, inr,
}
use xola.Reliability.LoopDetector.{
  LoopDetector, Hashing, new, pop_front, push_hash, hash_call, record_call,
}

-- The last entries of a list, so many as the number says.
abbrev pub last {ℓ} : {A : Type ℓ} → ℕ → List A → List A
last n xs = drop (length xs - n) xs

drop-nil {ℓ} : {A : Type ℓ} (n : ℕ) → drop {A = A} n [] ≡ []
drop-nil zero = refl
drop-nil (suc n) = refl

drop-suc {ℓ} : {A : Type ℓ} (n : ℕ) (xs : List A) → drop (suc n) xs ≡ pop_front (drop n xs)
drop-suc zero [] = refl
drop-suc (suc n) [] = refl
drop-suc zero (x ∷ xs) = refl
drop-suc (suc n) (x ∷ xs) = drop-suc n xs

-- What is kept of a full window, and of one that is not full.
abbrev kept {ℓ} : {A : Type ℓ} → ℕ → List A → List A
kept size xs = if leb size (length xs) then pop_front xs else xs

kept-last {ℓ} :
    {A : Type ℓ} (k : ℕ) (xs : List A) → kept (suc k) (last (suc k) xs) ≡ drop (length xs - k) xs
kept-last k xs = elim (Bool-cases (leb (suc k) (length (last (suc k) xs)))) [
  | inl full ↦
      let next : suc (length xs - suc k) ≡ length xs - k =
        omega (arith, leb→le _ _ full, length-drop (length xs - suc k) xs) in
      rw full (sym (drop-suc (length xs - suc k) xs) ∙ ap (λ n. drop n xs) next)
  | inr room ↦
      let same : length xs - suc k ≡ length xs - k =
        omega (arith, leb_false→lt _ _ room, length-drop (length xs - suc k) xs) in
      rw room (ap (λ n. drop n xs) same)
]

-- One more entry moves the window on by at most one.
last-append {ℓ} :
    {A : Type ℓ} (k : ℕ) (xs : List A) (x : A)
    → kept (suc k) (last (suc k) xs) ++ x ∷ [] ≡ last (suc k) (xs ++ x ∷ [])
last-append k xs x =
    ap (λ l. l ++ x ∷ []) (kept-last k xs)
    ∙ sym (drop-append (length xs - k) xs (x ∷ []) (omega arith))
    ∙ ap (λ n. drop n (xs ++ x ∷ [])) (omega (arith, length-append xs (x ∷ [])))

-- A window of size 0 holds one entry, as one of size 1 does.
kept_max {ℓ} : {A : Type ℓ} (size : ℕ) (xs : List A) → kept size xs ≡ kept (suc (size - 1)) xs
kept_max zero [] = refl
kept_max zero (x ∷ xs) = ground arith
kept_max (suc size) xs = ground arith

push_hash-last :
    (hash : ℕ) (d : LoopDetector) (seen : List ℕ)
    → d.window ≡ last (suc (d.window_size - 1)) seen
    → (push_hash hash d).window ≡ last (suc (d.window_size - 1)) (seen ++ hash ∷ [])
unfolding push_hash
push_hash-last hash d seen e =
    ap (λ l. l ++ hash ∷ [])
      (kept_max d.window_size d.window ∙ ap (kept (suc (d.window_size - 1))) e)
    ∙ last-append (d.window_size - 1) seen hash

-- All of a history of calls, recorded in its order.
module _ {Value : Type 0} (h : Hashing Value) where
  unfoldable pub record_all : LoopDetector → List (String × Value) → LoopDetector
  record_all d [] = d
  record_all d ((tool_name, input) ∷ calls) = record_all (record_call h tool_name input d) calls

  abbrev pub call_hash : String × Value → ℕ
  call_hash (tool_name, input) = hash_call h tool_name input

  record_all-last :
      (d : LoopDetector) (seen : List ℕ) (calls : List (String × Value))
      → d.window ≡ last (suc (d.window_size - 1)) seen
      → (record_all d calls).window ≡ last (suc (d.window_size - 1)) (seen ++ map call_hash calls)
  unfolding record_all record_call
  record_all-last d seen [] e = rw append-nil e
  record_all-last d seen ((tool_name, input) ∷ calls) e =
      let hash = hash_call h tool_name input in
      record_all-last (record_call h tool_name input d) (seen ++ hash ∷ []) calls
        (push_hash-last hash d seen e)
      ∙ ap (last (suc (d.window_size - 1))) (append_assoc seen (hash ∷ []) (map call_hash calls))

  settings-record_all :
      (d : LoopDetector) (calls : List (String × Value))
      → ((record_all d calls).window_size ≡ d.window_size)
        × ((record_all d calls).repeat_threshold ≡ d.repeat_threshold)
  unfolding record_all record_call
  settings-record_all d [] = (refl, refl)
  settings-record_all d ((tool_name, input) ∷ calls) =
      settings-record_all (record_call h tool_name input d) calls

  -- After any history of calls a new detector's window holds the hashes of the last ones, oldest
  -- first, as many as the window's size says, and one where the size is 0; the two settings are those
  -- that it was made with.
  pub window-record_all :
      (window_size repeat_threshold : ℕ) (calls : List (String × Value))
      → let d = record_all (new window_size repeat_threshold) calls in
        (d.window ≡ last (max 1 window_size) (map call_hash calls))
        × (d.window_size ≡ window_size)
        × (d.repeat_threshold ≡ repeat_threshold)
  unfolding new
  window-record_all window_size repeat_threshold calls =
      let d = new window_size repeat_threshold in
      let size : suc (window_size - 1) ≡ max 1 window_size = omega arith in
      let full = record_all-last d [] calls (sym (drop-nil (0 - suc (window_size - 1)))) in
      (
        full ∙ ap (λ n. last n (map call_hash calls)) size,
        (settings-record_all d calls).0,
        (settings-record_all d calls).1,
      )
