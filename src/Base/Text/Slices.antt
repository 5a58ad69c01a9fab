-- ===== src/Base/Text/Slices.antt =====
-- A byte slice of a Rust string is there exactly where it ends between two characters.
use Prim.Native.Char.{code}
use text.Mathlib.TextLemmas.{cons-eq-cons, nil≢cons}
use mathlib.Core.Bool.{false}
use xola.Base.Tests.{ltb, Bool-cases, Option-cases, ltb_false→le, le→ltb_false}
use Prim.Native.Nat.{ℕ, zero, suc, ◌+◌, ◌-◌, ◌<◌}
use Prim.Native.String.{String}
use mathlib.Core.Path.{◌≡◌, ap, sym, ◌∙◌}
use mathlib.Core.Logic.{◌≢◌, inl, inr}
use mathlib.Core.Option.{none, some, some-injective}
use native.Mathlib.Omega.{arith}
use xola.Base.Text.{len_utf8, len, ◌<>◌, slice_to}

pub len_utf8-pos : (c : ℕ) → 0 < len_utf8 c
len_utf8-pos c = ground arith

-- A slice is a front of the text that takes just so many bytes.
pub slice_to-some :
    (n : ℕ) (s p : String) → slice_to n s ≡ some p → (q : String) × (s ≡ p <> q) × (len p ≡ n)
unfolding slice_to len ◌<>◌
slice_to-some zero s p e =
    let empty : String.[] ≡ p = some-injective _ _ e in
    (s, ap (λ t. t <> s) empty, ap len (sym empty))
slice_to-some (suc n) String.[] p e = cc
slice_to-some (suc n) (String.◌∷◌ c s) p e = elim (Bool-cases (ltb (suc n) (len_utf8 (code c)))) [
  | inl over ↦ cc (rw over at e)
  | inr room ↦ elim (Option-cases (slice_to (suc n - len_utf8 (code c)) s)) [
    | inl missing ↦ cc (rw (room, missing) at e)
    | inr (front, found) ↦
        let same : String.◌∷◌ c front ≡ p = some-injective _ _ (rw (room, found) at e) in
        let (q, split, width) = slice_to-some (suc n - len_utf8 (code c)) s front found in
        let sum : len (String.◌∷◌ c front) ≡ suc n = omega (arith, width, ltb_false→le _ _ room) in
        (q, ap (λ t. String.◌∷◌ c t) split ∙ ap (λ t. t <> q) same, ap len (sym same) ∙ sum)
  ]
]

-- Where there is no slice, no front of the text takes just so many bytes.
pub slice_to-none : (n : ℕ) (s p q : String) → slice_to n s ≡ none → s ≡ p <> q → len p ≢ n
unfolding slice_to len ◌<>◌
slice_to-none zero s p q e d l = cc
slice_to-none (suc n) String.[] String.[] q e d l = omega arith
slice_to-none (suc n) String.[] (String.◌∷◌ k p) q e d l = nil≢cons d
slice_to-none (suc n) (String.◌∷◌ c s) String.[] q e d l = omega arith
slice_to-none (suc n) (String.◌∷◌ c s) (String.◌∷◌ k p) q e d l =
    let (same, rest) = cons-eq-cons.0 d in
    let width : len_utf8 (code c) + len p ≡ suc n = ap (λ x. len_utf8 (code x) + len p) same ∙ l in
    let room : ltb (suc n) (len_utf8 (code c)) ≡ false = le→ltb_false _ _ (omega arith) in
    elim (Option-cases (slice_to (suc n - len_utf8 (code c)) s)) [
      | inl missing ↦ slice_to-none (suc n - len_utf8 (code c)) s p q missing rest (omega arith)
      | inr (front, found) ↦ cc (rw (room, found) at e)
    ]
