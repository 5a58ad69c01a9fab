-- ===== src/Tools/Registry/Truncation.antt =====
-- When the rendering of a value for the log (runtime/src/tools/registry.rs) panics.
use xola.Base.{
  ℕ, ◌<◌, ◌≡◌, ◌≢◌, ◌↔◌, inl, inr, none, String, ltb, ltb→lt, lt→ltb, Bool-cases, Option-cases,
}
use xola.Base.Text.{len, slice_to, ◌<>◌}
use xola.Base.Text.Slices.{slice_to-some, slice_to-none}
use xola.Tools.Registry.{truncate_text, shortened}

-- The text is cut inside a character where it is cut after so many bytes.
abbrev pub SplitsChar : String → ℕ → Type 0
SplitsChar s n = (front rest : String) → s ≡ front <> rest → len front ≢ n

-- Rendering a value panics exactly when its text is longer than the limit, in bytes, and the limit
-- falls inside a character of it.
pub truncate_text-panics_iff :
    (s : String) (max_chars : ℕ)
    → (truncate_text s max_chars ≡ none) ↔ ((max_chars < len s) × SplitsChar s max_chars)
unfolding truncate_text shortened
truncate_text-panics_iff s max_chars = (
  λ e. elim (Bool-cases (ltb max_chars (len s))) [
    | inl long ↦ elim (Option-cases (slice_to max_chars s)) [
      | inl missing ↦ (ltb→lt _ _ long, λ front rest. slice_to-none max_chars s front rest missing)
      | inr (front, found) ↦ cc (rw (long, found) at e)
    ]
    | inr short ↦ cc (rw short at e)
  ],
  λ h. elim (Option-cases (slice_to max_chars s)) [
    | inl missing ↦ rw (lt→ltb _ _ h.0, missing)
    | inr (front, found) ↦
        let (rest, split, width) = slice_to-some max_chars s front found in
        absurd (h.1 front rest split width)
  ],
)
