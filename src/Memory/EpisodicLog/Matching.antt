-- ===== src/Memory/EpisodicLog/Matching.antt =====
-- What a search of the log finds (runtime/src/memory/episodic_log.rs), by how PostgreSQL matches a pattern
-- of ILIKE. How it compares two characters is a parameter: on what it takes for the same without case.
use Prim.Native.Char.{code}
use xola.Base.{ℕ, ◌≡◌, refl, ap, ◌∙◌, Bool, true, false, ◌&&◌, ◌||◌, String, List, [], ◌∷◌, ◌++◌}
use xola.Memory.EpisodicLog.Search.{
  Token, any_text, any_one, exactly, tokens, literally, like_pattern, tokens-like_pattern,
}

-- A test of some end of a text.
abbrev some_end : (String → Bool) → String → Bool
some_end test String.[] = test String.[]
some_end test (String.◌∷◌ c text) = test (String.◌∷◌ c text) || some_end test text

module _ (same : ℕ → ℕ → Bool) where
  abbrev pub matches : List Token → String → Bool
  matches [] String.[] = true
  matches [] (String.◌∷◌ c text) = false
  matches (any_text ∷ pattern) text = some_end (matches pattern) text
  matches (any_one ∷ pattern) String.[] = false
  matches (any_one ∷ pattern) (String.◌∷◌ c text) = matches pattern text
  matches (exactly d ∷ pattern) String.[] = false
  matches (exactly d ∷ pattern) (String.◌∷◌ c text) = same d (code c) && matches pattern text

  abbrev pub starts_with : String → String → Bool
  starts_with String.[] text = true
  starts_with (String.◌∷◌ d keyword) String.[] = false
  starts_with (String.◌∷◌ d keyword) (String.◌∷◌ c text) =
      same (code d) (code c) && starts_with keyword text

  -- Whether a text contains a keyword, somewhere.
  abbrev pub contains : String → String → Bool
  contains keyword String.[] = starts_with keyword String.[]
  contains keyword (String.◌∷◌ c text) =
      starts_with keyword (String.◌∷◌ c text) || contains keyword text

  matches-any_text : (text : String) → matches (any_text ∷ []) text ≡ true
  matches-any_text String.[] = refl
  matches-any_text (String.◌∷◌ c text) = matches-any_text text

  matches-literally :
      (keyword text : String)
      → matches (literally keyword ++ any_text ∷ []) text ≡ starts_with keyword text
  unfolding literally
  matches-literally String.[] text = matches-any_text text
  matches-literally (String.◌∷◌ d keyword) String.[] = refl
  matches-literally (String.◌∷◌ d keyword) (String.◌∷◌ c text) =
      ap (λ b. same (code d) (code c) && b) (matches-literally keyword text)

  matches-contains :
      (keyword text : String)
      → matches (any_text ∷ literally keyword ++ any_text ∷ []) text ≡ contains keyword text
  matches-contains keyword String.[] = matches-literally keyword String.[]
  matches-contains keyword (String.◌∷◌ c text) =
      λ i. matches-literally keyword (String.◌∷◌ c text) i || matches-contains keyword text i

  -- A text matches a search pattern just when it contains the keyword.
  pub matches-like_pattern :
      (keyword text : String) → matches (tokens (like_pattern keyword)) text ≡ contains keyword text
  matches-like_pattern keyword text =
      ap (λ pattern. matches pattern text) (tokens-like_pattern keyword)
      ∙ matches-contains keyword text
