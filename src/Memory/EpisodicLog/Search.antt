-- ===== src/Memory/EpisodicLog/Search.antt =====
-- The search of the log by a keyword (runtime/src/memory/episodic_log.rs): how the keyword becomes a
-- pattern of `ILIKE`, and how PostgreSQL reads a pattern.
use Prim.Native.Char.{Char, code}
use xola.Base.{
  ℕ, ◌≡◌, refl, ap, sym, ◌∙◌, ==_iff, Bool, true, false, String, List, [], ◌∷◌, ◌++◌, ◌==◌,
  if◌then◌else◌, Bool-cases, inl, inr,
}
use xola.Base.Text.{◌<>◌}

-- text.replace(c, with), the character by its code
unfoldable pub replace : ℕ → String → String → String
replace c with String.[] = String.[]
replace c with (String.◌∷◌ d text) =
    let rest = replace c with text in if code d == c then with <> rest else String.◌∷◌ d rest

-- The keyword with its wildcards escaped: first `\`, then `%`, then `_`.
unfoldable pub escape : String → String
unfolding replace
escape keyword = replace 95 "\\_" (replace 37 "\\%" (replace 92 "\\\\" keyword))

unfoldable pub like_pattern : String → String
unfolding escape
like_pattern keyword = "%" <> escape keyword <> "%"

-- What a pattern asks for: any text, any one character, or one character.
pub data Token : Type 0 where
  any_text any_one : Token
  exactly : ℕ → Token

-- A pattern as PostgreSQL documents it, where the character before was the escape or was not.
unfoldable pub tokens_from : Bool → String → List Token
tokens_from escaped String.[] = []
tokens_from true (String.◌∷◌ c text) = exactly (code c) ∷ tokens_from false text
tokens_from false (String.◌∷◌ c text) =
    let after = tokens_from true text in
    let rest = tokens_from false text in
    if code c == 92
    then after
    else if code c == 37
    then any_text ∷ rest
    else if code c == 95
    then any_one ∷ rest
    else exactly (code c) ∷ rest

unfoldable pub tokens : String → List Token
unfolding tokens_from
tokens pattern = tokens_from false pattern

-- Each character as itself.
unfoldable pub literally : String → List Token
literally String.[] = []
literally (String.◌∷◌ c text) = exactly (code c) ∷ literally text

plain :
    (c : Char) (text : String)
    → code c == 92 ≡ false
    → code c == 37 ≡ false
    → code c == 95 ≡ false
    → tokens_from false (String.◌∷◌ c text) ≡ exactly (code c) ∷ tokens_from false text
unfolding tokens_from
plain c text e e' e'' = rw (e, e', e'') refl

tokens-escape :
    (keyword tail : String) → tokens (escape keyword <> tail) ≡ literally keyword ++ tokens tail
unfolding tokens escape ◌<>◌ literally
tokens-escape String.[] tail = refl
tokens-escape (String.◌∷◌ c keyword) tail = elim (Bool-cases (code c == 92)) [
  | inl e ↦ rw e (λ i. exactly (sym ((==_iff (code c) 92).0 e) i) ∷ tokens-escape keyword tail i)
  | inr e ↦ elim (Bool-cases (code c == 37)) [
    | inl e' ↦
        rw (e, e') (λ i. exactly (sym ((==_iff (code c) 37).0 e') i) ∷ tokens-escape keyword tail i)
    | inr e' ↦ elim (Bool-cases (code c == 95)) [
      | inl e'' ↦
          rw (e, e', e'')
            (λ i. exactly (sym ((==_iff (code c) 95).0 e'') i) ∷ tokens-escape keyword tail i)
      | inr e'' ↦
          rw (e, e', e'')
            (plain c (escape keyword <> tail) e e' e''
              ∙ ap (λ l. exactly (code c) ∷ l) (tokens-escape keyword tail))
    ]
  ]
]

-- A search pattern asks for any text, then for the characters of the keyword as they are, also for the
-- wildcards among them, and then for any text.
pub tokens-like_pattern :
    (keyword : String)
    → tokens (like_pattern keyword) ≡ any_text ∷ literally keyword ++ any_text ∷ []
unfolding tokens like_pattern ◌<>◌
tokens-like_pattern keyword = ap (λ l. any_text ∷ l) (tokens-escape keyword "%")
