-- ===== src/Base/Dict.antt =====
-- `HashMap<String, V>` as an association list: lookups, insertion and the list of keys.
use mathlib.Core.Path.{◌≡◌, refl, sym, ◌∙◌}
use mathlib.Core.Logic.{◌⊎◌, ◌≢◌, inl, inr}
use mathlib.Core.Bool.{Bool, true, false}
use mathlib.Core.Option.{Option, none, some, some-injective}
use mathlib.Core.List.{List, [], ◌∷◌}
use Prim.Native.String.{String}
use text.Mathlib.Text.{◌==◌}
use text.Mathlib.TextEquality.{eq_iff}
use native.Mathlib.Omega.{arith}
use xola.Base.Tests.{Bool-cases, if◌then◌else◌}

abbrev pub Dict {ℓ} : Type ℓ → Type ℓ
Dict V = List (String × V)

module _ {ℓ} {V : Type ℓ} where
  -- map.get(k)
  unfoldable pub get : String → Dict V → Option V
  get k [] = none
  get k ((j, v) ∷ m) = if j == k then some v else get k m

  -- map.insert(k, v)
  unfoldable pub insert : String → V → Dict V → Dict V
  insert k v [] = (k, v) ∷ []
  insert k v ((j, w) ∷ m) = if j == k then (k, v) ∷ m else (j, w) ∷ insert k v m

  -- map.contains_key(k)
  unfoldable pub contains_key : String → Dict V → Bool
  contains_key k [] = false
  contains_key k ((j, w) ∷ m) = if j == k then true else contains_key k m

  -- map.keys()
  abbrev pub keys : Dict V → List String
  keys [] = []
  keys ((j, w) ∷ m) = j ∷ keys m

  pub get-insert :
      (k j : String) (v : V) (m : Dict V)
      → get j (insert k v m) ≡ (if k == j then some v else get j m)
  unfolding get insert
  get-insert k j v [] = refl
  get-insert k j v ((i, w) ∷ m) =
      ground (arith, eq_iff k j, eq_iff i k, eq_iff i j, get-insert k j v m)

  pub get-insert_ne : (k j : String) (v : V) (m : Dict V) → k ≢ j → get j (insert k v m) ≡ get j m
  get-insert_ne k j v m h = ground (arith, get-insert k j v m, eq_iff k j)

  pub get-insert_self : (k : String) (v : V) (m : Dict V) → get k (insert k v m) ≡ some v
  get-insert_self k v m = ground (arith, get-insert k k v m, eq_iff k k)

  -- A key is contained exactly when a lookup finds a value.
  abbrev pub is_some : Option V → Bool
  is_some none = false
  is_some (some v) = true

  pub contains_key-get : (k : String) (m : Dict V) → contains_key k m ≡ is_some (get k m)
  unfolding contains_key get
  contains_key-get k [] = refl
  contains_key-get k ((j, w) ∷ m) = ground (arith, contains_key-get k m)

  -- A value that is found after an insertion is the new one, or was found before.
  pub get-insert-some :
      (k j : String) (v x : V) (m : Dict V)
      → get j (insert k v m) ≡ some x
      → ((k ≡ j) × (v ≡ x)) ⊎ (get j m ≡ some x)
  get-insert-some k j v x m e = elim (Bool-cases (k == j)) [
    | inl same ↦
        inl ((eq_iff k j).0 same, some-injective _ _ (rw same at (sym (get-insert k j v m) ∙ e)))
    | inr other ↦ inr (rw other at (sym (get-insert k j v m) ∙ e))
  ]
