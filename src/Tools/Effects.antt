-- ===== src/Tools/Effects.antt =====
-- What the tools read of and build as JSON (runtime/src/tools). JSON values are those of `serde_json`,
-- which is a parameter.
use xola.Base.{◌≡◌, Option, none, some, String, List, ℤ}
use xola.Base.Dict.{Dict, get}
pub use xola.Base.Effects.{Act, return, fail, continue, ◌>>=◌, ◌>>◌, ok_or, renamed, map_err}

-- `serde_json::Value`, as documented.
pub record Json (Value : Type 0) : Type 0 where
  pub get_field : String → Value → Option Value
  pub as_str : Value → Option String
  pub as_i64 : Value → Option ℤ
  pub as_array : Value → Option (List Value)
  pub string : String → Value
  pub number : ℤ → Value
  pub array : List Value → Value
  pub object : Dict Value → Value
  pub get_object :
      (key : String) (fields : Dict Value) → get_field key (object fields) ≡ get key fields
  pub as_str_string : (s : String) → as_str (string s) ≡ some s
  pub as_i64_number : (n : ℤ) → as_i64 (number n) ≡ some n
  pub as_array_array : (vs : List Value) → as_array (array vs) ≡ some vs

abbrev pub and_then : {A B : Type 0} → Option A → (A → Option B) → Option B
and_then none f = none
and_then (some a) f = f a

abbrev pub unwrap_or : {A : Type 0} → Option A → A → A
unwrap_or none d = d
unwrap_or (some a) d = a

module _ {Value : Type 0} (json : Json Value) where
  -- value.get(key).and_then(|v| v.as_str()), and likewise for integers and arrays
  abbrev pub str_field : String → Value → Option String
  str_field key v = and_then (json.get_field key v) json.as_str

  abbrev pub i64_field : String → Value → Option ℤ
  i64_field key v = and_then (json.get_field key v) json.as_i64

  abbrev pub array_field : String → Value → Option (List Value)
  array_field key v = and_then (json.get_field key v) json.as_array
