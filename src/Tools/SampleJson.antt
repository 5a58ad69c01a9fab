-- ===== src/Tools/SampleJson.antt =====
-- JSON values as a data type, for the tests of the tools (runtime/src/tools).
use xola.Base.{◌≡◌, refl, ap, Option, none, some, String, List, [], ◌∷◌, ℤ}
use xola.Base.Dict.{Dict, get}
use xola.Tools.Effects.{Json}

mutual
  pub data Sample : Type 0 where
    null : Sample
    num : ℤ → Sample
    str : String → Sample
    arr : Items → Sample
    obj : Fields → Sample

  pub data Items : Type 0 where
    nil : Items
    cons : Sample → Items → Items

  pub data Fields : Type 0 where
    end : Fields
    field : String → Sample → Fields → Fields

abbrev items : List Sample → Items
items [] = nil
items (v ∷ vs) = cons v (items vs)

abbrev list : Items → List Sample
list nil = []
list (cons v vs) = v ∷ list vs

abbrev fields : Dict Sample → Fields
fields [] = end
fields ((k, v) ∷ m) = field k v (fields m)

abbrev dict : Fields → Dict Sample
dict end = []
dict (field k v m) = (k, v) ∷ dict m

pub list-items : (vs : List Sample) → list (items vs) ≡ vs
list-items [] = refl
list-items (v ∷ vs) = ap (λ l. v ∷ l) (list-items vs)

pub dict-fields : (m : Dict Sample) → dict (fields m) ≡ m
dict-fields [] = refl
dict-fields ((k, v) ∷ m) = ap (λ l. (k, v) ∷ l) (dict-fields m)

abbrev field_of : String → Sample → Option Sample
field_of key (obj m) = get key (dict m)
field_of key v = none

abbrev text_of : Sample → Option String
text_of (str s) = some s
text_of v = none

abbrev integer_of : Sample → Option ℤ
integer_of (num n) = some n
integer_of v = none

abbrev list_of : Sample → Option (List Sample)
list_of (arr vs) = some (list vs)
list_of v = none

abbrev pub sample_json : Json Sample
sample_json = record {
  get_field = field_of;
  as_str = text_of;
  as_i64 = integer_of;
  as_array = list_of;
  string = str;
  number = num;
  array = λ vs. arr (items vs);
  object = λ m. obj (fields m);
  get_object = λ key m. ap (get key) (dict-fields m);
  as_str_string = λ s. refl;
  as_i64_number = λ n. refl;
  as_array_array = λ vs. ap some (list-items vs);
}
